-- ===== src/Store/Undo.antt =====
-- What the handler of `_append` in src/penampakan/perception/store.py restores.
use penampakan.Base.{
  ℕ, zero, suc, ◌+◌, ◌*◌, ◌≤◌, ◌≡◌, ◌∙◌, ap, refl, String, List, [], ◌∷◌, ◌++◌, length, arith,
  eq_iff, inl, inr, ◌⊎◌,
}
use mathlib.Core.List.{append-nil, append_assoc}
use penampakan.Base.Floats.{Floats}
use penampakan.Base.Dict.{
  Dict, Absent, lookup, insert, without, lookup-append, insert-Absent, without-Absent,
}
use penampakan.Models.{Observation}
use penampakan.Models.Ids.{observation_id, observation_id-injective}
use penampakan.Store.{ObservationStore}
use penampakan.Store.Append.{IsNumbered, find_id, find_id-below}
use penampakan.Store.Interrupt.{Progress, first_items, without_all, append_one, append_loop, undo}

first_items-append : {A : Type 0} (xs ys : List A) → first_items (length xs) (xs ++ ys) ≡ xs
unfolding first_items
first_items-append [] ys = refl
first_items-append (x ∷ xs) ys = ap (λ t. x ∷ t) (first_items-append xs ys)

module _ {V : Type 0} where
  without_all-append :
      (ids : List String) (id : String) (d : Dict V)
      → without_all (ids ++ id ∷ []) d ≡ without id (without_all ids d)
  unfolding without_all
  without_all-append [] id d = refl
  without_all-append (x ∷ ids) id d = without_all-append ids id (without x d)

  without_first : (id : String) (v : V) (d : Dict V) → Absent id d → without id ((id, v) ∷ d) ≡ d
  unfolding without
  without_first id v d h = ground (arith, eq_iff id id, without-Absent id d h)

  without-append : (id : String) (d e : Dict V) → without id (d ++ e) ≡ without id d ++ without id e
  unfolding without
  without-append id [] e = refl
  without-append id ((k, v) ∷ d) e = ground (arith, without-append id d e)

module _ {F : Floats} where
  abbrev entries : List (Observation F) → Dict (Observation F)
  entries [] = []
  entries (o ∷ os) = (o.id, o) ∷ entries os

  lookup-entries :
      (id : String) (os : List (Observation F)) → lookup id (entries os) ≡ find_id id os
  unfolding lookup find_id
  lookup-entries id [] = refl
  lookup-entries id (o ∷ os) = ground (arith, lookup-entries id os)

  -- The store's entries and the loop's, whose identifiers are numbered from `n` on: what is still to be
  -- inserted is not there, and to pop what was inserted leaves the store's.
  pub record IsUndoable (base : ObservationStore F) (n : ℕ) (w : Progress F) : Type 0 where
    pub added : List (Observation F)
    pub shown : w.observations ≡ base.observations ++ added
    pub fresh : (m : ℕ) → n ≤ m → Absent (observation_id m) w.by_id
    pub fresh_base : (m : ℕ) → n ≤ m → Absent (observation_id m) base.by_id
    pub undone :
        (es : List (Observation F))
        → IsNumbered n es
        → without_all w.inserted_ids (w.by_id ++ entries es) ≡ base.by_id ++ entries es

  append_one-by_id :
      (base : ObservationStore F) (n : ℕ) (w : Progress F) (o : Observation F)
      → IsUndoable base n w
      → o.id ≡ observation_id n
      → insert o.id o w.by_id ≡ w.by_id ++ (o.id, o) ∷ []
  append_one-by_id base n w o v e = insert-Absent o.id o w.by_id (rw e (v.fresh n (omega arith)))

  append_one-IsUndoable :
      (base : ObservationStore F) (n : ℕ) (w : Progress F) (o : Observation F)
      → IsUndoable base n w
      → o.id ≡ observation_id n
      → IsUndoable base (n + 1) (append_one o w)
  unfolding without lookup
  append_one-IsUndoable base n w o v e =
      let grown = append_one-by_id base n w o v e in
      record {
        added = v.added ++ o ∷ [];
        shown = ap (λ t. t ++ o ∷ []) v.shown ∙ append_assoc base.observations v.added (o ∷ []);
        fresh = λ m le. rw grown (
            ground (
              arith,
              lookup-append (observation_id m) w.by_id ((o.id, o) ∷ []),
              v.fresh m (omega arith),
              eq_iff o.id (observation_id m),
              observation_id-injective n m,
              e,
            ));
        fresh_base = λ m le. v.fresh_base m (omega arith);
        undone = λ es numbered.
            let gone : Absent o.id (entries es) =
              lookup-entries o.id es ∙ rw e (find_id-below n (n + 1) es numbered (omega arith)) in
            let before : Absent o.id base.by_id = rw e (v.fresh_base n (omega arith)) in
            rw
              (
                grown,
                append_assoc w.by_id ((o.id, o) ∷ []) (entries es),
                without_all-append w.inserted_ids o.id (w.by_id ++ (o.id, o) ∷ entries es),
                v.undone (o ∷ es) (e, numbered),
                without-append o.id base.by_id ((o.id, o) ∷ entries es),
                without-Absent o.id base.by_id before,
                without_first o.id o (entries es) gone,
              )
              refl;
      }

  -- The index as it was, or, after two of the three statements of a round, with one observation that was
  -- not in it.
  abbrev pub IsIndexKept : ℕ → ObservationStore F → Dict (Observation F) → Type 0
  IsIndexKept steps s d =
      (d ≡ s.by_id)
      ⊎ ((rounds : ℕ) × (steps ≡ 3 * rounds + 2)
          × ((o : Observation F) × Absent o.id s.by_id × (d ≡ s.by_id ++ (o.id, o) ∷ [])))

  -- the store as it was, but for the index
  pub record IsRestored (steps : ℕ) (s t : ObservationStore F) : Type 0 where
    pub observations : t.observations ≡ s.observations
    pub next_number : t.next_number ≡ s.next_number
    pub closed : t.closed ≡ s.closed
    pub index : IsIndexKept steps s t.by_id

  undo-IsRestored :
      (steps : ℕ) (s : ObservationStore F) (n : ℕ) (w : Progress F)
      → IsUndoable s n w
      → IsRestored steps s (undo s w)
  unfolding undo
  undo-IsRestored steps s n w v = record {
    observations = rw v.shown (first_items-append s.observations v.added);
    next_number = refl;
    closed = refl;
    index = let all = v.undone [] tt in inl (rw (append-nil w.by_id, append-nil s.by_id) at all);
  }

  -- stopped in a round before the index was written
  undo_first :
      (steps : ℕ) (s : ObservationStore F) (n : ℕ) (w : Progress F) (o : Observation F)
      → IsUndoable s n w
      → IsRestored steps s (undo s (record w { observations = w.observations ++ o ∷ [] }))
  undo_first steps s n w o v =
      undo-IsRestored steps s n (record w { observations = w.observations ++ o ∷ [] })
        (record {
          added = v.added ++ o ∷ [];
          shown = ap (λ t. t ++ o ∷ []) v.shown ∙ append_assoc s.observations v.added (o ∷ []);
          fresh = v.fresh;
          fresh_base = v.fresh_base;
          undone = v.undone;
        })

  -- stopped in a round after the index was written
  undo_second :
      (s : ObservationStore F) (n : ℕ) (w : Progress F) (o : Observation F)
      → IsUndoable s n w
      → o.id ≡ observation_id n
      → IsRestored 2 s (
          undo s
            (record w { observations = w.observations ++ o ∷ []; by_id = insert o.id o w.by_id }))
  unfolding undo
  undo_second s n w o v e = record {
    observations =
        rw (v.shown, append_assoc s.observations v.added (o ∷ []))
          (first_items-append s.observations (v.added ++ o ∷ []));
    next_number = refl;
    closed = refl;
    index = inr (
      0,
      refl,
      (
        o,
        rw e (v.fresh_base n (omega arith)),
        rw (append_one-by_id s n w o v e) (v.undone (o ∷ []) (e, tt)),
      ),
    );
  }

  IsIndexKept-later :
      (steps : ℕ) (s : ObservationStore F) (d : Dict (Observation F))
      → IsIndexKept steps s d
      → IsIndexKept (suc (suc (suc steps))) s d
  IsIndexKept-later steps s d (inl same) = inl same
  IsIndexKept-later steps s d (inr (rounds, e, more)) = inr (suc rounds, omega (arith, e), more)

  -- a round later
  IsRestored-later :
      (steps : ℕ) (s t : ObservationStore F)
      → IsRestored steps s t
      → IsRestored (suc (suc (suc steps))) s t
  IsRestored-later steps s t h = record {
    observations = h.observations;
    next_number = h.next_number;
    closed = h.closed;
    index = IsIndexKept-later steps s t.by_id h.index;
  }

  pub append_loop-IsRestored :
      (steps n : ℕ) (os : List (Observation F)) (s : ObservationStore F) (w : Progress F)
      → IsNumbered n os
      → IsUndoable s n w
      → IsRestored steps s (undo s (append_loop steps os w).1)
  unfolding append_loop
  append_loop-IsRestored steps n [] s w numbered v = undo-IsRestored steps s n w v
  append_loop-IsRestored zero n (o ∷ os) s w numbered v = undo-IsRestored 0 s n w v
  append_loop-IsRestored (suc zero) n (o ∷ os) s w numbered v = undo_first 1 s n w o v
  append_loop-IsRestored (suc (suc zero)) n (o ∷ os) s w numbered v =
      undo_second s n w o v numbered.0
  append_loop-IsRestored (suc (suc (suc steps))) n (o ∷ os) s w numbered v =
      IsRestored-later steps s _ (
        append_loop-IsRestored steps (n + 1) os s (append_one o w) numbered.1
          (append_one-IsUndoable s n w o v numbered.0))
