-- ===== src/Store/Attempt.antt =====
-- `_append` of src/penampakan/perception/store.py under an exception of the interpreter's own.
use penampakan.Base.{
  ℕ, zero, suc, ◌+◌, ◌*◌, ◌<◌, ◌≤◌, ◌≡◌, ◌∙◌, sym, ap, refl, false, Option, none, some, List, [],
  ◌∷◌, ◌++◌, length, arith, Option-cases, inl, inr, ◌⊎◌,
}
use mathlib.Core.List.{append-nil, append_assoc}
use penampakan.Base.Floats.{Floats}
use penampakan.Base.Errors.{Error}
use penampakan.Base.Result.{ok, raised}
use penampakan.Base.Dict.{Absent}
use penampakan.Models.{Observation}
use penampakan.Models.Ids.{observation_id, observation_id-injective}
use penampakan.Store.{ObservationStore, index_all, append}
use penampakan.Store.Append.{IsNumbered, find_id, find_id-number}
use penampakan.Store.Valid.{IsValid}
use penampakan.Store.Interrupt.{
  Progress, without_all, append_one, append_loop, undo, finish_append, attempt_append,
}
use penampakan.Store.Undo.{IsUndoable, IsRestored, append_loop-IsRestored}

module _ {F : Floats} where
  -- a loop that is not stopped appends the whole batch, and one that may take all its statements is not
  append_loop_finished :
      (steps left : ℕ) (os : List (Observation F)) (w : Progress F)
      → (append_loop steps os w).0 ≡ some left
      → ((append_loop steps os w).1.observations ≡ w.observations ++ os)
        × ((append_loop steps os w).1.by_id ≡ index_all w.by_id os)
  unfolding append_loop index_all
  append_loop_finished steps left [] w h = (sym (append-nil w.observations), refl)
  append_loop_finished zero left (o ∷ os) w h = cc h
  append_loop_finished (suc zero) left (o ∷ os) w h = cc h
  append_loop_finished (suc (suc zero)) left (o ∷ os) w h = cc h
  append_loop_finished (suc (suc (suc steps))) left (o ∷ os) w h =
      let (shown, indexed) = append_loop_finished steps left os (append_one o w) h in
      (shown ∙ append_assoc w.observations (o ∷ []) os, indexed)

  append_loop_enough :
      (steps : ℕ) (os : List (Observation F)) (w : Progress F)
      → 3 * length os < steps
      → (left : ℕ) × ((append_loop steps os w).0 ≡ some (suc left))
  unfolding append_loop
  append_loop_enough zero [] w h = absurd (omega arith)
  append_loop_enough (suc steps) [] w h = (steps, refl)
  append_loop_enough zero (o ∷ os) w h = absurd (omega arith)
  append_loop_enough (suc zero) (o ∷ os) w h = absurd (omega arith)
  append_loop_enough (suc (suc zero)) (o ∷ os) w h = absurd (omega arith)
  append_loop_enough (suc (suc (suc steps))) (o ∷ os) w h =
      append_loop_enough steps os (append_one o w) (omega arith)

  -- an identifier from the next number on is not in a valid store
  fresh_id :
      (s : ObservationStore F) (m : ℕ)
      → IsValid s
      → s.closed ≡ false
      → s.next_number ≤ m
      → Absent (observation_id m) s.by_id
  fresh_id s m v open_now le = elim (Option-cases (find_id (observation_id m) s.observations)) [
    | inl absent ↦ v.indexed (observation_id m) ∙ absent
    | inr (o, found) ↦
        let (k, same, lt) = find_id-number (observation_id m) 1 s.observations o v.numbered found in
        absurd (omega (arith, observation_id-injective m k same, v.next open_now))
  ]

  abbrev start : ObservationStore F → Progress F
  start s = record { observations = s.observations; by_id = s.by_id; inserted_ids = [] }

  start-IsUndoable :
      (s : ObservationStore F) → IsValid s → s.closed ≡ false → IsUndoable s s.next_number (start s)
  unfolding without_all
  start-IsUndoable s v open_now = record {
    added = [];
    shown = sym (append-nil s.observations);
    fresh = λ m le. fresh_id s m v open_now le;
    fresh_base = λ m le. fresh_id s m v open_now le;
    undone = λ es numbered. refl;
  }

  append_nothing : (s : ObservationStore F) → append [] s ≡ s
  unfolding append index_all
  append_nothing s =
      let same : s.next_number + 0 ≡ s.next_number = omega arith in
      simp (append-nil s.observations, same) refl

  finish_raised :
      (failure : Error) (os : List (Observation F)) (s : ObservationStore F) (left : Option ℕ)
      (w : Progress F)
      → (left ≡ none) ⊎ (left ≡ some 0)
      → finish_append failure os s (left, w) ≡ (raised failure, undo s w)
  unfolding finish_append
  finish_raised failure os s left w (inl e) = rw (e, finish_append) refl
  finish_raised failure os s left w (inr e) = rw (e, finish_append) refl

  finish_through :
      (failure : Error) (os : List (Observation F)) (s : ObservationStore F) (left : Option ℕ)
      (n : ℕ) (w : Progress F)
      → left ≡ some (suc n)
      → w.observations ≡ s.observations ++ os
      → w.by_id ≡ index_all s.by_id os
      → finish_append failure os s (left, w) ≡ (ok tt, append os s)
  unfolding finish_append append
  finish_through failure os s left n w e shown indexed =
      rw (e, finish_append) (rw (shown, indexed) refl)

  -- an append appends the whole batch, or raises and restores the store
  pub attempt_append_outcome :
      (steps : ℕ) (failure : Error) (os : List (Observation F)) (s : ObservationStore F)
      → IsValid s
      → s.closed ≡ false
      → IsNumbered s.next_number os
      → (attempt_append steps failure os s ≡ (ok tt, append os s))
        ⊎ (((attempt_append steps failure os s).0 ≡ raised failure)
            × IsRestored steps s (attempt_append steps failure os s).1)
  unfolding attempt_append
  attempt_append_outcome steps failure [] s v open_now numbered =
      inl (ap (λ t. (ok tt, t)) (sym (append_nothing s)))
  attempt_append_outcome steps failure (o ∷ os) s v open_now numbered =
      let restored =
        append_loop-IsRestored steps s.next_number (o ∷ os) s (start s) numbered
          (start-IsUndoable s v open_now) in
      elim (Option-cases (append_loop steps (o ∷ os) (start s)).0) [
        | inl stopped ↦ inr (raises (inl stopped) restored)
        | inr (zero, last) ↦ inr (raises (inr last) restored)
        | inr (suc left, through) ↦
            let (shown, indexed) =
              append_loop_finished steps (suc left) (o ∷ os) (start s) through in
            inl (
              finish_through failure (o ∷ os) s _ left (append_loop steps (o ∷ os) (start s)).1
                through shown indexed)
      ]
    where
      raises :
          ((append_loop steps (o ∷ os) (start s)).0 ≡ none)
            ⊎ ((append_loop steps (o ∷ os) (start s)).0 ≡ some 0)
          → IsRestored steps s (undo s (append_loop steps (o ∷ os) (start s)).1)
          → ((finish_append failure (o ∷ os) s (append_loop steps (o ∷ os) (start s))).0
              ≡ raised failure)
            × IsRestored steps s
                (finish_append failure (o ∷ os) s (append_loop steps (o ∷ os) (start s))).1
      raises h restored =
          let e =
            finish_raised failure (o ∷ os) s (append_loop steps (o ∷ os) (start s)).0
              (append_loop steps (o ∷ os) (start s)).1 h in
          rw e (refl, restored)

  pub attempt_append_enough :
      (steps : ℕ) (failure : Error) (os : List (Observation F)) (s : ObservationStore F)
      → 3 * length os < steps
      → attempt_append steps failure os s ≡ (ok tt, append os s)
  unfolding attempt_append
  attempt_append_enough steps failure [] s h = ap (λ t. (ok tt, t)) (sym (append_nothing s))
  attempt_append_enough steps failure (o ∷ os) s h =
      let (left, through) = append_loop_enough steps (o ∷ os) (start s) h in
      let (shown, indexed) = append_loop_finished steps (suc left) (o ∷ os) (start s) through in
      finish_through failure (o ∷ os) s _ left (append_loop steps (o ∷ os) (start s)).1 through
        shown indexed
