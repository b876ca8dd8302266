-- ===== src/Store/Interrupt.antt =====
-- `_append` of src/penampakan/perception/store.py with its handler: an exception of the interpreter's own may stop
-- it after any number of its statements.
use penampakan.Base.{ℕ, zero, suc, ◌+◌, String, Option, none, some, List, [], ◌∷◌, ◌++◌, length}
use penampakan.Base.Floats.{Floats}
use penampakan.Base.Errors.{Error}
use penampakan.Base.Result.{Result, ok, raised}
use penampakan.Base.Exec.{Exec, pure, ◌>>=◌, ◌>>◌}
use penampakan.Base.Dict.{Dict, insert, without}
use penampakan.Models.{Observation, ObservationDraft, Provenance}
use penampakan.Store.{ObservationStore, ObservationRelations, AssetOwner, prepare, require_open}

-- what the statements of the loop write
pub record Progress (F : Floats) : Type 0 where
  pub observations : List (Observation F)
  pub by_id : Dict (Observation F)
  pub inserted_ids : List String

-- `del xs[n:]`, the items that are left
unfoldable pub first_items : {A : Type 0} → ℕ → List A → List A
first_items zero xs = []
first_items (suc n) [] = []
first_items (suc n) (x ∷ xs) = x ∷ first_items n xs

-- the `pop` of each identifier
unfoldable pub without_all : {V : Type 0} → List String → Dict V → Dict V
unfolding without
without_all [] d = d
without_all (id ∷ ids) d = without_all ids (without id d)

module _ {F : Floats} where
  -- one round: three statements
  abbrev pub append_one : Observation F → Progress F → Progress F
  append_one o w = record {
    observations = w.observations ++ o ∷ [];
    by_id = insert o.id o w.by_id;
    inserted_ids = w.inserted_ids ++ o.id ∷ [];
  }

  -- The loop, of which `steps` statements can complete: how many more can, or `none` where it stopped.
  unfoldable pub append_loop : ℕ → List (Observation F) → Progress F → Option ℕ × Progress F
  unfolding insert
  append_loop steps [] w = (some steps, w)
  append_loop zero (o ∷ os) w = (none, w)
  append_loop (suc zero) (o ∷ os) w = (none, record w { observations = w.observations ++ o ∷ [] })
  append_loop (suc (suc zero)) (o ∷ os) w =
      (none, record w { observations = w.observations ++ o ∷ []; by_id = insert o.id o w.by_id })
  append_loop (suc (suc (suc steps))) (o ∷ os) w = append_loop steps os (append_one o w)

  -- the handler
  unfoldable pub undo : ObservationStore F → Progress F → ObservationStore F
  unfolding first_items without_all
  undo s w = record s {
    observations = first_items (length s.observations) w.observations;
    by_id = without_all w.inserted_ids w.by_id;
  }

  -- the last statement, or the handler and the exception again
  unfoldable pub finish_append :
      Error
      → List (Observation F)
      → ObservationStore F
      → Option ℕ × Progress F
      → Result (Unit {0}) × ObservationStore F
  unfolding undo
  finish_append failure os s (none, w) = (raised failure, undo s w)
  finish_append failure os s (some zero, w) = (raised failure, undo s w)
  finish_append failure os s (some (suc steps), w) = (
    ok tt,
    record s {
      observations = w.observations;
      by_id = w.by_id;
      next_number = s.next_number + length os;
    },
  )

  -- `_append`
  unfoldable pub attempt_append :
      ℕ → Error → List (Observation F) → Exec (ObservationStore F) (Unit {0})
  unfolding append_loop finish_append
  attempt_append steps failure [] s = (ok tt, s)
  attempt_append steps failure (o ∷ os) s = finish_append failure (o ∷ os) s (
      append_loop steps (o ∷ os)
        (record { observations = s.observations; by_id = s.by_id; inserted_ids = [] }))

  -- `_commit`, with that exception
  unfoldable pub attempt_commit :
      ℕ
      → Error
      → AssetOwner
      → String
      → List (ObservationDraft F)
      → Provenance
      → List ObservationRelations
      → Exec (ObservationStore F) (List (Observation F))
  unfolding attempt_append prepare
  attempt_commit steps failure owns asset_id drafts provenance relations = do
    require_open
    prospective ← (λ s. (prepare owns asset_id drafts provenance relations s, s))
    attempt_append steps failure prospective
    pure prospective
