-- ===== src/Session/Blocked.antt =====
-- A repeated action in the loop of src/penampakan/session.py, and the number of its repetitions.
use penampakan.Base.{◌≡◌}
use penampakan.Base.Floats.{Floats}
use penampakan.Base.Result.{Result, ok, raised}
use penampakan.Assets.{Imaging}
use penampakan.Session.{Host, Session}
use penampakan.Session.Ask.{Ended, answers, goes_on, breaks}

-- the round ends with another round to come, or with an exception
abbrev pub GoesOn : {F : Floats} {T : Type 0} → Result (Ended F T) → Type 0
GoesOn (raised e) = Unit
GoesOn (ok (goes_on t)) = Unit
GoesOn (ok (answers a)) = ⊥
GoesOn (ok (breaks t)) = ⊥

module _ {P : Imaging} {F : Floats} {H : Host P F} where
  -- Two sessions that differ in their observations alone.
  pub record SameButObserved (s t : Session H) : Type 0 where
    pub budget : t.budget ≡ s.budget
    pub assets : t.assets ≡ s.assets
    pub world : t.world ≡ s.world
    pub answered : t.previous_answer_observation_ids ≡ s.previous_answer_observation_ids
