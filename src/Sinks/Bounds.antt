-- ===== src/Sinks/Bounds.antt =====
-- The limits of src/penampakan/trace_sinks/memory.py.
use penampakan.Base.{
  ℕ, ◌≤◌, ◌≡◌, ap, String, true, false, Option, none, some, [], ◌∷◌, ◌++◌, length, length-append,
  All, arith, ltb, ltb→lt, str_eq, Bool-cases, inl, inr, eq_iff,
}
use penampakan.Base.Floats.{Floats}
use penampakan.Base.Dict.{Dict, Absent, IsUnique, lookup, without}
use penampakan.Sinks.{TraceEvent, ActiveRun, CompletedRun, MemorySink, is_terminal}
use penampakan.Sinks.Emit.{append_bounded}
use penampakan.Sinks.Counts.{replace_last-length}

-- no more events than the limit
abbrev pub Fits : Option ℕ → ℕ → Type 0
Fits none n = Unit
Fits (some limit) n = n ≤ limit

pub not_below : (a b : ℕ) → ltb a b ≡ false → b ≤ a
not_below a b h = ground arith

module _ {F : Floats} where
  abbrev pub ActiveFits : Option ℕ → String × ActiveRun F → Type 0
  ActiveFits limit (id, run) = Fits limit (length run.events)

  abbrev pub CompletedFits : Option ℕ → String × CompletedRun F → Type 0
  CompletedFits limit (id, run) = Fits limit (length run.events)

  -- active runs, each once, none with too many events
  abbrev pub IsTidy : Option ℕ → Dict (ActiveRun F) → Type 0
  IsTidy limit d = IsUnique d × All (ActiveFits limit) d

  -- Runs stand once; there are at most as many active and completed runs, and as many events in each,
  -- as the limits allow; a closed sink has no active run.
  pub record IsBounded (s : MemorySink F) : Type 0 where
    pub active : IsUnique s.active × All (ActiveFits s.max_events_per_run) s.active
    pub completed : IsUnique s.completed × All (CompletedFits s.max_events_per_run) s.completed
    pub few_active : length s.active ≤ s.max_active_runs
    pub few_completed : length s.completed ≤ s.max_runs
    pub released : s.closed ≡ true → s.active ≡ []

  pub All-without :
      (limit : Option ℕ) (id : String) (d : Dict (ActiveRun F))
      → All (ActiveFits limit) d
      → All (ActiveFits limit) (without id d)
  unfolding without
  All-without limit id [] h = tt
  All-without limit id ((k, r) ∷ d) h = elim (Bool-cases (str_eq k id)) [
    | inl e ↦ rw e (All-without limit id d h.1)
    | inr e ↦ rw e (h.0, All-without limit id d h.1)
  ]

  pub length-without : (id : String) (d : Dict (ActiveRun F)) → length (without id d) ≤ length d
  unfolding without
  length-without id [] = omega arith
  length-without id ((k, r) ∷ d) = elim (Bool-cases (str_eq k id)) [
    | inl e ↦ rw e (omega (arith, length-without id d))
    | inr e ↦ rw e (omega (arith, length-without id d))
  ]

  pub without-append_self :
      (id : String) (run : ActiveRun F) (d : Dict (ActiveRun F))
      → Absent id d
      → without id (d ++ (id, run) ∷ []) ≡ d
  unfolding without lookup
  without-append_self id run [] h = ground (arith, eq_iff id id)
  without-append_self id run ((k, r) ∷ d) h = elim (Bool-cases (str_eq k id)) [
    | inl e ↦ absurd (ground arith)
    | inr e ↦ rw e (ap (λ t. (k, r) ∷ t) (without-append_self id run d (ground arith)))
  ]

  pub append_bounded-Fits :
      (limit : Option ℕ) (run : ActiveRun F) (e : TraceEvent F)
      → Fits limit (length run.events)
      → Fits limit (length (append_bounded limit run e).0.events)
  unfolding append_bounded
  append_bounded-Fits none run e h = tt
  append_bounded-Fits (some limit) run e h = elim (Bool-cases (ltb (length run.events) limit)) [
    | inl room ↦
        rw room
          (omega (arith, ltb→lt (length run.events) limit room, length-append run.events (e ∷ [])))
    | inr full ↦ elim (Bool-cases (is_terminal e)) [
      | inl last ↦ rw (full, last) (omega (arith, replace_last-length e run.events, h))
      | inr other ↦ rw (full, other) h
    ]
  ]
