-- ===== src/Sinks/Trimmed.antt =====
-- The loops of src/penampakan/trace_sinks/memory.py over active runs keep the limits.
use penampakan.Base.{
  ℕ, suc, ◌+◌, ◌≤◌, ◌≡◌, refl, String, Option, [], ◌∷◌, length, All, arith, ltb, Bool-cases, inl,
  inr,
}
use penampakan.Base.Floats.{Floats}
use penampakan.Base.Dict.{Dict, Absent, IsUnique, lookup}
use penampakan.Sinks.{ActiveRun, MemorySink, expire_loop}
use penampakan.Sinks.Emit.{bound_loop}
use penampakan.Sinks.Bounds.{ActiveFits, not_below}

module _ {F : Floats} where
  -- the state of a loop over active runs: the limits and the completed runs as they were, and runs of
  -- the loop's own that are tidy
  pub record IsTrimmed (d : Dict (ActiveRun F)) (s t : MemorySink F) : Type 0 where
    pub max_runs : t.max_runs ≡ s.max_runs
    pub max_events : t.max_events_per_run ≡ s.max_events_per_run
    pub max_active : t.max_active_runs ≡ s.max_active_runs
    pub closed : t.closed ≡ s.closed
    pub completed : t.completed ≡ s.completed
    pub fewer : length t.active ≤ length d
    pub absent : (id : String) → Absent id d → Absent id t.active
    pub unique : IsUnique d → IsUnique t.active
    pub fits : (limit : Option ℕ) → All (ActiveFits limit) d → All (ActiveFits limit) t.active

  pub expire_loop-IsTrimmed :
      (now : F.Float) (d : Dict (ActiveRun F)) (s : MemorySink F)
      → IsTrimmed d s (expire_loop now d s)
  unfolding expire_loop lookup
  expire_loop-IsTrimmed now [] s = record {
    max_runs = refl;
    max_events = refl;
    max_active = refl;
    closed = refl;
    completed = refl;
    fewer = omega arith;
    absent = λ id h. refl;
    unique = λ h. tt;
    fits = λ limit h. tt;
  }
  expire_loop-IsTrimmed now ((k, r) ∷ d) s =
      let w = expire_loop-IsTrimmed now d s in
      elim (Bool-cases (F.le s.active_ttl_s (F.sub now r.last_seen))) [
        | inl e ↦ rw e (record {
          max_runs = w.max_runs;
          max_events = w.max_events;
          max_active = w.max_active;
          closed = w.closed;
          completed = w.completed;
          fewer = omega (arith, w.fewer);
          absent = λ id h. w.absent id (ground arith);
          unique = λ h. w.unique h.1;
          fits = λ limit h. w.fits limit h.1;
        })
        | inr e ↦ rw e (record {
          max_runs = w.max_runs;
          max_events = w.max_events;
          max_active = w.max_active;
          closed = w.closed;
          completed = w.completed;
          fewer = omega (arith, w.fewer);
          absent = λ id h. ground (arith, w.absent id);
          unique = λ h. (w.absent k h.0, w.unique h.1);
          fits = λ limit h. (h.0, w.fits limit h.1);
        })
      ]

  pub bound_loop-IsTrimmed :
      (d : Dict (ActiveRun F)) (s : MemorySink F)
      → IsTrimmed d s (bound_loop d s) × (length (bound_loop d s).active ≤ s.max_active_runs)
  unfolding bound_loop lookup
  bound_loop-IsTrimmed [] s = (
    record {
      max_runs = refl;
      max_events = refl;
      max_active = refl;
      closed = refl;
      completed = refl;
      fewer = omega arith;
      absent = λ id h. refl;
      unique = λ h. tt;
      fits = λ limit h. tt;
    },
    omega arith,
  )
  bound_loop-IsTrimmed ((k, r) ∷ d) s = elim (Bool-cases (ltb s.max_active_runs (suc (length d)))) [
    | inl e ↦
        let (w, few) = bound_loop-IsTrimmed d (record s {
          losses = record s.losses {
            overflowed_active_runs = s.overflowed_active_runs + 1;
            dropped_events = s.dropped_events + length r.events;
          };
        }) in
        rw e (
          record {
            max_runs = w.max_runs;
            max_events = w.max_events;
            max_active = w.max_active;
            closed = w.closed;
            completed = w.completed;
            fewer = omega (arith, w.fewer);
            absent = λ id h. w.absent id (ground arith);
            unique = λ h. w.unique h.1;
            fits = λ limit h. w.fits limit h.1;
          },
          few,
        )
    | inr e ↦ rw e (
      record {
        max_runs = refl;
        max_events = refl;
        max_active = refl;
        closed = refl;
        completed = refl;
        fewer = omega arith;
        absent = λ id h. h;
        unique = λ h. h;
        fits = λ limit h. h;
      },
      not_below s.max_active_runs (suc (length d)) e,
    )
  ]
