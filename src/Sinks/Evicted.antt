-- ===== src/Sinks/Evicted.antt =====
-- `_complete` and `_expire_active` of src/penampakan/trace_sinks/memory.py keep the limits.
use penampakan.Base.{
  ℕ, suc, ◌+◌, ◌≤◌, ◌≡◌, refl, ◌∙◌, String, false, Option, [], ◌∷◌, length, All, All-append, arith,
  ltb, if◌then◌else◌, Bool-cases, inl, inr,
}
use penampakan.Base.Floats.{Floats}
use penampakan.Base.Dict.{
  Dict, Absent, IsUnique, IsUnique-append_one, without, insert, insert-Absent,
}
use penampakan.Sinks.{ActiveRun, CompletedRun, MemorySink, expire_active}
use penampakan.Sinks.Emit.{evict_oldest, complete}
use penampakan.Sinks.Bounds.{Fits, CompletedFits, IsTidy, IsBounded, not_below}
use penampakan.Sinks.Trimmed.{expire_loop-IsTrimmed}

module _ {F : Floats} where
  -- the completed runs after the loop of `_complete`, all else as it was
  pub record IsEvicted (d : Dict (CompletedRun F)) (s t : MemorySink F) : Type 0 where
    pub max_runs : t.max_runs ≡ s.max_runs
    pub max_events : t.max_events_per_run ≡ s.max_events_per_run
    pub max_active : t.max_active_runs ≡ s.max_active_runs
    pub closed : t.closed ≡ s.closed
    pub active : t.active ≡ s.active
    pub few : length t.completed ≤ s.max_runs
    pub unique : IsUnique d → IsUnique t.completed
    pub fits :
        (limit : Option ℕ) → All (CompletedFits limit) d → All (CompletedFits limit) t.completed

  pub evict_oldest-IsEvicted :
      (d : Dict (CompletedRun F)) (s : MemorySink F) → IsEvicted d s (evict_oldest d s)
  unfolding evict_oldest
  evict_oldest-IsEvicted [] s = record {
    max_runs = refl;
    max_events = refl;
    max_active = refl;
    closed = refl;
    active = refl;
    few = omega arith;
    unique = λ h. tt;
    fits = λ limit h. tt;
  }
  evict_oldest-IsEvicted ((k, r) ∷ d) s = elim (Bool-cases (ltb s.max_runs (suc (length d)))) [
    | inl e ↦
        let w = evict_oldest-IsEvicted d (record s {
          losses = record s.losses {
            evicted_runs = s.evicted_runs + 1;
            evicted_events = s.evicted_events + length r.events;
          };
        }) in
        rw e (record {
          max_runs = w.max_runs;
          max_events = w.max_events;
          max_active = w.max_active;
          closed = w.closed;
          active = w.active;
          few = w.few;
          unique = λ h. w.unique h.1;
          fits = λ limit h. w.fits limit h.1;
        })
    | inr e ↦ rw e (record {
      max_runs = refl;
      max_events = refl;
      max_active = refl;
      closed = refl;
      active = refl;
      few = not_below s.max_runs (suc (length d)) e;
      unique = λ h. h;
      fits = λ limit h. h;
    })
  ]

  pub expire_active-IsBounded :
      (now : F.Float) (s : MemorySink F)
      → IsBounded s
      → s.closed ≡ false
      → IsBounded (expire_active now s) × ((expire_active now s).closed ≡ false)
  unfolding expire_active
  expire_active-IsBounded now s h open_now =
      let w = expire_loop-IsTrimmed now s.active s in
      (
        record {
          active = (w.unique h.active.0, rw w.max_events (w.fits s.max_events_per_run h.active.1));
          completed = rw (w.completed, w.max_events) h.completed;
          few_active = omega (arith, w.fewer, w.max_active, h.few_active);
          few_completed = rw (w.completed, w.max_runs) h.few_completed;
          released = λ c. absurd (ground (arith, w.closed, open_now));
        },
        w.closed ∙ open_now,
      )

  pub complete-IsBounded :
      (id : String) (run : ActiveRun F) (s : MemorySink F)
      → IsTidy s.max_events_per_run (without id s.active)
      → length (without id s.active) ≤ s.max_active_runs
      → IsUnique s.completed × All (CompletedFits s.max_events_per_run) s.completed
      → Absent id s.completed
      → Fits s.max_events_per_run (length run.events)
      → s.closed ≡ false
      → IsBounded (complete id run s)
  unfolding complete
  complete-IsBounded id run s tidy few kept fresh fits open_now =
      let done : CompletedRun F = record { events = run.events; truncated = run.truncated } in
      let counted = if run.truncated then s.truncated_runs + 1 else s.truncated_runs in
      let start : MemorySink F = record s {
        active = without id s.active;
        losses = record s.losses { truncated_runs = counted };
      } in
      let w = evict_oldest-IsEvicted (insert id done s.completed) start in
      let grown = insert-Absent id done s.completed fresh in
      record {
        active = rw (w.active, w.max_events) tidy;
        completed = (
          w.unique (rw grown (IsUnique-append_one id done s.completed kept.0 fresh)),
          rw w.max_events (
              w.fits s.max_events_per_run (
                rw grown (
                  All-append (CompletedFits s.max_events_per_run) s.completed ((id, done) ∷ [])
                    kept.1 (fits, tt)))),
        );
        few_active = rw (w.active, w.max_active) few;
        few_completed = rw w.max_runs w.few;
        released = λ c. absurd (ground (arith, w.closed, open_now));
      }
