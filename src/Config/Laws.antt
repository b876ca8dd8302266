-- ===== src/Config/Laws.antt =====
-- What validated settings of src/penampakan/config.py satisfy.
use penampakan.Base.{◌↔◌, ◌⊎◌, ◌≤◌, ◌<◌, String, ◌≡◌, refl, true, false, List, [], ◌∷◌, arith, All}
use penampakan.Base.Floats.{Floats}
use penampakan.Base.Errors.{value_error}
use penampakan.Base.Result.{ok, raised}
use penampakan.Base.Texts.{IsDistinct, NoneSeen, NoneSeen-cons, NoneSeen-uncons, NoneSeen-nil}
use penampakan.Config.{
  RunLimits, is_positive_finite, run_limits, is_backend_name, validate_names,
  validate_backend_preferences,
}

-- Every counter is positive and every timeout positive and finite; a run has one LLM call more than it
-- has steps, no more parallel than total tool calls, and no component's timeout is above its own.
pub record IsConsistent (F : Floats) (l : RunLimits F) : Type 0 where
  pub steps_positive : 0 < l.max_steps
  pub tools_positive : 0 < l.max_tool_calls
  pub backend_positive : 0 < l.max_backend_calls
  pub assets_positive : 0 < l.max_derived_assets
  pub depth_positive : 0 < l.max_derivation_depth
  pub parallel_positive : 0 < l.max_parallel_tools
  pub context_positive : 0 < l.max_context_chars
  pub ocr_positive : 0 < l.max_ocr_chars_per_observation
  pub llm_above_steps : l.max_steps < l.max_llm_calls
  pub parallel_within_tools : l.max_parallel_tools ≤ l.max_tool_calls
  pub run_timeout : is_positive_finite F l.default_timeout_s ≡ true
  pub backend_timeout : is_positive_finite F l.backend_timeout_s ≡ true
  pub llm_timeout : is_positive_finite F l.llm_timeout_s ≡ true
  pub backend_within_run : F.lt l.default_timeout_s l.backend_timeout_s ≡ false
  pub llm_within_run : F.lt l.default_timeout_s l.llm_timeout_s ≡ false

run_limits_accepts : (F : Floats) (l : RunLimits F) → IsConsistent F l → run_limits F l ≡ ok l
unfolding run_limits
run_limits_accepts F l c = ground (
  arith, c.steps_positive, c.tools_positive, c.backend_positive, c.assets_positive,
  c.depth_positive, c.parallel_positive, c.context_positive, c.ocr_positive, c.llm_above_steps,
  c.parallel_within_tools, c.run_timeout, c.backend_timeout, c.llm_timeout, c.backend_within_run,
  c.llm_within_run,
)

run_limits_outcome :
    (F : Floats) (l : RunLimits F) → (run_limits F l ≡ ok l) ⊎ (run_limits F l ≡ raised value_error)
unfolding run_limits
run_limits_outcome F l = ground arith

pub run_limits-IsConsistent :
    (F : Floats) (l m : RunLimits F) → run_limits F l ≡ ok m → (m ≡ l) × IsConsistent F l
unfolding run_limits
run_limits-IsConsistent F l m h = (ground arith, ground arith)

-- The construction of run limits succeeds exactly when they are consistent: every counter positive,
-- every timeout positive and finite, at least one LLM call more than steps, no more parallel than total
-- tool calls, and no component timeout above the run's. It returns the given limits, and raises
-- `ValueError` where it does not succeed.
pub run_limits_iff :
    (F : Floats) (l : RunLimits F)
    → ((run_limits F l ≡ ok l) ↔ IsConsistent F l)
      × ((run_limits F l ≡ ok l) ⊎ (run_limits F l ≡ raised value_error))
unfolding run_limits
run_limits_iff F l = ((λ h. ground arith, λ c. run_limits_accepts F l c), run_limits_outcome F l)

abbrev pub IsName : String → Type 0
IsName name = is_backend_name name ≡ true

validate_names_sound :
    (seen names : List String)
    → validate_names seen names ≡ ok tt
    → All IsName names × IsDistinct names × NoneSeen seen names
unfolding validate_names
validate_names_sound seen [] h = (tt, tt, tt)
validate_names_sound seen (n ∷ names) h =
    let (good, distinct, fresh) = validate_names_sound (n ∷ seen) names (ground arith) in
    let (new, old) = NoneSeen-cons n seen names fresh in
    ((ground arith, good), (new, distinct), (ground arith, old))

validate_names_complete :
    (seen names : List String)
    → All IsName names
    → IsDistinct names
    → NoneSeen seen names
    → validate_names seen names ≡ ok tt
unfolding validate_names
validate_names_complete seen [] g d f = refl
validate_names_complete seen (n ∷ names) g d f = ground (
  arith,
  validate_names_complete (n ∷ seen) names g.1 d.1 (NoneSeen-uncons n seen names d.0 f.1),
  g.0,
  f.0,
)

-- Backend preferences are accepted exactly when, for each capability, every name is a backend name
-- and no name stands twice.
pub validate_backend_preferences_iff :
    (value : List (List String))
    → (validate_backend_preferences value ≡ ok tt)
      ↔ All (λ names. All IsName names × IsDistinct names) value
unfolding validate_backend_preferences
validate_backend_preferences_iff [] = (λ _. tt, λ _. refl)
validate_backend_preferences_iff (names ∷ value) =
    let (there, back) = validate_backend_preferences_iff value in
    (
      λ h.
          let (good, distinct, _) = validate_names_sound [] names (ground arith) in
          ((good, distinct), there (ground arith)),
      λ h.
          ground
            (arith, validate_names_complete [] names h.0.0 h.0.1 (NoneSeen-nil names), back h.1),
    )
