-- ===== src/Config/Tests.antt =====
-- Concrete settings, and the theorems on settings at them.
use penampakan.Base.{◌↔◌, ◌⊎◌, ◌≡◌, refl, [], ◌∷◌, All}
use penampakan.Base.Ticks.{ticks}
use penampakan.Base.Result.{ok, raised}
use penampakan.Base.Errors.{value_error}
use penampakan.Base.Texts.{IsDistinct}
use penampakan.Config.{RunLimits, run_limits, validate_backend_preferences, is_backend_name}
use penampakan.Config.Laws.{IsConsistent, IsName, run_limits_iff, validate_backend_preferences_iff}

-- the defaults, in ticks of a second
abbrev pub defaults : RunLimits ticks
defaults = record {
  max_steps = 8;
  max_llm_calls = 10;
  max_tool_calls = 12;
  max_backend_calls = 16;
  max_derived_assets = 16;
  max_derivation_depth = 3;
  max_parallel_tools = 4;
  max_context_chars = 24_000;
  max_ocr_chars_per_observation = 8_000;
  default_timeout_s = 120;
  backend_timeout_s = 60;
  llm_timeout_s = 60;
}

pub defaults_accepted : run_limits ticks defaults ≡ ok defaults
unfolding run_limits
defaults_accepted = refl

too_few_calls : run_limits ticks (record defaults { max_llm_calls = 8 }) ≡ raised value_error
unfolding run_limits
too_few_calls = refl

preferences : validate_backend_preferences (("pillow" ∷ "tesseract-5.x" ∷ []) ∷ []) ≡ ok tt
unfolding validate_backend_preferences is_backend_name
preferences = refl

duplicate : validate_backend_preferences (("pillow" ∷ "pillow" ∷ []) ∷ []) ≡ raised value_error
unfolding validate_backend_preferences is_backend_name
duplicate = refl

bad_name : validate_backend_preferences (("Pillow" ∷ []) ∷ []) ≡ raised value_error
unfolding validate_backend_preferences is_backend_name
bad_name = refl

run_limits_iff_example :
    ((run_limits ticks defaults ≡ ok defaults) ↔ IsConsistent ticks defaults)
    × ((run_limits ticks defaults ≡ ok defaults) ⊎ (run_limits ticks defaults ≡ raised value_error))
run_limits_iff_example = run_limits_iff ticks defaults

validate_backend_preferences_iff_example :
    (validate_backend_preferences (("pillow" ∷ []) ∷ []) ≡ ok tt)
    ↔ All (λ names. All IsName names × IsDistinct names) (("pillow" ∷ []) ∷ [])
validate_backend_preferences_iff_example = validate_backend_preferences_iff (("pillow" ∷ []) ∷ [])
