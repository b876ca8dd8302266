-- ===== src/Base/Errors.antt =====
-- src/penampakan/errors.py: the public exceptions, a constructor for each class that the modelled code raises, with
-- Python's own `ValueError`, `TypeError`, `RuntimeError`, `KeyError` and `IndexError` beside them.
use Prim.Native.String.{String}

pub data Error : Type 0 where
  value_error type_error runtime_error key_error index_error : Error
  session_closed asset_not_found observation_not_found : Error
  step_limit_exceeded llm_call_limit_exceeded tool_limit_exceeded : Error
  backend_call_limit_exceeded asset_limit_exceeded derivation_depth_limit_exceeded : Error
  context_limit_exceeded operation_timeout evidence_validation : Error
  invalid_image image_limit_exceeded llm_not_configured : Error
  -- a class that is raised with a `code` of the raising code's own
  configuration_error tool_execution_error penampakan_error llm_error invalid_model_action :
      String → Error
