-- ===== src/Registry/Tests.antt =====
-- A registry with one tool, whose schema is closed, and a refused one.
use penampakan.Base.{ℕ, ◌≡◌, refl, Bool, String, true, false, not, ◌+◌, some, List, [], ◌∷◌}
use penampakan.Base.Ticks.{ticks}
use penampakan.Base.Errors.{tool_execution_error}
use penampakan.Base.Result.{ok, raised}
use penampakan.Base.Dict.{lookup, insert}
use penampakan.Models.{is_json_mapping, json_bool, json_str, json_dict, JsonDict, dict_end, entry}
use penampakan.Answer.{json_get}
use penampakan.Registry.{
  Tooling, finished, Given, given, unfit, ToolRegistration, is_tool_name, is_open_object,
  require_closed, register, registration, validate_arguments, execute,
}
use penampakan.Registry.Runs.{Request, IsSound, register_all, register_run-IsSound}

program : Unit {0}
unfolding is_json_mapping lookup insert json_get is_tool_name is_open_object require_closed register
    registration validate_arguments execute register_all
program = tt

-- a schema of an object, closed or not
abbrev schema : Bool → JsonDict ticks
schema shut = entry "type" (json_str "object") (
    entry "properties" (json_dict dict_end)
      (entry "additionalProperties" (json_bool (not shut)) dict_end))

-- models are their schemas, and executors count their calls
abbrev bench : Tooling ticks
bench = record {
  ArgumentsModel = JsonDict ticks;
  Arguments = JsonDict ticks;
  Executor = String;
  ToolResult = String;
  World = ℕ;
  clean_text = λ (t : String). some t;
  model_json_schema = λ (m : JsonDict ticks). m;
  model_validate = λ (m : JsonDict ticks) (d : JsonDict ticks). some d;
  call = λ (e : String) (d : JsonDict ticks) (w : ℕ). (finished e, w + 1);
}

abbrev request : Given String → JsonDict ticks → Request bench
request name model = record {
  name = name;
  description = "Crops an image.";
  arguments_model = given model;
  executor = given "crop";
  creates_assets = true;
  cost_hint = 3;
}

abbrev requests : List (Request bench)
requests =
    request (given "crop") (schema true)
    ∷ request (given "open") (schema false)
    ∷ request (given "Crop") (schema true)
    ∷ request unfit (schema true)
    ∷ []

abbrev crop : ToolRegistration bench
crop = record {
  spec = record {
    name = "crop";
    description = "Crops an image.";
    arguments_json_schema = schema true;
    creates_assets = true;
    cost_hint = 3;
  };
  arguments_model = schema true;
  executor = "crop";
}

one_tool : register_all bench requests [] ≡ ("crop", crop) ∷ []
unfolding program
one_tool = refl

crop_found : lookup "crop" (register_all bench requests []) ≡ some crop
unfolding program
crop_found = refl

cropped : execute bench "crop" dict_end (("crop", crop) ∷ []) 4 ≡ (ok "crop", 5)
unfolding program
cropped = refl

unknown :
    execute bench "zoom" dict_end (("crop", crop) ∷ []) 4
    ≡ (raised (tool_execution_error "unknown_tool"), 4)
unfolding program
unknown = refl

register_run-IsSound_example : IsSound bench "crop" crop
register_run-IsSound_example = register_run-IsSound bench requests "crop" crop crop_found
