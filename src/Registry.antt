-- ===== src/Registry.antt =====
-- src/penampakan/perception/registry.py: `ToolRegistry`, the tools of a session by name.
mod Closed
mod Runs
mod Tests
use penampakan.Base.{
  ℕ, ◌+◌, ◌≡◌, String, Bool, true, false, not, ◌&&◌, ◌||◌, Option, none, some, List, [], ◌∷◌, leb,
  ◌==◌, str_eq, all,
}
use penampakan.Base.Texts.{codes}
use penampakan.Base.Floats.{Floats}
use penampakan.Base.Errors.{Error, value_error, configuration_error, tool_execution_error}
use penampakan.Base.Result.{Result, ok, raised, require, reject, ◌>>=◌, ◌>>◌}
use penampakan.Base.Dict.{Dict, lookup, insert}
use penampakan.Models.{
  is_snake_name, is_json_mapping, Json, json_bool, json_str, json_list, json_dict, JsonList,
  items_end, item, JsonDict, dict_end, entry,
}
use penampakan.Answer.{json_get}

-- What an awaited executor gives: a `ToolResult`, another object, a `ToolExecutionError`, another exception.
pub data Executed (R : Type 0) : Type 0 where
  finished : R → Executed R
  no_result : Executed R
  tool_error : Error → Executed R
  failed : Executed R

-- pydantic's models, and executors in a world that they may change
pub record Tooling (F : Floats) : Type 1 where
  pub ArgumentsModel : Type 0
  pub Arguments : Type 0
  pub Executor : Type 0
  pub ToolResult : Type 0
  pub World : Type 0
  -- the text that `_CleanText` makes, where it accepts
  pub clean_text : String → Option String
  pub model_json_schema : ArgumentsModel → JsonDict F
  pub model_validate : ArgumentsModel → JsonDict F → Option Arguments
  pub call : Executor → Arguments → World → Executed ToolResult × World

-- an argument that the code looks at before it is used
pub data Given (A : Type 0) : Type 0 where
  given : A → Given A
  unfit : Given A

-- `ToolSpec` of models.py
pub record ToolSpec (F : Floats) : Type 0 where
  pub name : String
  pub description : String
  pub arguments_json_schema : JsonDict F
  pub creates_assets : Bool
  pub cost_hint : ℕ

-- `ToolRegistration`
pub record ToolRegistration {F : Floats} (T : Tooling F) : Type 0 where
  pub spec : ToolSpec F
  pub arguments_model : T.ArgumentsModel
  pub executor : T.Executor

-- `_TOOL_NAME.fullmatch(name)`
unfoldable pub is_tool_name : String → Bool
unfolding is_snake_name
is_tool_name name = is_snake_name name

module _ {F : Floats} where
  -- `value.get("type") == "object"`
  abbrev is_object : Option (Json F) → Bool
  is_object (some (json_str s)) = str_eq s "object"
  is_object v = false

  abbrev is_there : Option (Json F) → Bool
  is_there none = false
  is_there (some v) = true

  -- `value.get("additionalProperties") is False`
  abbrev pub is_shut : Option (Json F) → Bool
  is_shut (some (json_bool b)) = not b
  is_shut v = false

  -- the test of `_require_closed_schemas`
  unfoldable pub is_open_object : JsonDict F → Bool
  is_open_object d =
      is_object (json_get "type" d)
      && is_there (json_get "properties" d)
      && not (is_shut (json_get "additionalProperties" d))

  -- `_require_closed_schemas` of a value, of a list's items and of a dictionary's values
  unfoldable mutual
    pub require_closed : Json F → Result (Unit {0})
    require_closed (json_dict d) =
        let rest = require_closed_values d in
        reject (is_open_object d) (configuration_error "open_tool_arguments_schema") >> rest
    require_closed (json_list vs) = require_closed_items vs
    require_closed v = ok tt

    pub require_closed_items : JsonList F → Result (Unit {0})
    require_closed_items items_end = ok tt
    require_closed_items (item v vs) =
        let rest = require_closed_items vs in require_closed v >> rest

    pub require_closed_values : JsonDict F → Result (Unit {0})
    require_closed_values dict_end = ok tt
    require_closed_values (entry k v d) =
        let rest = require_closed_values d in require_closed v >> rest

module _ {F : Floats} (T : Tooling F) where
  abbrev pub Registry : Type 0
  Registry = Dict (ToolRegistration T)

  fitting : {A : Type 0} → Given A → String → Result A
  fitting (given x) code = ok x
  fitting unfit code = raised (configuration_error code)

  -- the construction of a `ToolSpec`
  tool_spec : String → String → JsonDict F → Bool → ℕ → Result (ToolSpec F)
  tool_spec name description schema creates_assets cost_hint = elim (T.clean_text description) [
    | none ↦ raised value_error
    | some text ↦ do
      require (is_json_mapping schema && leb 1 cost_hint && leb cost_hint 100) value_error
      ok (record {
        name = name;
        description = text;
        arguments_json_schema = schema;
        creates_assets = creates_assets;
        cost_hint = cost_hint;
      })
  ]

  -- `name in self._registrations`
  abbrev holds : String → Registry → Bool
  holds name s = elim (lookup name s) [ none ↦ false | some x ↦ true ]

  -- `register`: the registrations after it. A call that raises leaves them.
  unfoldable pub register :
      Given String
      → String
      → Given T.ArgumentsModel
      → Given T.Executor
      → Bool
      → ℕ
      → Registry
      → Result Registry
  unfolding fitting tool_spec
  register named description modelled run creates_assets cost_hint s = do
    name ← fitting named "invalid_tool_name"
    require (is_tool_name name) (configuration_error "invalid_tool_name")
    reject (holds name s) (configuration_error "duplicate_tool_name")
    model ← fitting modelled "invalid_tool_arguments_model"
    executor ← fitting run "invalid_tool_executor"
    require_closed (json_dict (T.model_json_schema model))
    spec ← tool_spec name description (T.model_json_schema model) creates_assets cost_hint
    ok (insert name (record { spec = spec; arguments_model = model; executor = executor }) s)

  -- `_registration`
  unfoldable pub registration : String → Registry → Result (ToolRegistration T)
  registration name s = elim (lookup name s) [
    | none ↦ raised (tool_execution_error "unknown_tool")
    | some x ↦ ok x
  ]

  -- `spec`
  unfoldable pub spec : String → Registry → Result (ToolSpec F)
  spec name s = registration name s >>= λ x. ok x.spec

  -- `specs`
  abbrev pub specs : Registry → List (ToolSpec F)
  specs [] = []
  specs ((name, x) ∷ s) = x.spec ∷ specs s

  -- `validate_arguments`
  unfoldable pub validate_arguments : String → JsonDict F → Registry → Result T.Arguments
  validate_arguments name arguments s = do
    x ← registration name s
    elim (T.model_validate x.arguments_model arguments) [
      | none ↦ raised (tool_execution_error "invalid_tool_arguments")
      | some value ↦ ok value
    ]

  -- what `execute` makes of the executor's outcome
  outcome : Executed T.ToolResult → Result T.ToolResult
  outcome (finished r) = ok r
  outcome no_result = raised (tool_execution_error "invalid_tool_result")
  outcome (tool_error e) = raised e
  outcome failed = raised (tool_execution_error "tool_execution_failed")

  -- `execute`
  unfoldable pub execute : String → JsonDict F → Registry → T.World → Result T.ToolResult × T.World
  unfolding outcome
  execute name arguments s w = elim (registration name s) [
    | raised e ↦ (raised e, w)
    | ok x ↦ elim (validate_arguments name arguments s) [
      | raised e ↦ (raised e, w)
      | ok value ↦ let (done, after) = T.call x.executor value w in (outcome done, after)
    ]
  ]
