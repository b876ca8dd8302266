-- ===== src/Registry/Runs.antt =====
-- What a registry of src/penampakan/perception/registry.py holds after any registrations.
use penampakan.Base.{
  ℕ, ◌≤◌, ◌≡◌, refl, ◌∙◌, sym, String, Bool, true, false, ◌&&◌, leb, arith, some, List, [], ◌∷◌,
  str_eq, Bool-cases, Option-cases, inl, inr, eq_iff,
}
use penampakan.Base.Floats.{Floats}
use penampakan.Base.Errors.{Error, value_error}
use penampakan.Base.Result.{ok, raised, require, reject, Result-cases, >>=-eq-ok, ok-injective}
use penampakan.Base.Dict.{lookup, insert, lookup-insert}
use penampakan.Models.{is_json_mapping, json_dict, JsonDict}
use penampakan.Registry.{
  Tooling, Given, ToolSpec, ToolRegistration, is_tool_name, require_closed, Registry, fitting,
  tool_spec, holds, register,
}
use penampakan.Registry.Closed.{IsClosed, require_closed-IsClosed}

require_ok : (b : Bool) (e : Error) → require b e ≡ ok tt → b ≡ true
require_ok true e h = refl
require_ok false e h = cc

module _ {F : Floats} (T : Tooling F) where
  -- the arguments of one call of `register`
  pub record Request : Type 0 where
    pub name : Given String
    pub description : String
    pub arguments_model : Given T.ArgumentsModel
    pub executor : Given T.Executor
    pub creates_assets : Bool
    pub cost_hint : ℕ

  -- A tool under its own name, which has the form of a tool's name, with the schema of its model, in
  -- which every object schema with properties rules out others, and with a cost between 1 and 100.
  pub record IsSound (name : String) (x : ToolRegistration T) : Type 0 where
    pub named : is_tool_name name ≡ true
    pub own : x.spec.name ≡ name
    pub schema : x.spec.arguments_json_schema ≡ T.model_json_schema x.arguments_model
    pub closed : IsClosed (json_dict x.spec.arguments_json_schema)
    pub cost : (1 ≤ x.spec.cost_hint) × (x.spec.cost_hint ≤ 100)

  abbrev pub AllSound : Registry T → Type 0
  AllSound s = (name : String) (x : ToolRegistration T) → lookup name s ≡ some x → IsSound name x

  tool_spec_lem :
      (name description : String) (schema : JsonDict F) (creates : Bool) (cost : ℕ) {t : ToolSpec F}
      → tool_spec T name description schema creates cost ≡ ok t
      → (t.name ≡ name)
        × (t.arguments_json_schema ≡ schema)
        × (1 ≤ t.cost_hint)
        × (t.cost_hint ≤ 100)
  unfolding tool_spec
  tool_spec_lem name description schema creates cost {t} h =
      elim (Option-cases (T.clean_text description)) [
        | inl none_found ↦
            let bad : raised value_error ≡ ok t = rw (none_found, tool_spec) at h in absurd (cc bad)
        | inr (text, found) ↦
            let made = rw (found, tool_spec) at h in
            let (_, checked, built) =
              >>=-eq-ok (require (is_json_mapping schema && leb 1 cost && leb cost 100) value_error)
                _ made in
            let spec = ok-injective built in
            let fits = require_ok _ _ checked in
            rw⁻¹ spec (refl, refl, ground (arith, fits), ground (arith, fits))
      ]

  insert-AllSound :
      (name : String) (x : ToolRegistration T) (s : Registry T)
      → IsSound name x
      → AllSound s
      → AllSound (insert name x s)
  insert-AllSound name x s sound h other y found =
      let at_other = sym (lookup-insert name other x s) ∙ found in
      elim (Bool-cases (str_eq name other)) [
        | inl e ↦
            let there : some x ≡ some y = rw e at at_other in
            let same : x ≡ y = cc there in
            let here : name ≡ other = ground (arith, eq_iff name other) in
            rw⁻¹ same (rw⁻¹ here sound)
        | inr e ↦ h other y (rw e at at_other)
      ]

  register-AllSound :
      (r : Request) (s : Registry T) {t : Registry T}
      → register T r.name r.description r.arguments_model r.executor r.creates_assets r.cost_hint s
        ≡ ok t
      → AllSound s
      → AllSound t
  unfolding register
  register-AllSound r s made h =
      let (name, _, h1) = >>=-eq-ok (fitting T r.name "invalid_tool_name") _ made in
      let (_, valid, h2) = >>=-eq-ok (require (is_tool_name name) _) _ h1 in
      let (_, _, h3) = >>=-eq-ok (reject (holds T name s) _) _ h2 in
      let (model, _, h4) = >>=-eq-ok (fitting T r.arguments_model _) _ h3 in
      let (executor, _, h5) = >>=-eq-ok (fitting T r.executor _) _ h4 in
      let (_, closed, h6) =
        >>=-eq-ok (require_closed (json_dict (T.model_json_schema model))) _ h5 in
      let (spec, built, h7) =
        >>=-eq-ok
          (tool_spec T name r.description (T.model_json_schema model) r.creates_assets r.cost_hint)
          _ h6 in
      let (own, schema, low, high) =
        tool_spec_lem name r.description _ r.creates_assets r.cost_hint built in
      rw⁻¹ (ok-injective h7) (
        insert-AllSound name (record { spec = spec; arguments_model = model; executor = executor })
          s
          (record {
            named = require_ok _ _ valid;
            own = own;
            schema = schema;
            closed =
                rw schema (require_closed-IsClosed (json_dict (T.model_json_schema model)) closed);
            cost = (low, high);
          })
          h)

  -- the registry after calls of `register`, the ones that raise included
  abbrev pub attempt : Request → Registry T → Registry T
  attempt r s =
      elim (register T r.name r.description r.arguments_model r.executor r.creates_assets
        r.cost_hint s) [ ok t ↦ t | raised e ↦ s ]

  unfoldable pub register_all : List Request → Registry T → Registry T
  register_all [] s = s
  register_all (r ∷ rs) s = register_all rs (attempt r s)

  attempt-AllSound : (r : Request) (s : Registry T) → AllSound s → AllSound (attempt r s)
  attempt-AllSound r s h =
      elim (Result-cases (
        register T r.name r.description r.arguments_model r.executor r.creates_assets r.cost_hint
          s)) [
            | inl (t, made) ↦ rw (made, attempt) (register-AllSound r s made h)
            | inr (e, refused) ↦ rw (refused, attempt) h
          ]

  register_all-AllSound :
      (rs : List Request) (s : Registry T) → AllSound s → AllSound (register_all rs s)
  unfolding register_all
  register_all-AllSound [] s h = h
  register_all-AllSound (r ∷ rs) s h =
      register_all-AllSound rs (attempt r s) (attempt-AllSound r s h)

  no_tools : AllSound []
  unfolding lookup
  no_tools name x h = cc

  -- After any calls of `register` on a new registry, accepted or refused, a tool that is found under a
  -- name has that name, the name has the form of a tool's name, the schema is the one of the tool's
  -- arguments model, every dictionary at any depth of it with the type "object" and with properties has
  -- `false` for its additional properties, and the cost is between 1 and 100.
  pub register_run-IsSound :
      (rs : List Request) (name : String) (x : ToolRegistration T)
      → lookup name (register_all rs []) ≡ some x
      → IsSound name x
  register_run-IsSound rs name x found = register_all-AllSound rs [] no_tools name x found
