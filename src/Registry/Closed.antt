-- ===== src/Registry/Closed.antt =====
-- The values inside a schema of src/penampakan/perception/registry.py.
use penampakan.Base.{Option, none, some, not, true, arith, ◌≡◌, refl, String, Bool, false}
use penampakan.Base.Floats.{Floats}
use penampakan.Base.Errors.{Error}
use penampakan.Base.Result.{ok, reject, >>=-eq-ok}
use penampakan.Models.{
  Json, json_null, json_bool, json_int, json_float, json_str, json_list, json_dict, JsonList,
  items_end, item, JsonDict, dict_end, entry,
}
use penampakan.Answer.{json_get}
use penampakan.Registry.{
  is_shut, is_open_object, require_closed, require_closed_items, require_closed_values,
}

reject_ok : (b : Bool) (e : Error) → reject b e ≡ ok tt → b ≡ false
reject_ok true e h = cc
reject_ok false e h = refl

module _ {F : Floats} where
  -- The object `d` is the value, or stands in it at any depth.
  mutual
    pub data Inside (d : JsonDict F) : Json F → Type 0 where
      here : Inside d (json_dict d)
      in_dict : {e : JsonDict F} → InsideDict d e → Inside d (json_dict e)
      in_list : {vs : JsonList F} → InsideList d vs → Inside d (json_list vs)

    pub data InsideList (d : JsonDict F) : JsonList F → Type 0 where
      first_item : {v : Json F} {vs : JsonList F} → Inside d v → InsideList d (item v vs)
      later_item : {v : Json F} {vs : JsonList F} → InsideList d vs → InsideList d (item v vs)

    pub data InsideDict (d : JsonDict F) : JsonDict F → Type 0 where
      first_value :
          {k : String} {v : Json F} {e : JsonDict F} → Inside d v → InsideDict d (entry k v e)
      later_value :
          {k : String} {v : Json F} {e : JsonDict F} → InsideDict d e → InsideDict d (entry k v e)

  -- an object schema with properties says that there are no others
  abbrev pub IsShut : JsonDict F → Type 0
  IsShut d =
      json_get "type" d ≡ some (json_str "object")
      → (v : Json F) → json_get "properties" d ≡ some v
      → json_get "additionalProperties" d ≡ some (json_bool false)

  -- every object in the value is shut
  abbrev pub IsClosed : Json F → Type 0
  IsClosed v = (d : JsonDict F) → Inside d v → IsShut d

  is_shut_lem : (v : Option (Json F)) → is_shut v ≡ true → v ≡ some (json_bool false)
  is_shut_lem none h = cc
  is_shut_lem (some json_null) h = cc
  is_shut_lem (some (json_bool true)) h = cc
  is_shut_lem (some (json_bool false)) h = refl
  is_shut_lem (some (json_int n)) h = cc
  is_shut_lem (some (json_float x)) h = cc
  is_shut_lem (some (json_str t)) h = cc
  is_shut_lem (some (json_list vs)) h = cc
  is_shut_lem (some (json_dict e)) h = cc

  is_open_object-IsShut : (d : JsonDict F) → is_open_object d ≡ false → IsShut d
  unfolding is_open_object
  is_open_object-IsShut d h object v properties =
      let shut : not (is_shut (json_get "additionalProperties" d)) ≡ false =
        rw (object, properties) at h in
      is_shut_lem (json_get "additionalProperties" d) (ground (arith, shut))

  mutual
    unfolding require_closed

    closed_value :
        (d : JsonDict F) (v : Json F)
        → require_closed v ≡ ok tt
        → Inside d v
        → is_open_object d ≡ false
    closed_value d (json_dict e) h here =
        reject_ok _ _ (>>=-eq-ok (reject (is_open_object d) _) _ h).1
    closed_value d (json_dict e) h (in_dict i) =
        closed_values d e (>>=-eq-ok (reject (is_open_object e) _) _ h).2 i
    closed_value d json_null h i = elim i [ ]
    closed_value d (json_bool b) h i = elim i [ ]
    closed_value d (json_int n) h i = elim i [ ]
    closed_value d (json_float x) h i = elim i [ ]
    closed_value d (json_str t) h i = elim i [ ]
    closed_value d (json_list vs) h (in_list i) = closed_items d vs h i

    closed_items :
        (d : JsonDict F) (vs : JsonList F)
        → require_closed_items vs ≡ ok tt
        → InsideList d vs
        → is_open_object d ≡ false
    closed_items d items_end h i = elim i [ ]
    closed_items d (item v vs) h (first_item i) =
        closed_value d v (>>=-eq-ok (require_closed v) _ h).1 i
    closed_items d (item v vs) h (later_item i) =
        closed_items d vs (>>=-eq-ok (require_closed v) _ h).2 i

    closed_values :
        (d e : JsonDict F)
        → require_closed_values e ≡ ok tt
        → InsideDict d e
        → is_open_object d ≡ false
    closed_values d dict_end h i = elim i [ ]
    closed_values d (entry k v e) h (first_value i) =
        closed_value d v (>>=-eq-ok (require_closed v) _ h).1 i
    closed_values d (entry k v e) h (later_value i) =
        closed_values d e (>>=-eq-ok (require_closed v) _ h).2 i

  pub require_closed-IsClosed : (v : Json F) → require_closed v ≡ ok tt → IsClosed v
  require_closed-IsClosed v h d i = is_open_object-IsShut d (closed_value d v h i)
