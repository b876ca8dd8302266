-- ===== src/Cache/Json.antt =====
-- What `validate_json_bytes` of src/penampakan/perception/cache.py accepts. A parameter reads the bytes: UTF-8 and
-- `json.loads`, an object as the list of its pairs, and NaN and the infinities as floats that are not finite.
use penampakan.Base.{String, Bool, true, false, not, ◌&&◌, Option, none, some, List, [], ◌∷◌}
use penampakan.Base.Floats.{Floats}
use penampakan.Base.Texts.{contains}
use penampakan.Models.{
  Json, json_list, json_dict, JsonList, items_end, item, JsonDict, dict_end, entry, is_json_value,
}
use penampakan.Cache.{Bytes}

module _ {F : Floats} where
  -- `_unique_object` of the object with the keys `seen` so far
  unique_object : List String → JsonDict F → Bool
  unfolding contains
  unique_object seen dict_end = true
  unique_object seen (entry k v d) =
      let rest = unique_object (k ∷ seen) d in not (contains k seen) && rest

  -- every object in the value passes `_unique_object`
  unfoldable mutual
    unfolding unique_object

    has_unique_keys : Json F → Bool
    has_unique_keys (json_list vs) = items_have_unique_keys vs
    has_unique_keys (json_dict d) = unique_object [] d && values_have_unique_keys d
    has_unique_keys v = true

    items_have_unique_keys : JsonList F → Bool
    items_have_unique_keys items_end = true
    items_have_unique_keys (item v vs) =
        let rest = items_have_unique_keys vs in has_unique_keys v && rest

    values_have_unique_keys : JsonDict F → Bool
    values_have_unique_keys dict_end = true
    values_have_unique_keys (entry k v d) =
        let rest = values_have_unique_keys d in has_unique_keys v && rest

  -- the `is_json` of the caches, from a decoder
  unfoldable pub is_strict_json : (Bytes → Option (Json F)) → Bytes → Bool
  unfolding has_unique_keys is_json_value
  is_strict_json loads value = elim (loads value) [
    | none ↦ false
    | some v ↦ has_unique_keys v && is_json_value v
  ]
