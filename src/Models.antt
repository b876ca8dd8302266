-- ===== src/Models.antt =====
-- src/penampakan/models.py: the data that observations carry. A pydantic model whose validators the
-- modelled code relies on has them as a construction that may raise.
pub mod Boxes
pub mod Ids
mod Tests
use penampakan.Base.{
  ℕ, String, Bool, true, false, not, ◌&&◌, ◌||◌, Option, none, some, List, [], ◌∷◌, str_eq, leb,
  ◌==◌, all, length,
}
use penampakan.Base.Texts.{codes, has_nul}
use penampakan.Base.Int.{ℤ}
use penampakan.Base.Floats.{Floats}
use penampakan.Models.Boxes.{Point, Box}

pub data Capability : Type 0 where
  metadata colors caption ocr detect segment : Capability

abbrev is_first_char : ℕ → Bool
is_first_char c = leb b'a' c && leb c b'z'

abbrev is_snake_char : ℕ → Bool
is_snake_char c = is_first_char c || (leb b'0' c && leb c b'9') || c == b'_'

is_snake_codes : List ℕ → Bool
is_snake_codes [] = false
is_snake_codes (c ∷ cs) = is_first_char c && all is_snake_char cs

-- `_SnakeName`
unfoldable pub is_snake_name : String → Bool
unfolding is_snake_codes
is_snake_name name = is_snake_codes (codes name)

abbrev is_hex_char : ℕ → Bool
is_hex_char c = (leb b'0' c && leb c b'9') || (leb b'a' c && leb c b'f')

is_asset_codes : List ℕ → Bool
is_asset_codes (i ∷ m ∷ g ∷ u ∷ cs) =
    i == b'i'
    && m == b'm'
    && g == b'g'
    && u == b'_'
    && all is_hex_char cs
    && leb 16 (length cs)
    && leb (length cs) 64
is_asset_codes cs = false

-- `_AssetId`
unfoldable pub is_asset_id : String → Bool
unfolding is_asset_codes
is_asset_id id = is_asset_codes (codes id)

-- `JsonValue`
mutual
  pub data Json (F : Floats) : Type 0 where
    json_null : Json F
    json_bool : Bool → Json F
    json_int : ℤ → Json F
    json_float : F.Float → Json F
    json_str : String → Json F
    json_list : JsonList F → Json F
    json_dict : JsonDict F → Json F

  pub data JsonList (F : Floats) : Type 0 where
    items_end : JsonList F
    item : Json F → JsonList F → JsonList F

  pub data JsonDict (F : Floats) : Type 0 where
    dict_end : JsonDict F
    entry : String → Json F → JsonDict F → JsonDict F

module _ {F : Floats} where
  -- `_json_value` of a value and of what is in it, and `_json_mapping`
  unfoldable mutual
    pub is_json_value : Json F → Bool
    is_json_value (json_float x) = F.is_finite x
    is_json_value (json_str t) = not (has_nul t)
    is_json_value (json_list vs) = are_json_values vs
    is_json_value (json_dict d) = is_json_mapping d
    is_json_value v = true

    pub are_json_values : JsonList F → Bool
    are_json_values items_end = true
    are_json_values (item v vs) = let rest = are_json_values vs in is_json_value v && rest

    pub is_json_mapping : JsonDict F → Bool
    is_json_mapping dict_end = true
    is_json_mapping (entry k v d) =
        let rest = is_json_mapping d in not (has_nul k) && is_json_value v && rest

pub record TransformDescriptor (F : Floats) : Type 0 where
  pub name : String
  pub parameters : JsonDict F

pub record ColorSwatch (F : Floats) : Type 0 where
  pub red : ℕ
  pub green : ℕ
  pub blue : ℕ
  pub hex : String
  pub fraction : F.Float
  pub name : Option String

pub record MarkDescriptionRef : Type 0 where
  pub index : ℕ
  pub description : String

pub record MarkRef (F : Floats) : Type 0 where
  pub index : ℕ
  pub observation_id : String
  pub region : Box F
  pub source_label : Option String

pub record TransformPayload (F : Floats) : Type 0 where
  pub derived_asset_id : String
  pub parent_asset_id : String
  pub transform : TransformDescriptor F

pub record MarkPayload (F : Floats) : Type 0 where
  pub derived_asset_id : String
  pub parent_asset_id : String
  pub marks : List (MarkRef F)

-- `ObservationPayload`: a constructor for each payload class, its fields in order.
pub data ObservationPayload (F : Floats) : Type 0 where
  metadata_payload : ℕ → ℕ → F.Float → Bool → ObservationPayload F
  colors_payload : List (ColorSwatch F) → ObservationPayload F
  caption_payload : String → Option String → ObservationPayload F
  mark_description_payload : List MarkDescriptionRef → ObservationPayload F
  text_payload : String → Option String → String → ObservationPayload F
  detection_payload : String → List String → ObservationPayload F
  segmentation_payload : String → List (Point F) → ObservationPayload F
  transform_payload : TransformPayload F → ObservationPayload F
  mark_payload : MarkPayload F → ObservationPayload F
  warning_payload : String → String → ObservationPayload F

pub record WarningInfo (F : Floats) : Type 0 where
  pub code : String
  pub message : String
  pub details : JsonDict F

pub record Provenance : Type 0 where
  pub tool : String
  pub capability : Option Capability
  pub backend_name : String
  pub backend_version : String
  pub model_id : Option String
  pub model_revision : Option String
  pub request_hash : String
  pub parent_observation_ids : List String
  pub cache_hit : Bool
  pub duration_ms : ℕ

pub record Observation (F : Floats) : Type 0 where
  pub id : String
  pub asset_id : String
  pub payload : ObservationPayload F
  pub region : Option (Box F)
  pub confidence : Option F.Float
  pub provenance : Provenance
  pub supersedes : List String
  pub contradicts : List String
  pub warnings : List (WarningInfo F)

pub record ObservationDraft (F : Floats) : Type 0 where
  pub payload : ObservationPayload F
  pub region : Option (Box F)
  pub confidence : Option F.Float
  pub warnings : List (WarningInfo F)

-- `_validate_region_semantics`, which `Observation` and `ObservationDraft` share: metadata, transform
-- and mark payloads have no region
unfoldable pub region_allowed : {F : Floats} → ObservationPayload F → Option (Box F) → Bool
region_allowed (metadata_payload width height ratio alpha) (some region) = false
region_allowed (transform_payload transform) (some region) = false
region_allowed (mark_payload mark) (some region) = false
region_allowed payload region = true
