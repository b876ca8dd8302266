-- ===== src/Config.antt =====
-- src/penampakan/config.py: the limits of a run, the timeout of a call, the cache's settings and the
-- backend preferences, with the validators that pydantic runs when a settings object is built.
-- A count is a natural number here: a negative one is refused by the same `gt=0` as zero.
pub mod Laws
pub mod Tests
use penampakan.Base.{
  ℕ, ◌+◌, String, Bool, true, false, ◌&&◌, ◌||◌, Option, none, some, List, [], ◌∷◌, ltb, leb, all,
  length, str_eq, not, ◌==◌,
}
use penampakan.Base.Floats.{Floats, Arg, boolean, integer, real, other}
use penampakan.Base.Texts.{contains, codes}
use penampakan.Base.Errors.{value_error, type_error}
use penampakan.Base.Result.{Result, ok, raised, ◌>>=◌, ◌>>◌, require, reject}

-- `RunLimits`: the counters' maxima, and the three deadlines in seconds.
pub record RunLimits (F : Floats) : Type 0 where
  pub max_steps : ℕ
  pub max_llm_calls : ℕ
  pub max_tool_calls : ℕ
  pub max_backend_calls : ℕ
  pub max_derived_assets : ℕ
  pub max_derivation_depth : ℕ
  pub max_parallel_tools : ℕ
  pub max_context_chars : ℕ
  pub max_ocr_chars_per_observation : ℕ
  pub default_timeout_s : F.Float
  pub backend_timeout_s : F.Float
  pub llm_timeout_s : F.Float

module _ (F : Floats) where
  -- `Field(gt=0, allow_inf_nan=False)`
  abbrev pub is_positive_finite : F.Float → Bool
  is_positive_finite x = F.lt F.zero_float x && F.is_finite x

  -- the `gt=0` of every field
  pub fields_positive : RunLimits F → Bool
  fields_positive l =
      ltb 0 l.max_steps
      && ltb 0 l.max_llm_calls
      && ltb 0 l.max_tool_calls
      && ltb 0 l.max_backend_calls
      && ltb 0 l.max_derived_assets
      && ltb 0 l.max_derivation_depth
      && ltb 0 l.max_parallel_tools
      && ltb 0 l.max_context_chars
      && ltb 0 l.max_ocr_chars_per_observation
      && is_positive_finite l.default_timeout_s
      && is_positive_finite l.backend_timeout_s
      && is_positive_finite l.llm_timeout_s

  -- `RunLimits.validate_relationships`
  pub validate_relationships : RunLimits F → Result (RunLimits F)
  validate_relationships l = do
    reject (F.lt l.default_timeout_s l.backend_timeout_s) value_error
    reject (F.lt l.default_timeout_s l.llm_timeout_s) value_error
    reject (ltb l.max_tool_calls l.max_parallel_tools) value_error
    reject (ltb l.max_llm_calls (l.max_steps + 1)) value_error
    ok l

  -- the construction of a `RunLimits`: the fields first, then the relationships
  unfoldable pub run_limits : RunLimits F → Result (RunLimits F)
  unfolding fields_positive validate_relationships
  run_limits l = do require (fields_positive l) value_error; validate_relationships l

  positive_timeout : F.Float → Result (Option F.Float)
  positive_timeout value = do
    require (F.is_finite value) value_error
    reject (F.le value F.zero_float) value_error
    ok (some value)

  -- `validate_timeout_s`
  unfoldable pub validate_timeout_s : Option (Arg F.Float) → Result (Option F.Float)
  unfolding positive_timeout
  validate_timeout_s none = ok none
  validate_timeout_s (some (integer n)) = positive_timeout (F.of_int n)
  validate_timeout_s (some (real x)) = positive_timeout x
  validate_timeout_s (some (boolean b)) = raised type_error
  validate_timeout_s (some other) = raised type_error

pub data CacheMode : Type 0 where
  off memory sqlite : CacheMode

-- `CacheSettings.validate_path_matches_mode`
unfoldable pub validate_path_matches_mode :
    CacheMode → Option String → Result (CacheMode × Option String)
validate_path_matches_mode sqlite none = raised value_error
validate_path_matches_mode sqlite (some path) = ok (sqlite, some path)
validate_path_matches_mode mode none = ok (mode, none)
validate_path_matches_mode mode (some path) = raised value_error

abbrev is_lower : ℕ → Bool
is_lower c = leb b'a' c && leb c b'z'

abbrev is_name_char : ℕ → Bool
is_name_char c = is_lower c || (leb b'0' c && leb c b'9') || c == b'_' || c == b'.' || c == b'-'

-- `[a-z][a-z0-9_.-]{0,63}`, matched against the whole text
is_backend_codes : List ℕ → Bool
is_backend_codes [] = false
is_backend_codes (c ∷ cs) = is_lower c && all is_name_char cs && leb (length cs) 63

-- `_BACKEND_NAME.fullmatch(name)`
unfoldable pub is_backend_name : String → Bool
unfolding is_backend_codes
is_backend_name name = is_backend_codes (codes name)

-- the loop over one capability's names, with the set `seen`
unfoldable pub validate_names : List String → List String → Result (Unit {0})
unfolding contains
validate_names seen [] = ok tt
validate_names seen (name ∷ names) =
    let rest = validate_names (name ∷ seen) names in
    do require (is_backend_name name) value_error; reject (contains name seen) value_error; rest

-- `Settings.validate_backend_preferences`, over the values of the dictionary
unfoldable pub validate_backend_preferences : List (List String) → Result (Unit {0})
unfolding validate_names
validate_backend_preferences [] = ok tt
validate_backend_preferences (names ∷ value) =
    let rest = validate_backend_preferences value in do validate_names [] names; rest
