-- ===== src/Context/Tests.antt =====
-- A context of two observations, and the theorems on contexts at it.
use penampakan.Base.{
  Option, ℕ, ◌≤◌, ◌≡◌, refl, String, true, false, none, some, List, [], ◌∷◌, length, arith,
}
use penampakan.Base.Ticks.{ticks}
use penampakan.Base.Errors.{value_error}
use penampakan.Base.Result.{Result, ok, raised}
use penampakan.Base.Dict.{lookup, insert}
use penampakan.Base.Texts.{contains, codes}
use penampakan.Models.{
  json_null, dict_end, Observation, ObservationPayload, Provenance, metadata_payload,
  caption_payload,
}
use penampakan.Models.Ids.{observation_sequence}
use penampakan.Context.Lines.{
  truncate_loop, Text, sort_by, line_safe_prefix, filter, dedupe, render_context,
}
use penampakan.Context.Pieces.{
  Writer, serialize, truncate_line, omission_record, payload_text, candidate,
}
use penampakan.Context.Select.{
  RankedObservation, SelectedLine, CompiledContext, Focus, before, rank_observations,
  mandatory_root_metadata, select_lines,
}
use penampakan.Context.Compile.{
  context_of, omitted_from, materialize, select_and_materialize, compile_question, compile,
}
use penampakan.Context.Truncate.{IsLongest, truncate_line-IsLongest, truncate_loop_total}
use penampakan.Context.Prefix.{IsSafe, line_safe_prefix-IsSafe}
use penampakan.Context.Visible.{
  IsSound, compile_total, compile-IsSound, select_and_materialize-mandatory,
  select_and_materialize-whole,
}

program : Unit {0}
unfolding compile compile_question select_and_materialize materialize select_lines rank_observations
    mandatory_root_metadata context_of omitted_from omission_record render_context serialize
    truncate_line before sort_by filter dedupe lookup insert contains observation_sequence
program = tt

-- a writer for which every JSON value is three characters
abbrev writer : Writer ticks
writer = record {
  dumps = λ value. 123 ∷ 42 ∷ 125 ∷ [];
  dump_payload = λ payload. dict_end;
  dump_region = λ region. json_null;
  dump_warning = λ warning. json_null;
  text_value = λ text. json_null;
}

abbrev provenance : Provenance
provenance = record {
  tool = "inspect";
  capability = none;
  backend_name = "pillow";
  backend_version = "1";
  model_id = none;
  model_revision = none;
  request_hash = "0";
  parent_observation_ids = [];
  cache_hit = false;
  duration_ms = 2;
}

abbrev observed : String → ObservationPayload ticks → Observation ticks
observed id payload = record {
  id = id;
  asset_id = "root";
  payload = payload;
  region = none;
  confidence = none;
  provenance = provenance;
  supersedes = [];
  contradicts = [];
  warnings = [];
}

abbrev root : Observation ticks
root = observed "obs_000001" (metadata_payload 4 3 1 false)

abbrev caption : Observation ticks
caption = observed "obs_000002" (caption_payload "a cat" none)

abbrev os : List (Observation ticks)
os = caption ∷ root ∷ []

abbrev focus : Focus
focus = record {
  root_asset_id = "root";
  relevant_asset_ids = some ("root" ∷ []);
  most_recent_asset_lineage = [];
  previous_action_observation_ids = [];
  previous_answer_observation_ids = [];
  pinned_observation_ids = [];
}

abbrev strip : Text → Text
strip text = text

abbrev score : Text → ℕ → Observation ticks → ℕ
score question latest o = 5

abbrev ranked : ℕ → Observation ticks → RankedObservation ticks
ranked group o = record { observation = o; pin_group = group; score = 5 }

abbrev line : RankedObservation ticks → SelectedLine ticks
line r = record { ranked = r; line = 123 ∷ 42 ∷ 125 ∷ [] }

abbrev selected : List (SelectedLine ticks)
selected = line (ranked 2 root) ∷ line (ranked 5 caption) ∷ []

abbrev context : CompiledContext
context = context_of writer (codes "what is it?") os selected

compiled : compile writer strip score 1000 (codes "what is it?") os focus ≡ some (ok context)
unfolding program
compiled = refl

blank_question : compile writer strip score 1000 [] os focus ≡ some (raised value_error)
unfolding program
blank_question = refl

compile_total_example :
    (r : Result CompiledContext) × (compile writer strip score 1000 (codes "what is it?") os focus
      ≡ some r)
compile_total_example = compile_total writer strip score 1000 (codes "what is it?") os focus

compile-IsSound_example : IsSound 1000 os context
compile-IsSound_example =
    compile-IsSound writer strip score 1000 (codes "what is it?") os focus context compiled

abbrev all_ranked : List (RankedObservation ticks)
all_ranked = ranked 2 root ∷ ranked 5 caption ∷ []

materialized :
    select_and_materialize writer 1000 (codes "what is it?") os all_ranked (some (ranked 2 root))
    ≡ some (ok context)
unfolding program
materialized = refl

select_and_materialize-mandatory_example :
    contains "obs_000001" context.visible_observation_ids ≡ true
select_and_materialize-mandatory_example =
    select_and_materialize-mandatory writer 1000 (codes "what is it?") os all_ranked (ranked 2 root)
      context materialized

chosen :
    select_lines writer 1000 (codes "what is it?") all_ranked (some (ranked 2 root)) ≡ ok selected
unfolding program
chosen = refl

short_record : length (omission_record writer (omitted_from os selected)).0 ≤ 512
unfolding program
short_record = omega arith

select_and_materialize-whole_example :
    select_and_materialize writer 1000 (codes "what is it?") os all_ranked (some (ranked 2 root))
    ≡ some (ok context)
select_and_materialize-whole_example =
    select_and_materialize-whole writer 1000 (codes "what is it?") os all_ranked
      (some (ranked 2 root)) selected chosen short_record

caption_text : payload_text caption.payload ≡ some (codes "a cat")
unfolding payload_text
caption_text = refl

same_length :
    (m n : ℕ)
    → m ≤ n
    → length (candidate writer caption (codes "a cat") m)
      ≤ length (candidate writer caption (codes "a cat") n)
unfolding candidate
same_length m n h = omega arith

truncate_line-IsLongest_example :
    IsLongest (candidate writer caption (codes "a cat")) 4 5 (truncate_line writer caption 4)
truncate_line-IsLongest_example =
    truncate_line-IsLongest writer caption 4 (codes "a cat") caption_text same_length

two_lines : line_safe_prefix (97 ∷ 10 ∷ 98 ∷ 99 ∷ []) 3 ≡ 97 ∷ 10 ∷ []
unfolding line_safe_prefix
two_lines = refl

line_safe_prefix-IsSafe_example :
    IsSafe (97 ∷ 10 ∷ 98 ∷ 99 ∷ []) 3 (line_safe_prefix (97 ∷ 10 ∷ 98 ∷ 99 ∷ []) 3)
line_safe_prefix-IsSafe_example = line_safe_prefix-IsSafe (97 ∷ 10 ∷ 98 ∷ 99 ∷ []) 3

truncate_loop_total_example :
    (r : Option Text) × (truncate_loop 7 (candidate writer caption (codes "a cat")) 4 0 6 none
      ≡ some r)
truncate_loop_total_example =
    truncate_loop_total 7 (candidate writer caption (codes "a cat")) 4 0 6 none (omega arith)
      (omega arith)
