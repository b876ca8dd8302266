-- ===== src/Session/Tests.antt =====
-- A run whose policy calls the same tool twice and then answers, and the theorem on runs at it.
use penampakan.Base.{
  ℕ, zero, suc, ◌≡◌, refl, String, true, false, Option, none, some, List, [], ◌∷◌, length, arith,
  str_eq,
}
use penampakan.Base.Ticks.{ticks}
use penampakan.Base.Floats.{integer}
use penampakan.Base.Int.{pos}
use penampakan.Base.Result.{Result, ok}
use penampakan.Base.Run.{attempt, ◌>>=◌}
use penampakan.Config.{RunLimits}
use penampakan.Models.{is_snake_name, is_asset_id, dict_end, json_null}
use penampakan.Models.Ids.{observation_id}
use penampakan.Answer.{AnswerAction, insufficient_evidence, VisionAnswer}
use penampakan.Assets.{Imaging, ImageLimits, ImageAsset, AssetStore, init}
use penampakan.Context.Lines.{Text}
use penampakan.Store.Valid as ObservationValid
use penampakan.Assets.Valid as AssetValid
use penampakan.Assets.Runs.{apply_all, asset_run-IsValid}
use penampakan.Store as ObservationMethods
use penampakan.Store.Commit as ObservationRuns
use penampakan.Session.{
  Host, Session, ToolAction, returns, PolicyAction, decides, calls_tool, gives_answer, reserves,
}
use penampakan.Session.Ask.{Turn, Ended, goes_on, first_turn, may_go_on, ask_round, ask}
use penampakan.Context.Select.{CompiledContext}
use penampakan.Session.Keeps.{IsSafe}
use penampakan.Session.Grounded.{IsAnswered}
use penampakan.Session.Runs.{ask-IsAnswered}

program : Unit {0}
unfolding ask ◌>>=◌ attempt init
program = tt

-- images that are all alike
abbrev plain : Imaging
plain = record {
  Image = Unit;
  Bytes = String;
  width = λ _. 4;
  height = λ _. 3;
  mode = λ _. "RGB";
  encode = λ _. "aaaaaaaaaaaaaaaa";
  same_bytes = str_eq;
  digest = λ (b : String). b;
}

abbrev limits : RunLimits ticks
limits = record {
  max_steps = 4;
  max_llm_calls = 5;
  max_tool_calls = 12;
  max_backend_calls = 16;
  max_derived_assets = 2;
  max_derivation_depth = 1;
  max_parallel_tools = 4;
  max_context_chars = 24000;
  max_ocr_chars_per_observation = 8000;
  default_timeout_s = 120;
  backend_timeout_s = 60;
  llm_timeout_s = 60;
}

abbrev look : ToolAction ticks
look = record { tool = "ocr"; arguments = dict_end; purpose = "read" }

abbrev no_answer : AnswerAction
no_answer = record {
  status = insufficient_evidence;
  answer = "Nothing is visible.";
  evidence = [];
  uncertainties = [];
}

-- the world is the number of decisions that were made
abbrev script : ℕ → PolicyAction ticks
script zero = calls_tool look
script (suc zero) = calls_tool look
script (suc (suc n)) = gives_answer no_answer

abbrev host : Host plain ticks
host = record {
  World = ℕ;
  Trace = ℕ;
  clock = λ (w : ℕ). (integer (pos 6), w);
  has_policy = true;
  accepts_input = λ i. true;
  next_action = λ i seconds (w : ℕ). (decides (script w), suc w);
  prompt_version = none;
  degradations = λ w. [];
  specs = [];
  validate_arguments = λ action.
      some (record { asset_id = some "img_aaaaaaaaaaaaaaaa"; rows = none; columns = none });
  execute = λ action visible assets observations w. (
    record {
      uses = reserves (integer (pos 1)) (integer (pos 6)) ∷ [];
      outcome =
          returns (record {
            assets = [];
            warnings = [];
            mark_mappings = [];
            source_observation_ids = [];
          });
      perception = none;
    },
    w,
  );
  finish = λ status w. (w, w);
  trace_warnings = λ w. [];
  max_identical_actions = 1;
  writer = record {
    dumps = λ value. 123 ∷ 125 ∷ [];
    dump_payload = λ payload. dict_end;
    dump_region = λ region. json_null;
    dump_warning = λ warning. json_null;
    text_value = λ text. json_null;
  };
  strip = λ text. text;
  score = λ question n o. 0;
  raw_decode = λ text. none;
  casefold = λ text. text;
  sha256 = λ text. text;
  canonical = λ action. action.tool;
  dump_answer = λ action. action.answer;
  is_safe_code = λ code. true;
}

abbrev image_limits : ImageLimits
image_limits = record { max_input_bytes = 100; max_pixels = 20; max_width = 9; max_height = 9 }

abbrev root : ImageAsset ticks
root = record {
  id = "img_aaaaaaaaaaaaaaaa";
  width = 4;
  height = 3;
  mode = "RGB";
  original_format = none;
  digest_sha256 = "aaaaaaaaaaaaaaaa";
  parent_id = none;
  derivation_depth = 0;
  transform = none;
}

abbrev assets : AssetStore plain ticks
assets = record {
  image_limits = image_limits;
  run_limits = limits;
  records =
      (
        "img_aaaaaaaaaaaaaaaa",
        record { asset = root; image = tt; canonical_png = "aaaaaaaaaaaaaaaa" },
      )
      ∷ [];
  digest_ids = ("aaaaaaaaaaaaaaaa", "img_aaaaaaaaaaaaaaaa") ∷ [];
  root_id = "img_aaaaaaaaaaaaaaaa";
  closed = false;
}

assets_built : init plain tt none image_limits limits none none ≡ ok assets
unfolding init
assets_built = refl

assets-IsValid : AssetValid.IsValid assets
unfolding apply_all
assets-IsValid = asset_run-IsValid tt none image_limits limits none none assets [] assets_built

observations-IsValid : ObservationValid.IsValid {F = ticks} ObservationMethods.empty
unfolding ObservationRuns.apply_all
observations-IsValid = ObservationRuns.store_run-IsValid []

abbrev start : Session host
start = record {
  budget = record {
    limits = limits;
    started = 5;
    timeout_s = 120;
    deadline = 125;
    usage = record {
      steps = 0;
      llm_calls = 0;
      tool_calls = 0;
      backend_calls = 0;
      derived_assets = 0;
    };
  };
  observations = ObservationMethods.empty;
  assets = assets;
  previous_answer_observation_ids = [];
  world = 0;
}

start-IsSafe : IsSafe limits 0 start
start-IsSafe = record {
  within = record {
    same_limits = refl;
    steps = omega arith;
    llm_calls = omega arith;
    tool_calls = omega arith;
    backend_calls = omega arith;
    derived_assets = omega arith;
  };
  taken = omega arith;
  observed = observations-IsValid;
  owned = assets-IsValid;
}

-- `"What is this?"` by its first letter
abbrev question : Text
question = 87 ∷ []

-- the second call of the tool is blocked, and the third decision answers
asked : Option (Result (VisionAnswer ticks ℕ) × Session host)
unfolding program
asked = ask question [] [] start

summary : Option (Result (VisionAnswer ticks ℕ) × Session host) → List ℕ
summary (some (ok a, s)) =
    length a.warnings
    ∷ s.budget.steps
    ∷ s.budget.llm_calls
    ∷ s.budget.tool_calls
    ∷ s.budget.backend_calls
    ∷ length s.observations.observations
    ∷ []
summary r = []

ask-IsAnswered_example :
    (r : Result (VisionAnswer ticks ℕ)) × (s : Session host) × (ask question [] [] start
      ≡ some (r, s))
    × IsAnswered limits 0 r s
ask-IsAnswered_example = ask-IsAnswered limits question [] [] start start-IsSafe

asked-summary : summary asked ≡ 2 ∷ 3 ∷ 3 ∷ 0 ∷ 0 ∷ 2 ∷ []
unfolding asked summary ObservationMethods.prepare is_snake_name is_asset_id observation_id
asked-summary = refl

-- a context that shows the root
abbrev context : CompiledContext
context = record {
  text = question;
  visible_observation_ids = [];
  omitted_observation_ids = [];
  visible_asset_ids = "img_aaaaaaaaaaaaaaaa" ∷ [];
  omission_counts = [];
}

-- what a run's first round leaves: the turn and the session
abbrev turn_after : Option (Result (Ended ticks ℕ) × Session host) → Turn ticks
turn_after (some (ok (goes_on t), s)) = t
turn_after o = first_turn [] [] "img_aaaaaaaaaaaaaaaa"

abbrev session_after : {A : Type 0} → Option (Result A × Session host) → Session host
session_after none = start
session_after (some (r, s)) = s

abbrev clock_read : Session host
clock_read = session_after (may_go_on start)

abbrev turn : Turn ticks
turn = turn_after (ask_round question (first_turn [] [] "img_aaaaaaaaaaaaaaaa") clock_read)

abbrev session : Session host
session = session_after (ask_round question (first_turn [] [] "img_aaaaaaaaaaaaaaaa") clock_read)
