-- ===== src/Assets/Tests.antt =====
-- A store with a root and two derivatives, and the theorems on stores at it. An image of the tests is
-- its own encoding, and the encoding its own digest.
use penampakan.Base.{
  ℕ, ◌+◌, ◌≡◌, refl, Bool, String, true, false, none, some, List, [], ◌∷◌, length, map, str_eq, All,
}
use penampakan.Base.Ticks.{ticks}
use penampakan.Base.Errors.{
  session_closed, asset_not_found, asset_limit_exceeded, derivation_depth_limit_exceeded,
  image_limit_exceeded,
}
use penampakan.Base.Result.{ok, raised}
use penampakan.Base.Dict.{lookup, insert}
use penampakan.Config.{RunLimits}
use penampakan.Models.{dict_end}
use penampakan.Assets.{
  Imaging, ImageLimits, ImageAsset, PendingAsset, PreparedAsset, AssetCommit, AssetStore, init,
  from_loaded,
}
use penampakan.Assets.Plan.{prepare_all, new_digests, asset_commit, derived_asset}
use penampakan.Assets.Commit.{commit, snapshot, snapshots, ensure_capacity, content, close}
use penampakan.Assets.Valid.{IsValid}
use penampakan.Assets.Runs.{op_commit, op_close, apply_all, asset_run-IsValid}
use penampakan.Assets.Rounds.{AnswersInOrder}
use penampakan.Assets.Snapshots.{snapshot-commit, commit-snapshot}

program : Unit {0}
unfolding init from_loaded commit snapshot snapshots ensure_capacity content close apply_all
    prepare_all new_digests asset_commit derived_asset lookup insert
program = tt

-- images named by their content, with a size
abbrev drawing : Imaging
drawing = record {
  Image = String × ℕ;
  Bytes = String;
  width = λ (i : String × ℕ). i.1;
  height = λ (i : String × ℕ). 2;
  mode = λ (i : String × ℕ). "RGB";
  encode = λ (i : String × ℕ). i.0;
  same_bytes = str_eq;
  digest = λ (b : String). b;
}

abbrev image_limits : ImageLimits
image_limits = record { max_input_bytes = 100; max_pixels = 20; max_width = 9; max_height = 9 }

abbrev limits : RunLimits ticks
limits = record {
  max_steps = 8;
  max_llm_calls = 10;
  max_tool_calls = 12;
  max_backend_calls = 16;
  max_derived_assets = 2;
  max_derivation_depth = 1;
  max_parallel_tools = 4;
  max_context_chars = 24000;
  max_ocr_chars_per_observation = 8000;
  default_timeout_s = 120;
  backend_timeout_s = 60;
  llm_timeout_s = 60;
}

abbrev pending : String → PendingAsset drawing ticks
pending name = record {
  image = (name, 3);
  transform = record { name = "rotate"; parameters = dict_end };
}

abbrev root : ImageAsset ticks
root = record {
  id = "img_aaaaaaaaaaaaaaaa";
  width = 4;
  height = 2;
  mode = "RGB";
  original_format = some "PNG";
  digest_sha256 = "aaaaaaaaaaaaaaaa";
  parent_id = none;
  derivation_depth = 0;
  transform = none;
}

abbrev turned : ImageAsset ticks
turned = record {
  id = "img_bbbbbbbbbbbbbbbb";
  width = 3;
  height = 2;
  mode = "RGB";
  original_format = none;
  digest_sha256 = "bbbbbbbbbbbbbbbbb";
  parent_id = some "img_aaaaaaaaaaaaaaaa";
  derivation_depth = 1;
  transform = some (record { name = "rotate"; parameters = dict_end });
}

abbrev started : AssetStore drawing ticks
started = record {
  image_limits = image_limits;
  run_limits = limits;
  records =
      (
        "img_aaaaaaaaaaaaaaaa",
        record {
          asset = root;
          image = ("aaaaaaaaaaaaaaaa", 4);
          canonical_png = "aaaaaaaaaaaaaaaa";
        },
      )
      ∷ [];
  digest_ids = ("aaaaaaaaaaaaaaaa", "img_aaaaaaaaaaaaaaaa") ∷ [];
  root_id = "img_aaaaaaaaaaaaaaaa";
  closed = false;
}

started_built :
    init drawing ("aaaaaaaaaaaaaaaa", 4) (some "PNG") image_limits limits none none ≡ ok started
unfolding program
started_built = refl

too_wide :
    init drawing ("aaaaaaaaaaaaaaaa", 10) none image_limits limits none none
    ≡ raised image_limit_exceeded
unfolding program
too_wide = refl

-- one image is new, one is the same again, and one is the root's
abbrev batch : List (PendingAsset drawing ticks)
batch = pending "bbbbbbbbbbbbbbbbb" ∷ pending "aaaaaaaaaaaaaaaa" ∷ pending "bbbbbbbbbbbbbbbbb" ∷ []

abbrev answer : ImageAsset ticks → Bool → AssetCommit ticks
answer asset reused = record {
  asset = asset;
  parent_id = "img_aaaaaaaaaaaaaaaa";
  transform = record { name = "rotate"; parameters = dict_end };
  reused = reused;
}

abbrev answers : List (AssetCommit ticks)
answers = answer turned false ∷ answer root true ∷ answer turned true ∷ []

committed : (commit root.id batch started).0 ≡ ok answers
unfolding program
committed = refl

two_records : length (commit root.id batch started).1.records ≡ 2
unfolding program
two_records = refl

no_parent : (commit "img_0" batch started).0 ≡ raised asset_not_found
unfolding program
no_parent = refl

too_deep :
    (commit turned.id batch (commit root.id batch started).1).0
    ≡ raised derivation_depth_limit_exceeded
unfolding program
too_deep = refl

too_many : (ensure_capacity root.id 3 started).0 ≡ raised asset_limit_exceeded
unfolding program
too_many = refl

closed_store : (snapshot root.id (close started).1).0 ≡ raised session_closed
unfolding program
closed_store = refl

asset_run-IsValid_example : IsValid (apply_all (op_commit root.id batch ∷ op_close ∷ []) started)
asset_run-IsValid_example =
    asset_run-IsValid ("aaaaaaaaaaaaaaaa", 4) (some "PNG") image_limits limits none none started
      (op_commit root.id batch ∷ op_close ∷ []) started_built

started-IsValid : IsValid started
unfolding apply_all
started-IsValid =
    asset_run-IsValid ("aaaaaaaaaaaaaaaa", 4) (some "PNG") image_limits limits none none started []
      started_built

root_shown : (snapshot root.id started).0 ≡ ok root
unfolding program
root_shown = refl

snapshot-commit_example : (snapshot root.id (commit root.id batch started).1).0 ≡ ok root
snapshot-commit_example =
    snapshot-commit root.id batch started root.id root started-IsValid root_shown

commit-snapshot_example :
    (prepared : List (PreparedAsset drawing ticks)) × (prepare_all image_limits batch ≡ ok prepared)
    × (map (λ (x : PreparedAsset drawing ticks). x.pending) prepared ≡ batch)
    × AnswersInOrder root.id answers prepared
    × All
        (λ (x : AssetCommit ticks).
          (snapshot x.asset.id (commit root.id batch started).1).0 ≡ ok x.asset)
        answers
    × (length (commit root.id batch started).1.records
        ≡ length started.records + length (new_digests started.digest_ids prepared))
commit-snapshot_example = commit-snapshot root.id batch started answers started-IsValid committed
