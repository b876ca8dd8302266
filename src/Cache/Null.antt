-- ===== src/Cache/Null.antt =====
-- `NullCache` of src/penampakan/perception/cache.py: the cache that retains nothing. Its state is the
-- flag that it was closed.
use penampakan.Base.{String, ◌≡◌, ◌≢◌, Bool, true, Option, none, some, arith}
use penampakan.Base.Floats.{Arg}
use penampakan.Base.Result.{ok}
use penampakan.Base.Exec.{Exec, pure, lift, reject_when, ◌>>=◌, ◌>>◌}
use penampakan.Cache.{
  Bytes, CacheStats, validate_key, validate_json_bytes, validate_accounted_size, cache_closed,
}

pub record NullCache : Type 0 where
  pub closed : Bool

unfoldable pub get : String → Exec NullCache (Option Bytes)
get key = do valid ← lift (validate_key key); pure none

unfoldable pub set :
    {F : Type 0} → (Bytes → Bool) → String → Bytes → Arg F → Exec NullCache (Unit {0})
set is_json key value size = do
  valid ← lift (validate_key key)
  copied ← lift (validate_json_bytes is_json value)
  accounted ← lift (validate_accounted_size size value)
  pure tt

unfoldable pub aclose : Exec NullCache (Unit {0})
aclose c = (ok tt, record c { closed = true })

abbrev require_open : Exec NullCache (Unit {0})
require_open = reject_when (λ c. c.closed) cache_closed

-- the smallest limits that a cache may declare
abbrev empty_stats : CacheStats
empty_stats = record {
  entry_count = 0;
  total_bytes = 0;
  max_entries = 1;
  max_bytes = 1;
  removed_entries = 0;
  removed_bytes = 0;
}

unfoldable pub stats : Exec NullCache CacheStats
stats = do require_open; pure empty_stats

unfoldable pub clear : Exec NullCache (Unit {0})
clear = require_open

unfoldable pub prune : Exec NullCache CacheStats
unfolding stats
prune = do require_open; stats

-- A `set`, accepted or refused, leaves nothing behind: every later `get`, of the same key or another,
-- has the result and the state that it would have had before, and does not return the value.
get-set_null :
    (F : Type 0) (is_json : Bytes → Bool) (j key : String) (value : Bytes) (size : Arg F)
    (c : NullCache)
    → (get j (set is_json key value size c).1 ≡ get j c) × ((get j c).0 ≢ ok (some value))
unfolding get set
get-set_null F is_json j key value size c = (ground arith, ground arith)
