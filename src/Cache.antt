-- ===== src/Cache.antt =====
-- src/penampakan/perception/cache.py: the process-local caches of perception results. Every method
-- of `MemoryLRUCache` runs under the cache's lock without awaiting, so it is one step on the state.
-- The JSON decoder is not this program's: whether bytes are strict JSON is the parameter `is_json`.
pub mod Evict
pub mod Valid
pub mod Set
pub mod Get
mod Keeps
mod Reads
pub mod Null
mod Json
mod Tests
use penampakan.Base.{
  ℕ, zero, suc, ◌+◌, ◌-◌, String, Bool, true, false, ◌||◌, not, Option, none, some, List, [], ◌∷◌,
  ◌++◌, ltb, ◌==◌, length, if◌then◌else◌,
}
use penampakan.Base.Int.{ℤ, pos, negsuc}
use penampakan.Base.Floats.{Arg, integer}
use penampakan.Base.Errors.{Error, value_error, key_error, penampakan_error}
use penampakan.Base.Result
use penampakan.Base.Result.{Result, ok, raised, require, reject}
use penampakan.Base.Exec.{Exec, pure, lift, gets, modify, reject_when, ◌>>=◌, ◌>>◌}
use penampakan.Base.Dict.{Dict, lookup, without, insert}
use penampakan.Base.Texts.{has_nul, is_empty}

abbrev pub Bytes : Type 0
Bytes = List ℕ

-- `CacheStats` of models.py
pub record CacheStats : Type 0 where
  pub entry_count : ℕ
  pub total_bytes : ℕ
  pub max_entries : ℕ
  pub max_bytes : ℕ
  pub removed_entries : ℕ
  pub removed_bytes : ℕ

-- `validate_positive_limit`
unfoldable pub validate_positive_limit : {F : Type 0} → Arg F → Result ℕ
validate_positive_limit (integer (pos (suc n))) = ok (suc n)
validate_positive_limit _ = raised value_error

-- `validate_accounted_size`
unfoldable pub validate_accounted_size : {F : Type 0} → Arg F → Bytes → Result ℕ
unfolding validate_positive_limit
validate_accounted_size size value =
    Result.◌>>=◌ (validate_positive_limit size)
      λ accounted. Result.◌>>◌ (require (accounted == length value) value_error) (ok (length value))

-- `validate_key`, of a text
unfoldable pub validate_key : String → Result String
validate_key key = Result.◌>>◌ (reject (is_empty key || has_nul key) value_error) (ok key)

-- `validate_json_bytes`, of bytes: `is_json` is what Json's `is_strict_json` makes of a decoder
unfoldable pub validate_json_bytes : (Bytes → Bool) → Bytes → Result Bytes
validate_json_bytes is_json value = Result.◌>>◌ (require (is_json value) value_error) (ok value)

-- `_closed_cache_error`
abbrev pub cache_closed : Error
cache_closed = penampakan_error "cache_closed"

-- `_CacheEntry`
pub record CacheEntry : Type 0 where
  pub value : Bytes
  pub size : ℕ

-- `MemoryLRUCache`: the ordered dictionary holds the least recently used entry first. The total is
-- an `int` that is decreased only by sizes that it counts.
pub record MemoryLruCache : Type 0 where
  pub entries : Dict CacheEntry
  pub total_bytes : ℕ
  pub max_entries : ℕ
  pub max_bytes : ℕ
  pub closed : Bool

unfoldable pub init : {F : Type 0} → Arg F → Arg F → Result MemoryLruCache
unfolding validate_positive_limit
init max_entries max_bytes = Result.◌>>=◌ (validate_positive_limit max_entries) λ entries.
    Result.◌>>=◌ (validate_positive_limit max_bytes) λ bytes. ok (record {
      entries = [];
      total_bytes = 0;
      max_entries = entries;
      max_bytes = bytes;
      closed = false;
    })

-- The `while` loop of `_evict` over the entries and the total, with what it has removed so far.
-- `popitem` of an empty dictionary raises `KeyError`.
unfoldable pub evict_loop :
    ℕ → ℕ → Dict CacheEntry → ℕ → ℕ → ℕ → Result (ℕ × ℕ) × (Dict CacheEntry × ℕ)
evict_loop max_entries max_bytes [] total removed_entries removed_bytes =
    if ltb max_bytes total
    then (raised key_error, ([], total))
    else (ok (removed_entries, removed_bytes), ([], total))
evict_loop max_entries max_bytes ((k, e) ∷ entries) total removed_entries removed_bytes =
    let rest =
      evict_loop max_entries max_bytes entries (total - e.size) (removed_entries + 1)
        (removed_bytes + e.size) in
    if ltb max_entries (length ((k, e) ∷ entries)) || ltb max_bytes total
    then rest
    else (ok (removed_entries, removed_bytes), ((k, e) ∷ entries, total))

-- `_evict`
unfoldable pub evict : Exec MemoryLruCache (ℕ × ℕ)
evict c =
    let (result, left) = evict_loop c.max_entries c.max_bytes c.entries c.total_bytes 0 0 in
    (result, record c { entries = left.0; total_bytes = left.1 })

-- `_snapshot`
abbrev pub snapshot : ℕ → ℕ → MemoryLruCache → CacheStats
snapshot removed_entries removed_bytes c = record {
  entry_count = length c.entries;
  total_bytes = c.total_bytes;
  max_entries = c.max_entries;
  max_bytes = c.max_bytes;
  removed_entries = removed_entries;
  removed_bytes = removed_bytes;
}

-- `move_to_end`
abbrev pub move_to_end : String → CacheEntry → Dict CacheEntry → Dict CacheEntry
move_to_end key e entries = without key entries ++ (key, e) ∷ []

-- the body of `get` under the lock, from what `self._entries.get(key)` found
promote : String → Option CacheEntry → Exec MemoryLruCache (Option Bytes)
promote key none c = (ok none, c)
promote key (some e) c = (ok (some e.value), record c { entries = move_to_end key e c.entries })

unfoldable pub get : String → Exec MemoryLruCache (Option Bytes)
unfolding validate_key promote
get key = do
  valid ← lift (validate_key key)
  λ c. if c.closed then (ok none, c) else promote key (lookup key c.entries) c

-- what `self._entries.pop(key, None)` takes off the total
abbrev pub replaced_size : Option CacheEntry → ℕ
replaced_size none = 0
replaced_size (some e) = e.size

-- the write of `set`, before the eviction
unfoldable pub store : String → Bytes → ℕ → MemoryLruCache → MemoryLruCache
store key value size c = record c {
  entries = insert key (record { value = value; size = size }) (without key c.entries);
  total_bytes = c.total_bytes - replaced_size (lookup key c.entries) + size;
}

-- the body of `set` under the lock
unfoldable pub write : String → Bytes → ℕ → Exec MemoryLruCache (Unit {0})
unfolding store evict
write key value size c =
    if c.closed
    then (ok tt, c)
    else if ltb c.max_bytes size
    then (ok tt, c)
    else (evict >>= λ _. pure tt) (store key value size c)

unfoldable pub set :
    {F : Type 0} → (Bytes → Bool) → String → Bytes → Arg F → Exec MemoryLruCache (Unit {0})
unfolding validate_key validate_json_bytes validate_accounted_size
set is_json key value size = do
  valid ← lift (validate_key key)
  copied ← lift (validate_json_bytes is_json value)
  accounted ← lift (validate_accounted_size size copied)
  write key copied accounted

unfoldable pub aclose : Exec MemoryLruCache (Unit {0})
aclose c =
    if c.closed
    then (ok tt, c)
    else (ok tt, record c { closed = true; entries = []; total_bytes = 0 })

abbrev pub require_open : Exec MemoryLruCache (Unit {0})
require_open = reject_when (λ c. c.closed) cache_closed

unfoldable pub stats : Exec MemoryLruCache CacheStats
stats = do require_open; gets (snapshot 0 0)

unfoldable pub clear : Exec MemoryLruCache (Unit {0})
clear = do require_open; modify (λ c. record c { entries = []; total_bytes = 0 })

unfoldable pub prune : Exec MemoryLruCache CacheStats
unfolding evict
prune = do require_open; removed ← evict; gets (snapshot removed.0 removed.1)
