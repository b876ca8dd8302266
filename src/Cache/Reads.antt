-- ===== src/Cache/Reads.antt =====
-- What can be read from a `MemoryLRUCache` after a call.
use penampakan.Base.{
  ℕ, suc, ◌≤◌, ◌<◌, String, ◌≡◌, ◌≢◌, refl, ap, ◌∙◌, Bool, true, false, ◌⊎◌, inl, inr, some, [],
  ◌∷◌, ◌++◌, arith, length, Bool-cases, Option-cases, eq_iff,
}
use native.Mathlib.Decide.{dec_le}
use penampakan.Base.Int.{pos}
use penampakan.Base.Floats.{Arg, integer}
use penampakan.Base.Result.{ok, Result-cases}
use penampakan.Base.Dict.{
  Dict, lookup, without, Absent, lookup-without, lookup-append, IsUnique, IsUnique-without,
  IsUnique-append_one, Absent-without_self,
}
use penampakan.Cache.{MemoryLruCache, CacheEntry, Bytes, get, set, write, validate_key, move_to_end}
use penampakan.Cache.Evict.{
  newest_fitting, fits, newest_fitting-append_one, newest_fitting_longest, lookup-newest_fitting,
}
use penampakan.Cache.Valid.{IsValid, after_write, with_entry, write_lem}
use penampakan.Cache.Set.{set-write, write_closed, write_oversized}
use penampakan.Cache.Get.{validate_key_same, get_hit, get_miss, get_closed, get_invalid}

-- `set` with arguments that it accepts
set_lem :
    (F : Type 0) (is_json : Bytes → Bool) (key : String) (value : Bytes) (n : ℕ)
    (c : MemoryLruCache)
    → validate_key key ≡ ok key
    → is_json value ≡ true
    → length value ≡ suc n
    → set {F = F} is_json key value (integer (pos (suc n))) c ≡ write key value (length value) c
unfolding set
set_lem F is_json key value n c k j h = ground arith

lookup-with_entry :
    (key : String) (e : CacheEntry) (c : MemoryLruCache)
    → 0 < c.max_entries
    → e.size ≤ c.max_bytes
    → lookup key (newest_fitting c.max_entries c.max_bytes (with_entry key e c)) ≡ some e
lookup-with_entry key e c m h =
    newest_fitting-append_one c.max_entries c.max_bytes (without key c.entries) key e (ground arith)
      (Absent-without_self key c.entries)

-- On a valid, open cache, a value that was set with its true size, and that fits the byte limit, is
-- what the next `get` of its key returns, whatever was evicted.
pub get-set_self :
    (F : Type 0) (is_json : Bytes → Bool) (key : String) (value : Bytes) (n : ℕ)
    (c : MemoryLruCache)
    → IsValid c
    → c.closed ≡ false
    → validate_key key ≡ ok key
    → is_json value ≡ true
    → length value ≡ suc n
    → length value ≤ c.max_bytes
    → (get key (set {F = F} is_json key value (integer (pos (suc n))) c).1).0 ≡ ok (some value)
get-set_self F is_json key value n c v o k j h fit =
    rw (set_lem F is_json key value n c k j h, write_lem key value (length value) c v o fit)
      (ap (λ r. r.0)
        (get_hit key (after_write key value (length value) c)
          (record { value = value; size = length value }) k o
          (lookup-with_entry key _ c v.entries_positive fit)))

lookup-move_to_end :
    (j key : String) (e : CacheEntry) (d : Dict CacheEntry)
    → lookup key d ≡ some e
    → lookup j (move_to_end key e d) ≡ lookup j d
unfolding lookup
lookup-move_to_end j key e d h =
    ground
      (arith, lookup-append j (without key d) ((key, e) ∷ []), lookup-without key j d, eq_iff key j)

-- what `get` returns turns on the flag and the entry alone
get_congr :
    (j : String) (c d : MemoryLruCache)
    → c.closed ≡ d.closed
    → lookup j c.entries ≡ lookup j d.entries
    → (get j c).0 ≡ (get j d).0
unfolding get
get_congr j c d h k = ground arith

-- A `get` changes what no later `get` returns, of its own key or of another.
pub get-get : (j key : String) (c : MemoryLruCache) → (get j (get key c).1).0 ≡ (get j c).0
get-get j key c = elim (Result-cases (validate_key key)) [
  | inr bad ↦ rw (get_invalid key c bad)
  | inl (k, good) ↦ elim (Bool-cases c.closed) [
    | inl closed ↦ rw (get_closed key c closed)
    | inr open_now ↦ elim (Option-cases (lookup key c.entries)) [
      | inl miss ↦ rw (get_miss key c miss)
      | inr (e, hit) ↦
          let same : k ≡ key = validate_key_same key good in
          rw (get_hit key c e (rw same at good) open_now hit) (
            get_congr j (record c { entries = move_to_end key e c.entries }) c refl
              (lookup-move_to_end j key e c.entries hit))
    ]
  ]
]

lookup-with_entry_ne :
    (j key : String) (e : CacheEntry) (c : MemoryLruCache)
    → j ≢ key
    → lookup j (with_entry key e c) ≡ lookup j c.entries
unfolding lookup
lookup-with_entry_ne j key e c h = ground (
  arith,
  lookup-append j (without key c.entries) ((key, e) ∷ []),
  lookup-without key j c.entries,
  eq_iff key j,
)

-- what `get` returns is unchanged, or is a miss
abbrev pub SameOrMiss : String → MemoryLruCache → MemoryLruCache → Type 0
SameOrMiss j c d = ((get j d).0 ≡ (get j c).0) ⊎ Absent j d.entries

with_entry-IsUnique :
    (key : String) (e : CacheEntry) (c : MemoryLruCache) → IsValid c → IsUnique (with_entry key e c)
with_entry-IsUnique key e c v =
    IsUnique-append_one key e (without key c.entries) (IsUnique-without key c.entries v.unique)
      (Absent-without_self key c.entries)

write-SameOrMiss :
    (j key : String) (value : Bytes) (size : ℕ) (c : MemoryLruCache)
    → IsValid c
    → j ≢ key
    → SameOrMiss j c (write key value size c).1
write-SameOrMiss j key value size c v h = elim (Bool-cases c.closed) [
  | inl closed ↦ rw (write_closed key value size c closed) (inl refl)
  | inr open_now ↦ elim (dec_le size c.max_bytes) [
    | no large ↦ rw (write_oversized key value size c (omega arith)) (inl refl)
    | yes small ↦
        let e : CacheEntry = record { value = value; size = size } in
        rw (write_lem key value size c v open_now small)
          (elim (lookup-newest_fitting c.max_entries c.max_bytes j (with_entry key e c)
            (with_entry-IsUnique key e c v)) [
              | inl same ↦ inl (
                  get_congr j (after_write key value size c) c refl
                    (same ∙ lookup-with_entry_ne j key e c h))
              | inr gone ↦ inr gone
            ])
  ]
]

-- A `set`, accepted, ignored or refused, changes the value of no other key of a valid cache: a later
-- `get` of another key returns what it would have returned, or its entry was evicted.
pub get-set_ne :
    (F : Type 0) (is_json : Bytes → Bool) (j key : String) (value : Bytes) (size : Arg F)
    (c : MemoryLruCache)
    → IsValid c
    → j ≢ key
    → SameOrMiss j c (set is_json key value size c).1
get-set_ne F is_json j key value size c v h = elim (set-write is_json key value size c) [
  | inl e ↦ rw e (write-SameOrMiss j key value (length value) c v h)
  | inr e ↦ rw e (inl refl)
]

-- An accepted write evicts no more than it must: every end of the entries, oldest first, with the
-- new one last, that fits both limits is no longer than what the cache keeps.
pub write_keeps_longest :
    (key : String) (value : Bytes) (size : ℕ) (c : MemoryLruCache) (front back : Dict CacheEntry)
    → IsValid c
    → c.closed ≡ false
    → size ≤ c.max_bytes
    → with_entry key (record { value = value; size = size }) c ≡ front ++ back
    → fits c.max_entries c.max_bytes back ≡ true
    → length back ≤ length (write key value size c).1.entries
write_keeps_longest key value size c front back v o h e f =
    rw (write_lem key value size c v o h, e)
      (newest_fitting_longest c.max_entries c.max_bytes front back f)
