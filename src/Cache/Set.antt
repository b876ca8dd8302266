-- ===== src/Cache/Set.antt =====
-- `set` of a `MemoryLRUCache`: what it writes, what it ignores, and the invariant after it.
use penampakan.Base.{
  All-append, ℕ, ◌<◌, String, ◌≡◌, refl, Bool, true, false, ◌⊎◌, inl, inr, [], ◌∷◌, arith, length,
  Bool-cases,
}
use native.Mathlib.Decide.{dec_le}
use penampakan.Base.Floats.{Arg}
use penampakan.Base.Errors.{value_error}
use penampakan.Base.Result.{ok, raised}
use penampakan.Base.Dict.{without, Absent-without_self, IsUnique-without, IsUnique-append_one}
use penampakan.Cache.{MemoryLruCache, CacheEntry, Bytes, set, write}
use penampakan.Cache.Valid.{
  IsValid, IsAccounted, IsWritten, evicted-IsValid, with_entry, write_lem, All-without,
}

with_entry-IsWritten :
    (key : String) (value : Bytes) (c : MemoryLruCache)
    → IsValid c
    → c.closed ≡ false
    → IsWritten
        (record c { entries = with_entry key (record { value = value; size = length value }) c })
with_entry-IsWritten key value c v o =
    let e : CacheEntry = record { value = value; size = length value } in
    record {
      unique =
          IsUnique-append_one key e (without key c.entries)
            (IsUnique-without key c.entries v.unique) (Absent-without_self key c.entries);
      entries_positive = v.entries_positive;
      bytes_positive = v.bytes_positive;
      accounted =
          All-append IsAccounted (without key c.entries) ((key, e) ∷ [])
            (All-without IsAccounted key c.entries v.accounted) (refl, tt);
      open_cache = o;
    }

-- a closed cache ignores a write
pub write_closed :
    (key : String) (value : Bytes) (size : ℕ) (c : MemoryLruCache)
    → c.closed ≡ true
    → write key value size c ≡ (ok tt, c)
unfolding write
write_closed key value size c h = ground arith

-- a value that can never fit changes nothing
pub write_oversized :
    (key : String) (value : Bytes) (size : ℕ) (c : MemoryLruCache)
    → c.max_bytes < size
    → write key value size c ≡ (ok tt, c)
unfolding write
write_oversized key value size c h = ground arith

write-IsValid :
    (key : String) (value : Bytes) (c : MemoryLruCache)
    → IsValid c
    → IsValid (write key value (length value) c).1
write-IsValid key value c v = elim (Bool-cases c.closed) [
  | inl closed ↦ rw (write_closed key value (length value) c closed) v
  | inr open_now ↦ elim (dec_le (length value) c.max_bytes) [
    | yes small ↦
        rw (write_lem key value (length value) c v open_now small)
          (evicted-IsValid _ (with_entry-IsWritten key value c v open_now))
    | no large ↦ rw (write_oversized key value (length value) c (omega arith)) v
  ]
]

module _ {F : Type 0} (is_json : Bytes → Bool) where
  -- `set` writes the value with its true size, or raises and changes nothing.
  pub set-write :
      (key : String) (value : Bytes) (size : Arg F) (c : MemoryLruCache)
      → (set is_json key value size c ≡ write key value (length value) c)
        ⊎ (set is_json key value size c ≡ (raised value_error, c))
  unfolding set
  set-write key value size c = ground arith

  pub set-IsValid :
      (key : String) (value : Bytes) (size : Arg F) (c : MemoryLruCache)
      → IsValid c
      → IsValid (set is_json key value size c).1
  set-IsValid key value size c v = elim (set-write key value size c) [
    | inl e ↦ rw e (write-IsValid key value c v)
    | inr e ↦ rw e v
  ]
