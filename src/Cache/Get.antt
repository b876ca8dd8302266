-- ===== src/Cache/Get.antt =====
-- `get` of a `MemoryLRUCache`: the entry that it makes the newest, and the invariant after it.
use penampakan.Base.{
  All-append, String, ◌≡◌, true, false, inl, inr, some, [], ◌∷◌, arith, Bool-cases, Option-cases,
  length-append,
}
use penampakan.Base.Errors.{Error}
use penampakan.Base.Result.{ok, raised, Result-cases}
use penampakan.Base.Dict.{
  lookup, without, Absent, Absent-without_self, IsUnique-without, IsUnique-append_one,
}
use penampakan.Cache.{MemoryLruCache, CacheEntry, get, validate_key, move_to_end}
use penampakan.Cache.Valid.{
  IsValid, IsAccounted, lookup-IsAccounted, All-without, total_size-without, total_size-append,
  length-without_present,
}

promoted-IsValid :
    (key : String) (e : CacheEntry) (c : MemoryLruCache)
    → IsValid c
    → lookup key c.entries ≡ some e
    → c.closed ≡ false
    → IsValid (record c { entries = move_to_end key e c.entries })
promoted-IsValid key e c v h o = record {
  unique =
      IsUnique-append_one key e (without key c.entries) (IsUnique-without key c.entries v.unique)
        (Absent-without_self key c.entries);
  total = ground (
    arith,
    total_size-append (without key c.entries) ((key, e) ∷ []),
    total_size-without key c.entries v.unique,
    v.total,
  );
  count = ground (
    arith,
    length-append (without key c.entries) ((key, e) ∷ []),
    length-without_present key c.entries e h,
    v.count,
  );
  bytes = v.bytes;
  entries_positive = v.entries_positive;
  bytes_positive = v.bytes_positive;
  accounted =
      All-append IsAccounted (without key c.entries) ((key, e) ∷ [])
        (All-without IsAccounted key c.entries v.accounted)
        (lookup-IsAccounted key c.entries e v.accounted h, tt);
  released = λ closed. absurd (ground arith);
}

-- `get` returns the value of an open cache's entry and makes the entry the newest; otherwise it
-- changes nothing.
pub get_hit :
    (key : String) (c : MemoryLruCache) (e : CacheEntry)
    → validate_key key ≡ ok key
    → c.closed ≡ false
    → lookup key c.entries ≡ some e
    → get key c ≡ (ok (some e.value), record c { entries = move_to_end key e c.entries })
unfolding get
get_hit key c e k o h = ground arith

pub get_miss : (key : String) (c : MemoryLruCache) → Absent key c.entries → (get key c).1 ≡ c
unfolding get
get_miss key c h = ground arith

pub get_closed : (key : String) (c : MemoryLruCache) → c.closed ≡ true → (get key c).1 ≡ c
unfolding get
get_closed key c h = ground arith

pub get_invalid :
    (key : String) (c : MemoryLruCache)
    → (e : Error) × (validate_key key ≡ raised e)
    → (get key c).1 ≡ c
unfolding get
get_invalid key c (e, h) = ground arith

pub validate_key_same : (key : String) {k : String} → validate_key key ≡ ok k → k ≡ key
unfolding validate_key
validate_key_same key h = ground arith

pub get-IsValid : (key : String) (c : MemoryLruCache) → IsValid c → IsValid (get key c).1
get-IsValid key c v = elim (Result-cases (validate_key key)) [
  | inr bad ↦ rw (get_invalid key c bad) v
  | inl (k, good) ↦ elim (Bool-cases c.closed) [
    | inl closed ↦ rw (get_closed key c closed) v
    | inr open_now ↦ elim (Option-cases (lookup key c.entries)) [
      | inl miss ↦ rw (get_miss key c miss) v
      | inr (e, hit) ↦
          let same : k ≡ key = validate_key_same key good in
          rw (get_hit key c e (rw same at good) open_now hit)
            (promoted-IsValid key e c v hit open_now)
    ]
  ]
]
