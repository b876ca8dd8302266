-- ===== src/Cache/Valid.antt =====
-- The invariant of `MemoryLRUCache`, and the writes that evict.
use penampakan.Base.{
  All, eq_iff, ℕ, ◌+◌, ◌-◌, ◌≤◌, ◌<◌, String, ◌≡◌, refl, true, false, inl, inr, some, [], ◌∷◌, ◌++◌,
  arith, length, Bool-cases, str_eq,
}
use penampakan.Base.Result.{ok}
use penampakan.Base.Dict.{
  Dict, lookup, without, IsUnique, without-Absent, insert-Absent, Absent-without_self,
}
use penampakan.Cache.{MemoryLruCache, CacheEntry, Bytes, write, evict, store, replaced_size}
use penampakan.Cache.Evict.{
  total_size, newest_fitting, newest_fitting-fits, All-newest_fitting, IsUnique-newest_fitting,
  evict_loop-newest_fitting,
}

abbrev pub IsAccounted : String × CacheEntry → Type 0
IsAccounted x = x.1.size ≡ length x.1.value

pub record IsValid (c : MemoryLruCache) : Type 0 where
  pub unique : IsUnique c.entries
  pub total : c.total_bytes ≡ total_size c.entries
  pub count : length c.entries ≤ c.max_entries
  pub bytes : c.total_bytes ≤ c.max_bytes
  pub entries_positive : 0 < c.max_entries
  pub bytes_positive : 0 < c.max_bytes
  pub accounted : All IsAccounted c.entries
  pub released : c.closed ≡ true → c.entries ≡ []

pub total_size-without :
    (k : String) (d : Dict CacheEntry)
    → IsUnique d
    → total_size (without k d) + replaced_size (lookup k d) ≡ total_size d
unfolding without lookup
total_size-without k [] u = omega arith
total_size-without k ((i, e) ∷ d) u =
    ground (arith, total_size-without k d u.1, eq_iff i k, without-Absent k d)

pub total_size-append : (d f : Dict CacheEntry) → total_size (d ++ f) ≡ total_size d + total_size f
total_size-append [] f = omega arith
total_size-append (x ∷ d) f = omega (arith, total_size-append d f)

length-without-le : (k : String) (d : Dict CacheEntry) → length (without k d) ≤ length d
unfolding without
length-without-le k [] = omega arith
length-without-le k ((i, e) ∷ d) = ground (arith, length-without-le k d)

pub length-without_present :
    (k : String) (d : Dict CacheEntry) (e : CacheEntry)
    → lookup k d ≡ some e
    → length (without k d) + 1 ≤ length d
unfolding without lookup
length-without_present k [] e h = absurd (ground arith)
length-without_present k ((i, w) ∷ d) e h =
    ground (arith, length-without_present k d e, length-without-le k d)

pub All-without :
    (P : String × CacheEntry → Type 0) (k : String) (d : Dict CacheEntry)
    → All P d
    → All P (without k d)
unfolding without
All-without P k [] h = tt
All-without P k ((i, e) ∷ d) h = elim (Bool-cases (str_eq i k)) [
  | inl b ↦ rw b (All-without P k d h.1)
  | inr b ↦ rw b (h.0, All-without P k d h.1)
]

pub lookup-IsAccounted :
    (k : String) (d : Dict CacheEntry) (e : CacheEntry)
    → All IsAccounted d
    → lookup k d ≡ some e
    → e.size ≡ length e.value
unfolding lookup
lookup-IsAccounted k [] e a h = absurd (ground arith)
lookup-IsAccounted k ((i, w) ∷ d) e a h = elim (Bool-cases (str_eq i k)) [
  | inl b ↦ let p : w ≡ e = ground arith in rw (← p) a.0
  | inr b ↦ lookup-IsAccounted k d e a.1 (ground arith)
]

-- what an eviction leaves of a cache whose total is right
abbrev pub evicted : MemoryLruCache → MemoryLruCache
evicted c = record c {
  entries = newest_fitting c.max_entries c.max_bytes c.entries;
  total_bytes = total_size (newest_fitting c.max_entries c.max_bytes c.entries);
}

pub evict_lem :
    (c : MemoryLruCache)
    → c.total_bytes ≡ total_size c.entries
    → evict c ≡ (
      ok (
        length c.entries - length (newest_fitting c.max_entries c.max_bytes c.entries),
        total_size c.entries - total_size (newest_fitting c.max_entries c.max_bytes c.entries),
      ),
      evicted c,
    )
unfolding evict
evict_lem c h =
    ground
      (arith, evict_loop-newest_fitting c.max_entries c.max_bytes c.entries c.total_bytes 0 0 h)

-- the entries and the total of a cache before an eviction
pub record IsWritten (c : MemoryLruCache) : Type 0 where
  pub unique : IsUnique c.entries
  pub entries_positive : 0 < c.max_entries
  pub bytes_positive : 0 < c.max_bytes
  pub accounted : All IsAccounted c.entries
  pub open_cache : c.closed ≡ false

pub evicted-IsValid : (c : MemoryLruCache) → IsWritten c → IsValid (evicted c)
evicted-IsValid c w =
    let (count, bytes) = newest_fitting-fits c.max_entries c.max_bytes c.entries in
    record {
      unique = IsUnique-newest_fitting c.max_entries c.max_bytes c.entries w.unique;
      total = refl;
      count = count;
      bytes = bytes;
      entries_positive = w.entries_positive;
      bytes_positive = w.bytes_positive;
      accounted = All-newest_fitting IsAccounted c.max_entries c.max_bytes c.entries w.accounted;
      released = λ h. absurd (ground arith);
    }

-- the entries after the write of `set`: the new one is the newest
abbrev pub with_entry : String → CacheEntry → MemoryLruCache → Dict CacheEntry
with_entry key e c = without key c.entries ++ (key, e) ∷ []

store_lem :
    (key : String) (value : Bytes) (size : ℕ) (c : MemoryLruCache)
    → IsValid c
    → store key value size c ≡ record c {
      entries = with_entry key (record { value = value; size = size }) c;
      total_bytes = total_size (with_entry key (record { value = value; size = size }) c);
    }
unfolding store
store_lem key value size c v =
    let e : CacheEntry = record { value = value; size = size } in
    ground (
      arith,
      insert-Absent key e (without key c.entries) (Absent-without_self key c.entries),
      total_size-append (without key c.entries) ((key, e) ∷ []),
      total_size-without key c.entries v.unique,
      v.total,
    )

-- the state after an accepted write
abbrev pub after_write : String → Bytes → ℕ → MemoryLruCache → MemoryLruCache
after_write key value size c =
    evicted (record c { entries = with_entry key (record { value = value; size = size }) c })

-- On a valid, open cache a write of a value that can fit puts it last and evicts the oldest.
pub write_lem :
    (key : String) (value : Bytes) (size : ℕ) (c : MemoryLruCache)
    → IsValid c
    → c.closed ≡ false
    → size ≤ c.max_bytes
    → write key value size c ≡ (ok tt, after_write key value size c)
unfolding write
write_lem key value size c v o h =
    ground (arith, store_lem key value size c v, evict_lem (store key value size c))
