-- ===== src/Cache/Evict.antt =====
-- The loop of `_evict`: what it keeps, against a definition that measures each rest from scratch.
use penampakan.Base.{
  All, eq_iff, ℕ, ◌+◌, ◌-◌, ◌≤◌, String, ◌≡◌, refl, Bool, true, ◌⊎◌, inl, inr, some, [], ◌∷◌, ◌++◌,
  arith, leb, length, Bool-cases, length-append, if◌then◌else◌, ◌&&◌,
}
use penampakan.Base.Result.{ok}
use penampakan.Base.Dict.{Dict, lookup, Absent, IsUnique, lookup-append}
use penampakan.Cache.{CacheEntry, evict_loop}

-- the accounted sizes of the entries
abbrev pub total_size : Dict CacheEntry → ℕ
total_size [] = 0
total_size ((k, e) ∷ d) = e.size + total_size d

abbrev pub fits : ℕ → ℕ → Dict CacheEntry → Bool
fits max_entries max_bytes d = leb (length d) max_entries && leb (total_size d) max_bytes

-- The most recently used entries that fit both limits: the longest such end of the list.
unfoldable pub newest_fitting : ℕ → ℕ → Dict CacheEntry → Dict CacheEntry
newest_fitting max_entries max_bytes [] = []
newest_fitting max_entries max_bytes (x ∷ d) =
    let rest = newest_fitting max_entries max_bytes d in
    if fits max_entries max_bytes (x ∷ d) then x ∷ d else rest

pub newest_fitting-fits :
    (m n : ℕ) (d : Dict CacheEntry)
    → (length (newest_fitting m n d) ≤ m) × (total_size (newest_fitting m n d) ≤ n)
unfolding newest_fitting
newest_fitting-fits m n [] = omega arith
newest_fitting-fits m n (x ∷ d) = ground (arith, newest_fitting-fits m n d)

length-newest_fitting-le :
    (m n : ℕ) (d : Dict CacheEntry) → length (newest_fitting m n d) ≤ length d
unfolding newest_fitting
length-newest_fitting-le m n [] = omega arith
length-newest_fitting-le m n (x ∷ d) = ground (arith, length-newest_fitting-le m n d)

total_size-newest_fitting-le :
    (m n : ℕ) (d : Dict CacheEntry) → total_size (newest_fitting m n d) ≤ total_size d
unfolding newest_fitting
total_size-newest_fitting-le m n [] = omega arith
total_size-newest_fitting-le m n (x ∷ d) = ground (arith, total_size-newest_fitting-le m n d)

-- no end of the list that fits is longer
pub newest_fitting_longest :
    (m n : ℕ) (front back : Dict CacheEntry)
    → fits m n back ≡ true
    → length back ≤ length (newest_fitting m n (front ++ back))
unfolding newest_fitting
newest_fitting_longest m n [] [] h = omega arith
newest_fitting_longest m n [] (x ∷ d) h = ground arith
newest_fitting_longest m n (x ∷ front) back h =
    ground (arith, newest_fitting_longest m n front back h, length-append front back)

-- The loop, started with the entries' own total, never raises. It keeps the newest entries that fit
-- and their total, and reports the number and the size of the others.
pub evict_loop-newest_fitting :
    (m n : ℕ) (d : Dict CacheEntry) (total removed bytes : ℕ)
    → total ≡ total_size d
    → evict_loop m n d total removed bytes ≡ (
      ok (
        removed + (length d - length (newest_fitting m n d)),
        bytes + (total_size d - total_size (newest_fitting m n d)),
      ),
      (newest_fitting m n d, total_size (newest_fitting m n d)),
    )
unfolding evict_loop newest_fitting
evict_loop-newest_fitting m n [] total removed bytes h = ground arith
evict_loop-newest_fitting m n ((k, e) ∷ d) total removed bytes h = ground (
  arith,
  evict_loop-newest_fitting m n d (total - e.size) (removed + 1) (bytes + e.size) (omega arith),
  length-newest_fitting-le m n d,
  total_size-newest_fitting-le m n d,
)

-- what fits is kept whole
pub newest_fitting_all :
    (m n : ℕ) (d : Dict CacheEntry) → fits m n d ≡ true → newest_fitting m n d ≡ d
unfolding newest_fitting
newest_fitting_all m n [] h = refl
newest_fitting_all m n (x ∷ d) h = ground arith

-- A predicate on each entry's key and content, kept by every end of the list.
pub All-newest_fitting :
    (P : String × CacheEntry → Type 0) (m n : ℕ) (d : Dict CacheEntry)
    → All P d
    → All P (newest_fitting m n d)
unfolding newest_fitting
All-newest_fitting P m n [] h = tt
All-newest_fitting P m n (x ∷ d) h = elim (Bool-cases (fits m n (x ∷ d))) [
  | inl e ↦ rw e h
  | inr e ↦ rw e (All-newest_fitting P m n d h.1)
]

pub lookup-newest_fitting :
    (m n : ℕ) (k : String) (d : Dict CacheEntry)
    → IsUnique d
    → (lookup k (newest_fitting m n d) ≡ lookup k d) ⊎ Absent k (newest_fitting m n d)
unfolding newest_fitting lookup
lookup-newest_fitting m n k [] u = inl refl
lookup-newest_fitting m n k ((i, e) ∷ d) u =
    ground (arith, lookup-newest_fitting m n k d u.1, eq_iff i k, u.0)

pub IsUnique-newest_fitting :
    (m n : ℕ) (d : Dict CacheEntry) → IsUnique d → IsUnique (newest_fitting m n d)
unfolding newest_fitting
IsUnique-newest_fitting m n [] h = tt
IsUnique-newest_fitting m n ((k, e) ∷ d) h = elim (Bool-cases (fits m n ((k, e) ∷ d))) [
  | inl b ↦ rw b h
  | inr b ↦ rw b (IsUnique-newest_fitting m n d h.1)
]

-- the newest entry is kept if it fits by itself
pub newest_fitting-append_one :
    (m n : ℕ) (d : Dict CacheEntry) (k : String) (e : CacheEntry)
    → fits m n ((k, e) ∷ []) ≡ true
    → Absent k d
    → lookup k (newest_fitting m n (d ++ (k, e) ∷ [])) ≡ some e
unfolding newest_fitting lookup
newest_fitting-append_one m n [] k e h a = ground (arith, eq_iff k k)
newest_fitting-append_one m n ((i, w) ∷ d) k e h a = ground (
  arith,
  newest_fitting-append_one m n d k e h (ground arith),
  lookup-append k d ((k, e) ∷ []),
  eq_iff k k,
  eq_iff i k,
)
