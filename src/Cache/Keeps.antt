-- ===== src/Cache/Keeps.antt =====
-- The invariant of a `MemoryLRUCache` over sequences of operations.
use penampakan.Base.{
  ap, ◌∙◌, String, ◌≡◌, refl, Bool, true, false, inl, inr, List, [], ◌∷◌, arith, Bool-cases,
}
use penampakan.Base.Floats.{Arg}
use penampakan.Base.Result.{ok, raised}
use penampakan.Cache.{
  MemoryLruCache, Bytes, init, get, set, aclose, stats, clear, prune, snapshot, cache_closed,
}
use penampakan.Cache.Set.{set-IsValid}
use penampakan.Cache.Get.{get-IsValid}
use penampakan.Cache.Evict.{fits, total_size, newest_fitting_all}
use penampakan.Cache.Valid.{IsValid, evict_lem}

-- an emptied cache, closed or not
emptied :
    (c : MemoryLruCache) (closed : Bool)
    → IsValid c
    → IsValid (record c { closed = closed; entries = []; total_bytes = 0 })
emptied c closed v = record {
  unique = tt;
  total = refl;
  count = omega arith;
  bytes = omega arith;
  entries_positive = v.entries_positive;
  bytes_positive = v.bytes_positive;
  accounted = tt;
  released = λ h. refl;
}

emptied_open :
    (c : MemoryLruCache)
    → IsValid c
    → c.closed ≡ false
    → IsValid (record c { entries = []; total_bytes = 0 })
emptied_open c v o = record {
  unique = tt;
  total = refl;
  count = omega arith;
  bytes = omega arith;
  entries_positive = v.entries_positive;
  bytes_positive = v.bytes_positive;
  accounted = tt;
  released = λ h. refl;
}

fits_all : (c : MemoryLruCache) → IsValid c → fits c.max_entries c.max_bytes c.entries ≡ true
fits_all c v = ground arith

-- Closing a valid cache leaves it empty and closed.
pub aclose_lem :
    (c : MemoryLruCache)
    → IsValid c
    → aclose c ≡ (ok tt, record c { closed = true; entries = []; total_bytes = 0 })
unfolding aclose
aclose_lem c v = elim (Bool-cases c.closed) [
  | inl closed ↦
      let none_left : c.entries ≡ [] = v.released closed in
      let no_bytes : c.total_bytes ≡ 0 = v.total ∙ ap total_size none_left in ground arith
  | inr open_now ↦ ground arith
]

clear_open :
    (c : MemoryLruCache)
    → c.closed ≡ false
    → clear c ≡ (ok tt, record c { entries = []; total_bytes = 0 })
unfolding clear
clear_open c h = ground arith

clear_closed : (c : MemoryLruCache) → c.closed ≡ true → clear c ≡ (raised cache_closed, c)
unfolding clear
clear_closed c h = ground arith

prune_closed : (c : MemoryLruCache) → c.closed ≡ true → prune c ≡ (raised cache_closed, c)
unfolding prune
prune_closed c h = ground arith

-- Pruning a valid, open cache removes nothing.
pub prune_open :
    (c : MemoryLruCache) → IsValid c → c.closed ≡ false → prune c ≡ (ok (snapshot 0 0 c), c)
unfolding prune
prune_open c v h = ground (
  arith,
  evict_lem c v.total,
  newest_fitting_all c.max_entries c.max_bytes c.entries (fits_all c v),
)

stats_state : (c : MemoryLruCache) → (stats c).1 ≡ c
unfolding stats
stats_state c = ground arith

-- The operations of the cache, as calls.
pub data Op (F : Type 0) : Type 0 where
  op_get : String → Op F
  op_set : String → Bytes → Arg F → Op F
  op_aclose op_stats op_clear op_prune : Op F

module _ {F : Type 0} (is_json : Bytes → Bool) where
  -- the state after a call, returned or raised
  unfoldable pub apply : Op F → MemoryLruCache → MemoryLruCache
  apply (op_get key) c = (get key c).1
  apply (op_set key value size) c = (set is_json key value size c).1
  apply op_aclose c = (aclose c).1
  apply op_stats c = (stats c).1
  apply op_clear c = (clear c).1
  apply op_prune c = (prune c).1

  unfoldable pub apply_all : List (Op F) → MemoryLruCache → MemoryLruCache
  unfolding apply
  apply_all [] c = c
  apply_all (o ∷ ops) c = apply_all ops (apply o c)

  -- Every operation, returned or raised, keeps the invariant.
  pub apply-IsValid : (o : Op F) (c : MemoryLruCache) → IsValid c → IsValid (apply o c)
  unfolding apply
  apply-IsValid (op_get key) c v = get-IsValid key c v
  apply-IsValid (op_set key value size) c v = set-IsValid is_json key value size c v
  apply-IsValid op_aclose c v = rw (aclose_lem c v, apply) (emptied c true v)
  apply-IsValid op_stats c v = rw (stats_state c, apply) v
  apply-IsValid op_clear c v = elim (Bool-cases c.closed) [
    | inl closed ↦ rw (clear_closed c closed, apply) v
    | inr open_now ↦ rw (clear_open c open_now, apply) (emptied_open c v open_now)
  ]
  apply-IsValid op_prune c v = elim (Bool-cases c.closed) [
    | inl closed ↦ rw (prune_closed c closed, apply) v
    | inr open_now ↦ rw (prune_open c v open_now, apply) v
  ]

  init-IsValid :
      (max_entries max_bytes : Arg F) (c : MemoryLruCache)
      → init max_entries max_bytes ≡ ok c
      → IsValid c
  unfolding init
  init-IsValid max_entries max_bytes c h = ground arith

  apply_all-keeps : (ops : List (Op F)) (c : MemoryLruCache) → IsValid c → IsValid (apply_all ops c)
  unfolding apply_all
  apply_all-keeps [] c v = v
  apply_all-keeps (o ∷ ops) c v = apply_all-keeps ops (apply o c) (apply-IsValid o c v)

  -- After any operations on a new cache, keys are pairwise different, the total is the sum of the
  -- accounted sizes, each of which is its value's length, both limits hold, and a closed cache is
  -- empty.
  pub apply_all-IsValid :
      (max_entries max_bytes : Arg F) (ops : List (Op F)) (c : MemoryLruCache)
      → init max_entries max_bytes ≡ ok c
      → IsValid (apply_all ops c)
  apply_all-IsValid max_entries max_bytes ops c h =
      apply_all-keeps ops c (init-IsValid max_entries max_bytes c h)
