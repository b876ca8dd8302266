-- ===== src/Cache/Tests.antt =====
-- A small cache, and the theorems on caches at it.
use penampakan.Base.{
  ℕ, ◌+◌, ◌-◌, String, ◌≡◌, ◌≢◌, refl, Bool, true, false, Option, none, some, [], ◌∷◌, ◌≤◌, arith,
  eq_iff, length,
}
use penampakan.Base.Int.{pos}
use penampakan.Base.Floats.{Arg, integer}
use penampakan.Base.Result.{ok}
use penampakan.Base.Dict.{lookup, without, insert}
use penampakan.Base.Ticks.{ticks}
use penampakan.Models.{Json, json_bool, json_dict, dict_end, entry as pair}
use penampakan.Cache.Json.{is_strict_json}
use penampakan.Cache.{
  MemoryLruCache, CacheEntry, Bytes, init, get, set, write, store, evict_loop, aclose, stats, prune,
  clear, validate_key,
}
use penampakan.Cache.Evict.{newest_fitting, total_size, evict_loop-newest_fitting}
use penampakan.Cache.Valid.{IsValid}
use penampakan.Cache.Keeps.{op_set, op_get, op_prune, apply_all, apply_all-IsValid}
use penampakan.Cache.Reads.{get-set_self, get-set_ne, SameOrMiss, write_keeps_longest}

program : Unit {0}
unfolding init get set write store evict_loop aclose stats prune clear lookup without insert
    newest_fitting apply_all
program = tt

abbrev int : ℕ → Arg ℕ
int n = integer (pos n)

abbrev any_json : Bytes → Bool
any_json value = true

-- room for two entries and five bytes
abbrev empty : MemoryLruCache
empty = record { entries = []; total_bytes = 0; max_entries = 2; max_bytes = 5; closed = false }

abbrev entry : Bytes → CacheEntry
entry value = record { value = value; size = length value }

abbrev two : MemoryLruCache
two = record empty {
  entries = ("a", entry (1 ∷ 2 ∷ [])) ∷ ("b", entry (3 ∷ [])) ∷ [];
  total_bytes = 3;
}

built : init (int 2) (int 5) ≡ ok empty
unfolding program
built = refl

filled : (set any_json "b" (3 ∷ []) (int 1) (set any_json "a" (1 ∷ 2 ∷ []) (int 2) empty).1).1 ≡ two
unfolding program
filled = refl

-- the write of "c" evicts "a", the oldest
evicts_oldest :
    (set any_json "c" (4 ∷ 5 ∷ []) (int 2) two).1.entries
    ≡ ("b", entry (3 ∷ [])) ∷ ("c", entry (4 ∷ 5 ∷ [])) ∷ []
unfolding program
evicts_oldest = refl

two-IsValid : IsValid two
unfolding program
two-IsValid = record {
  unique = (refl, (refl, tt));
  total = refl;
  count = omega arith;
  bytes = omega arith;
  entries_positive = omega arith;
  bytes_positive = omega arith;
  accounted = (refl, (refl, tt));
  released = λ h. absurd (ground arith);
}

key_c : validate_key "c" ≡ ok "c"
unfolding validate_key
key_c = refl

apply_all-IsValid_example :
    IsValid (apply_all any_json (op_set "a" (1 ∷ []) (int 1) ∷ op_get "a" ∷ op_prune ∷ []) empty)
apply_all-IsValid_example =
    apply_all-IsValid any_json (int 2) (int 5)
      (op_set "a" (1 ∷ []) (int 1) ∷ op_get "a" ∷ op_prune ∷ []) empty built

get-set_self_example :
    (get "c" (set {F = ℕ} any_json "c" (4 ∷ 5 ∷ []) (integer (pos 2)) two).1).0
    ≡ ok (some (4 ∷ 5 ∷ []))
get-set_self_example =
    get-set_self ℕ any_json "c" (4 ∷ 5 ∷ []) 1 two two-IsValid refl key_c refl refl (omega arith)

a_not_c : ◌≢◌ {A = String} "a" "c"
a_not_c = ground (arith, eq_iff "a" "c")

get-set_ne_example : SameOrMiss "a" two (set any_json "c" (4 ∷ 5 ∷ []) (int 2) two).1
get-set_ne_example = get-set_ne ℕ any_json "a" "c" (4 ∷ 5 ∷ []) (int 2) two two-IsValid a_not_c

write_keeps_longest_example : 2 ≤ length (write "c" (4 ∷ 5 ∷ []) 2 two).1.entries
unfolding program
write_keeps_longest_example =
    write_keeps_longest "c" (4 ∷ 5 ∷ []) 2 two (("a", entry (1 ∷ 2 ∷ [])) ∷ [])
      (("b", entry (3 ∷ [])) ∷ ("c", entry (4 ∷ 5 ∷ [])) ∷ []) two-IsValid refl (omega arith) refl
      refl

evict_loop-newest_fitting_example : evict_loop 1 5 two.entries 3 0 0 ≡ (
  ok (
    0 + (length two.entries - length (newest_fitting 1 5 two.entries)),
    0 + (total_size two.entries - total_size (newest_fitting 1 5 two.entries)),
  ),
  (newest_fitting 1 5 two.entries, total_size (newest_fitting 1 5 two.entries)),
)
evict_loop-newest_fitting_example = evict_loop-newest_fitting 1 5 two.entries 3 0 0 refl

-- a decoder that knows two texts, an object with one key and an object that has it twice
abbrev loads : Bytes → Option (Json ticks)
loads [] = some (json_dict (pair "a" (json_bool true) dict_end))
loads (x ∷ []) = some (json_dict (pair "a" (json_bool true) (pair "a" (json_bool false) dict_end)))
loads (x ∷ y ∷ value) = none

one_key : is_strict_json loads [] ≡ true
unfolding is_strict_json
one_key = refl

key_twice : is_strict_json loads (2 ∷ []) ≡ false
unfolding is_strict_json
key_twice = refl

no_json : is_strict_json loads (2 ∷ 3 ∷ []) ≡ false
unfolding is_strict_json
no_json = refl
