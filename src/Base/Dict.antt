-- ===== src/Base/Dict.antt =====
-- Python's `dict` and `OrderedDict` with string keys: the entries in insertion order.
use mathlib.Core.Path.{◌≡◌, refl, sym, ◌∙◌}
use mathlib.Core.Logic.{◌≢◌, inl, inr}
use mathlib.Core.Option.{Option, none, some}
use mathlib.Core.List.{List, [], ◌∷◌, ◌++◌}
use mathlib.Core.List.{append-nil, append_assoc}
use mathlib.Core.Path.{subst}
use Prim.Native.String.{String}
use native.Mathlib.Omega.{arith}
use text.Mathlib.Text.{◌==◌ as str_eq}
use text.Mathlib.TextEquality.{eq_iff}
use penampakan.Base.Tests.{if◌then◌else◌, Bool-cases, Option-cases}

abbrev pub Dict {ℓ} : Type ℓ → Type ℓ
Dict V = List (String × V)

module _ {ℓ} {V : Type ℓ} where
  -- `d.get(key)`
  unfoldable pub lookup : String → Dict V → Option V
  lookup key [] = none
  lookup key ((k, v) ∷ d) = if str_eq k key then some v else lookup key d

  -- `key not in d`
  abbrev pub Absent : String → Dict V → Type ℓ
  Absent key d = lookup key d ≡ none

  -- `d.pop(key, None)`, the dictionary that is left
  unfoldable pub without : String → Dict V → Dict V
  without key [] = []
  without key ((k, v) ∷ d) =
      let rest = without key d in if str_eq k key then rest else (k, v) ∷ rest

  -- `d[key] = value`: a key that is there keeps its place
  unfoldable pub insert : String → V → Dict V → Dict V
  insert key v [] = (key, v) ∷ []
  insert key v ((k, w) ∷ d) =
      let rest = insert key v d in if str_eq k key then (k, v) ∷ d else (k, w) ∷ rest

  pub lookup-without :
      (k j : String) (d : Dict V)
      → lookup j (without k d) ≡ (if str_eq k j then none else lookup j d)
  unfolding lookup without
  lookup-without k j [] = ground arith
  lookup-without k j ((i, v) ∷ d) =
      ground (arith, lookup-without k j d, eq_iff i k, eq_iff i j, eq_iff k j)

  pub lookup-insert :
      (k j : String) (v : V) (d : Dict V)
      → lookup j (insert k v d) ≡ (if str_eq k j then some v else lookup j d)
  unfolding lookup insert
  lookup-insert k j v [] = refl
  lookup-insert k j v ((i, w) ∷ d) =
      ground (arith, lookup-insert k j v d, eq_iff i k, eq_iff i j, eq_iff k j)

  -- a lookup in two dictionaries, one after the other
  pub lookup-append :
      (j : String) (d e : Dict V)
      → lookup j (d ++ e) ≡ elim (lookup j d) [ none ↦ lookup j e | some v ↦ some v ]
  unfolding lookup
  lookup-append j [] e = refl
  lookup-append j ((i, w) ∷ d) e = ground (arith, lookup-append j d e)

  -- The keys are pairwise different.
  abbrev pub IsUnique : Dict V → Type ℓ
  IsUnique [] = Unit
  IsUnique ((k, v) ∷ d) = (Absent k d) × IsUnique d

  pub without-Absent : (k : String) (d : Dict V) → Absent k d → without k d ≡ d
  unfolding lookup without
  without-Absent k [] h = refl
  without-Absent k ((i, v) ∷ d) h = ground (arith, without-Absent k d)

  pub insert-Absent :
      (k : String) (v : V) (d : Dict V) → Absent k d → insert k v d ≡ d ++ (k, v) ∷ []
  unfolding lookup insert
  insert-Absent k v [] h = refl
  insert-Absent k v ((i, w) ∷ d) h = ground (arith, insert-Absent k v d)

  pub Absent-without : (k j : String) (d : Dict V) → Absent j d → Absent j (without k d)
  Absent-without k j d h = ground (arith, lookup-without k j d)

  pub Absent-without_self : (k : String) (d : Dict V) → Absent k (without k d)
  Absent-without_self k d = ground (arith, lookup-without k k d, eq_iff k k)

  pub IsUnique-without : (k : String) (d : Dict V) → IsUnique d → IsUnique (without k d)
  unfolding without
  IsUnique-without k [] h = tt
  IsUnique-without k ((i, v) ∷ d) h = elim (Bool-cases (str_eq i k)) [
    | inl e ↦ rw e (IsUnique-without k d h.1)
    | inr e ↦ rw e (Absent-without k i d h.0, IsUnique-without k d h.1)
  ]

  pub IsUnique-append_one :
      (k : String) (v : V) (d : Dict V) → IsUnique d → Absent k d → IsUnique (d ++ (k, v) ∷ [])
  unfolding lookup
  IsUnique-append_one k v [] h a = (refl, tt)
  IsUnique-append_one k v ((i, w) ∷ d) h a = (
    ground (arith, lookup-append i d ((k, v) ∷ []), eq_iff i k, eq_iff k i, h.0),
    IsUnique-append_one k v d h.1 (ground (arith, a)),
  )

  -- a key of the first part of a dictionary is not in the second part
  pub lookup-disjoint :
      (j : String) (d e : Dict V) (v : V)
      → IsUnique (d ++ e)
      → lookup j d ≡ some v
      → lookup j e ≡ none
  unfolding lookup
  lookup-disjoint j [] e v u h = absurd (ground arith)
  lookup-disjoint j ((i, w) ∷ d) e v u h = elim (Bool-cases (str_eq i j)) [
    | inl same ↦ ground (arith, eq_iff i j, u.0, lookup-append i d e)
    | inr other ↦ lookup-disjoint j d e v u.1 (ground arith)
  ]

  -- `d.update(e)`
  unfoldable pub update : Dict V → Dict V → Dict V
  unfolding insert
  update d [] = d
  update d ((k, v) ∷ e) = update (insert k v d) e

  pub lookup-update :
      (j : String) (d e : Dict V)
      → IsUnique e
      → lookup j (update d e) ≡ elim (lookup j e) [ none ↦ lookup j d | some v ↦ some v ]
  unfolding update lookup
  lookup-update j d [] u = refl
  lookup-update j d ((k, v) ∷ e) u =
      ground (arith, lookup-update j (insert k v d) e u.1, lookup-insert k j v d, u.0, eq_iff k j)

  middle-Absent :
      (k : String) (v : V) (d e : Dict V) → IsUnique (d ++ (k, v) ∷ e) → lookup k d ≡ none
  unfolding lookup
  middle-Absent k v d e u = elim (Option-cases (lookup k d)) [
    | inl absent ↦ absent
    | inr (w, there) ↦
        absurd (ground (arith, lookup-disjoint k d ((k, v) ∷ e) w u there, eq_iff k k))
  ]

  -- keys that are all new are appended
  pub update-append : (d e : Dict V) → IsUnique (d ++ e) → update d e ≡ d ++ e
  unfolding update
  update-append d [] u = sym (append-nil d)
  update-append d ((k, v) ∷ e) u =
      let same = append_assoc d ((k, v) ∷ []) e in
      rw (insert-Absent k v d (middle-Absent k v d e u))
        (update-append (d ++ (k, v) ∷ []) e (subst IsUnique (sym same) u) ∙ same)

  Absent-insert : (k j : String) (v : V) (d : Dict V) → j ≢ k → Absent j d → Absent j (insert k v d)
  Absent-insert k j v d other h = ground (arith, lookup-insert k j v d, eq_iff k j)

  pub IsUnique-insert : (k : String) (v : V) (d : Dict V) → IsUnique d → IsUnique (insert k v d)
  unfolding insert
  IsUnique-insert k v [] h = (unfold lookup in refl, tt)
  IsUnique-insert k v ((i, w) ∷ d) h = elim (Bool-cases (str_eq i k)) [
    | inl e ↦ rw e h
    | inr e ↦
        rw e (
          Absent-insert k i v d (λ same. ground (arith, eq_iff i k)) h.0,
          IsUnique-insert k v d h.1,
        )
  ]

  pub IsUnique-update : (d e : Dict V) → IsUnique d → IsUnique (update d e)
  unfolding update
  IsUnique-update d [] h = h
  IsUnique-update d ((k, v) ∷ e) h = IsUnique-update (insert k v d) e (IsUnique-insert k v d h)
