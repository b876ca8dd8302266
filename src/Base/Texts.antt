-- ===== src/Base/Texts.antt =====
-- Collections of texts: `x in xs`, and `len(xs) == len(set(xs))`.
use mathlib.Core.Path.{◌≡◌, refl}
use mathlib.Core.Logic.{◌≢◌}
use mathlib.Core.Bool.{Bool, true, false, ◌&&◌, ◌||◌, not}
use mathlib.Core.List.{List, [], ◌∷◌}
use Prim.Native.Nat.{ℕ}
use Prim.Native.Char.{code}
use Prim.Native.String.{String}
use native.Mathlib.Omega.{arith}
use text.Mathlib.Text.{◌==◌ as str_eq}
use text.Mathlib.TextEquality.{eq_iff}
use penampakan.Base.Lists.{All, any}
use penampakan.Base.Tests.{◌==◌}

-- the code points of a text
abbrev pub codes : String → List ℕ
codes String.[] = []
codes (String.◌∷◌ c s) = code c ∷ codes s

-- `"\x00" in text`
abbrev pub has_nul : String → Bool
has_nul s = any (λ c. c == 0) (codes s)

-- `not text`
abbrev pub is_empty : String → Bool
is_empty s = str_eq s ""

-- `x in xs`
unfoldable pub contains : String → List String → Bool
contains x [] = false
contains x (y ∷ ys) = str_eq y x || contains x ys

-- `len(xs) == len(set(xs))`: no text stands twice
unfoldable pub all_distinct : List String → Bool
unfolding contains
all_distinct [] = true
all_distinct (x ∷ xs) = not (contains x xs) && all_distinct xs

abbrev pub NotIn : String → List String → Type 0
NotIn x ys = All (λ y. y ≢ x) ys

-- The texts are pairwise different.
abbrev pub IsDistinct : List String → Type 0
IsDistinct [] = Unit
IsDistinct (x ∷ xs) = NotIn x xs × IsDistinct xs

pub contains-NotIn : (x : String) (ys : List String) → contains x ys ≡ false → NotIn x ys
unfolding contains
contains-NotIn x [] h = tt
contains-NotIn x (y ∷ ys) h =
    (λ e. ground (arith, eq_iff y x), contains-NotIn x ys (ground (arith, eq_iff y x)))

pub NotIn-contains : (x : String) (ys : List String) → NotIn x ys → contains x ys ≡ false
unfolding contains
NotIn-contains x [] h = refl
NotIn-contains x (y ∷ ys) h = ground (arith, eq_iff y x, NotIn-contains x ys h.1, h.0)

pub all_distinct-IsDistinct : (xs : List String) → all_distinct xs ≡ true → IsDistinct xs
unfolding all_distinct
all_distinct-IsDistinct [] h = tt
all_distinct-IsDistinct (x ∷ xs) h =
    (contains-NotIn x xs (ground arith), all_distinct-IsDistinct xs (ground arith))

pub IsDistinct-all_distinct : (xs : List String) → IsDistinct xs → all_distinct xs ≡ true
unfolding all_distinct
IsDistinct-all_distinct [] h = refl
IsDistinct-all_distinct (x ∷ xs) h =
    ground (arith, NotIn-contains x xs h.0, IsDistinct-all_distinct xs h.1)

-- No text of the list was seen before.
abbrev pub NoneSeen : List String → List String → Type 0
NoneSeen seen names = All (λ name. contains name seen ≡ false) names

-- a name that was seen shows in no later name
pub NoneSeen-cons :
    (x : String) (seen names : List String)
    → NoneSeen (x ∷ seen) names
    → NotIn x names × NoneSeen seen names
unfolding contains
NoneSeen-cons x seen [] h = (tt, tt)
NoneSeen-cons x seen (n ∷ names) h =
    let (fresh, rest) = NoneSeen-cons x seen names h.1 in
    ((λ e. ground (arith, eq_iff x n, h.0), fresh), (ground (arith, eq_iff x n, h.0), rest))

pub NoneSeen-uncons :
    (x : String) (seen names : List String)
    → NotIn x names
    → NoneSeen seen names
    → NoneSeen (x ∷ seen) names
unfolding contains
NoneSeen-uncons x seen [] h k = tt
NoneSeen-uncons x seen (n ∷ names) h k =
    (ground (arith, eq_iff x n, h.0, k.0), NoneSeen-uncons x seen names h.1 k.1)

pub NoneSeen-nil : (names : List String) → NoneSeen [] names
unfolding contains
NoneSeen-nil [] = tt
NoneSeen-nil (n ∷ names) = (refl, NoneSeen-nil names)
