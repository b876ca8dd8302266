-- ===== src/Base/Floats.antt =====
-- Floating-point numbers are not defined by this program: a type with the operations that the code
-- calls, and no law. A theorem that needs a law of the order names it among its hypotheses.
use Prim.Native.Nat.{ℕ}
use mathlib.Core.Bool.{Bool}
use penampakan.Base.Tests.{if◌then◌else◌}
use penampakan.Base.Int.{ℤ}

pub record Floats : Type 1 where
  pub Float : Type 0
  pub of_int : ℤ → Float
  pub zero_float : Float
  pub add : Float → Float → Float
  pub sub : Float → Float → Float
  pub mul : Float → Float → Float
  pub two_to : ℕ → Float
  pub lt : Float → Float → Bool
  pub le : Float → Float → Bool
  pub eq : Float → Float → Bool
  pub is_finite : Float → Bool

-- A dynamically typed numeric argument: what `isinstance` tells apart.
pub data Arg (F : Type 0) : Type 0 where
  boolean : Bool → Arg F
  integer : ℤ → Arg F
  real : F → Arg F
  other : Arg F

module _ (F : Floats) where
  -- Python's `max(a, b)` keeps `a` unless `b` is greater, and `min(a, b)` unless `b` is smaller.
  abbrev pub max_float : F.Float → F.Float → F.Float
  max_float a b = if F.lt a b then b else a

  abbrev pub min_float : F.Float → F.Float → F.Float
  min_float a b = if F.lt b a then b else a
