-- ===== src/Base/Ticks.antt =====
-- Whole ticks in place of floating-point seconds, for concrete runs of the model.
use Prim.Native.Nat.{ℕ, zero, suc, ◌+◌, ◌-◌, ◌*◌}
use mathlib.Core.Bool.{true}
use penampakan.Base.Tests.{ltb, leb, ◌==◌}
use penampakan.Base.Int.{ℤ, pos, negsuc}
use penampakan.Base.Floats.{Floats}

abbrev pub from_int : ℤ → ℕ
from_int (pos n) = n
from_int (negsuc n) = 0

abbrev pub power : ℕ → ℕ
power zero = 1
power (suc n) = 2 * power n

abbrev pub ticks : Floats
ticks = record {
  Float = ℕ;
  of_int = from_int;
  zero_float = 0;
  add = λ a b. a + b;
  sub = λ a b. a - b;
  mul = λ a b. a * b;
  two_to = power;
  lt = ltb;
  le = leb;
  eq = ◌==◌;
  is_finite = λ a. true;
}
