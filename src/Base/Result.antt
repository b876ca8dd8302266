-- ===== src/Base/Result.antt =====
-- A computation that returns or raises.
use mathlib.Core.Bool.{Bool, true, false}
use mathlib.Core.Path.{◌≡◌, refl}
use mathlib.Core.Logic.{◌⊎◌, inl, inr}
use penampakan.Base.Errors.{Error}

pub data Result {ℓ} (A : Type ℓ) : Type ℓ where
  ok : A → Result A
  raised : Error → Result A

infixl 5 ◌>>◌
module _ {ℓ κ} {A : Type ℓ} {B : Type κ} where
  infixl 5 ◌>>=◌
  abbrev pub ◌>>=◌ : Result A → (A → Result B) → Result B
  raised e >>= next = raised e
  ok value >>= next = next value

  -- What a block that returned did: its first step returned, and so did the rest.
  pub >>=-eq-ok :
      (step : Result A) (next : A → Result B) {final : B}
      → (step >>= next) ≡ ok final
      → (value : A) × (step ≡ ok value) × (next value ≡ ok final)
  >>=-eq-ok (raised e) next h = cc
  >>=-eq-ok (ok value) next h = (value, refl, h)

-- `if not test: raise e`
abbrev pub require : Bool → Error → Result (Unit {0})
require true e = ok tt
require false e = raised e

-- `if test: raise e`
abbrev pub reject : Bool → Error → Result (Unit {0})
reject true e = raised e
reject false e = ok tt

-- a step without a value
abbrev pub ◌>>◌ {ℓ} : {B : Type ℓ} → Result (Unit {0}) → Result B → Result B
check >> next = check >>= λ _. next

-- To split on a result and keep the equation.
pub Result-cases {ℓ} :
    {A : Type ℓ} (r : Result A) → ((a : A) × (r ≡ ok a)) ⊎ ((e : Error) × (r ≡ raised e))
Result-cases (ok a) = inl (a, refl)
Result-cases (raised e) = inr (e, refl)

pub ok-injective {ℓ} : {A : Type ℓ} {a b : A} → ok a ≡ ok b → a ≡ b
ok-injective h = cc
