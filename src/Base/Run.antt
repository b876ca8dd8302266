-- ===== src/Base/Run.antt =====
-- A method with a loop inside: as in Exec, and `none` where the loop's fuel has run out.
use mathlib.Core.Option.{Option, none, some}
use penampakan.Base.Errors.{Error}
use mathlib.Core.Path.{◌≡◌, refl}
use mathlib.Core.Bool.{Bool, true, false}
use penampakan.Base.Tests.{if◌then◌else◌}
use penampakan.Base.Result.{Result, ok, raised}

abbrev pub Run {ℓ κ} : Type ℓ → Type κ → Type (ℓ ⊔ κ)
Run S A = S → Option (Result A × S)

module _ {ℓ κ} {S : Type ℓ} {A : Type κ} where
  abbrev pub pure : A → Run S A
  pure a s = some (ok a, s)

  abbrev pub fail : Error → Run S A
  fail e s = some (raised e, s)

  abbrev pub lift : Result A → Run S A
  lift r s = some (r, s)

  abbrev pub gets : (S → A) → Run S A
  gets f s = some (ok (f s), s)

  -- a method without a loop
  abbrev pub once : (S → Result A × S) → Run S A
  once m s = some (m s)

  -- `try: ... except Exception`: the exception becomes a value
  unfoldable pub attempt : Run S A → Run S (Result A)
  attempt m s = elim (m s) [ none ↦ none | some (r, t) ↦ some (ok r, t) ]

abbrev pub modify {ℓ} : {S : Type ℓ} → (S → S) → Run S (Unit {0})
modify f s = some (ok tt, f s)

module _ {ℓ κ μ} {S : Type ℓ} {A : Type κ} {B : Type μ} where
  abbrev pub follow : Result A → (A → Run S B) → Run S B
  follow (ok a) f s = f a s
  follow (raised e) f s = some (raised e, s)

  infixl 5 ◌>>=◌
  unfoldable pub ◌>>=◌ : Run S A → (A → Run S B) → Run S B
  ◌>>=◌ m f s = elim (m s) [ none ↦ none | some (r, t) ↦ follow r f t ]

infixl 5 ◌>>◌
abbrev pub ◌>>◌ {ℓ κ} : {S : Type ℓ} {B : Type κ} → Run S (Unit {0}) → Run S B → Run S B
m >> k = m >>= λ _. k

-- A method that comes to an end from each state of one predicate, with another one of its result or
-- exception and of the state after it.
abbrev pub Ends {ℓ κ μ ν} :
    {S : Type ℓ} {A : Type κ}
    → (S → Type μ)
    → Run S A
    → (Result A → S → Type ν)
    → Type (ℓ ⊔ κ ⊔ μ ⊔ ν)
Ends {S} {A} P m Q = (s : S) → P s → (r : Result A) × (t : S) × (m s ≡ some (r, t)) × Q r t

-- A method that comes to an end and keeps a predicate of the state.
abbrev pub Keeps {ℓ κ μ} : {S : Type ℓ} {A : Type κ} → (S → Type μ) → Run S A → Type (ℓ ⊔ κ ⊔ μ)
Keeps P m = Ends P m (λ r t. P t)

module _ {ℓ κ μ ν} {S : Type ℓ} {A : Type κ} {B : Type μ} {P : S → Type ν} where
  pub Ends->>= {ξ ρ} :
      {R : Result A → S → Type ξ} {Q : Result B → S → Type ρ} {m : Run S A} {f : A → Run S B}
      → Ends P m R
      → ((a : A) → Ends (R (ok a)) (f a) Q)
      → ((x : Error) (t : S) → R (raised x) t → Q (raised x) t)
      → Ends P (m >>= f) Q
  unfolding ◌>>=◌
  Ends->>= {R} {Q} {m} {f} first next stop s h = let (r, t, e, p) = first s h in go r t e p
    where
      go :
          (r : Result A) (t : S)
          → m s ≡ some (r, t)
          → R r t
          → (q : Result B) × (u : S) × (◌>>=◌ m f s ≡ some (q, u)) × Q q u
      go (raised x) t e p = (raised x, t, rw (e, ◌>>=◌) refl, stop x t p)
      go (ok a) t e p = let (q, u, d, k) = next a t p in (q, u, rw (e, ◌>>=◌) d, k)

  pub Keeps->>= :
      {m : Run S A} {f : A → Run S B} → Keeps P m → ((a : A) → Keeps P (f a)) → Keeps P (m >>= f)
  Keeps->>= first next = Ends->>= first next (λ x t p. p)

module _ {ℓ κ ν} {S : Type ℓ} {A : Type κ} {P : S → Type ν} where
  -- a value or an exception, the state as it was
  pub Keeps-lift : (r : Result A) → Keeps P (lift r)
  Keeps-lift r s h = (r, s, refl, h)

  pub Keeps-attempt : {m : Run S A} → Keeps P m → Keeps P (attempt m)
  unfolding attempt
  Keeps-attempt {m} k s h = let (r, t, e, p) = k s h in (ok r, t, rw (e, attempt) refl, p)

  pub Keeps-if : (b : Bool) {m n : Run S A} → Keeps P m → Keeps P n → Keeps P (if b then m else n)
  Keeps-if true hm hn = hm
  Keeps-if false hm hn = hn

module _ {ℓ κ μ} {S : Type ℓ} {A : Type κ} {B : Type μ} where
  -- What a method that returned did: its first step returned, and so did the rest.
  pub >>=-returned :
      (m : Run S A) (f : A → Run S B) (s : S) {b : B} {u : S}
      → (m >>= f) s ≡ some (ok b, u)
      → (a : A) × (t : S) × (m s ≡ some (ok a, t)) × (f a t ≡ some (ok b, u))
  unfolding ◌>>=◌
  >>=-returned m f s {b} {u} h = go (m s) refl
    where
      go :
          (o : Option (Result A × S))
          → m s ≡ o
          → (a : A) × (t : S) × (m s ≡ some (ok a, t)) × (f a t ≡ some (ok b, u))
      go none e = let bad : none ≡ some (ok b, u) = rw (e, ◌>>=◌) at h in absurd (cc bad)
      go (some (raised x, t)) e =
          let bad : some (raised x, t) ≡ some (ok b, u) = rw (e, ◌>>=◌) at h in absurd (cc bad)
      go (some (ok a, t)) e = (a, t, e, rw (e, ◌>>=◌) at h)
