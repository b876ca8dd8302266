-- ===== src/Context/Prefix.antt =====
-- `_line_safe_prefix` of src/penampakan/reasoning/context.py.
use penampakan.Base.{
  ℕ, zero, suc, ◌+◌, ◌≤◌, ◌≡◌, refl, sym, ap, ◌∙◌, false, none, some, [], ◌∷◌, ◌++◌, length, leb,
  arith, ◌⊎◌, inl, inr, Bool-cases, Option-cases,
}
use mathlib.Core.List.{append-nil, append_assoc}
use penampakan.Context.Lines.{Text, line_safe_prefix, take, has_newline, after_last_newline}

abbrev pub EndsLine : Text → Type 0
EndsLine s = (start : Text) × (s ≡ start ++ b'\n' ∷ [])

take-prefix : (n : ℕ) (s : Text) → (rest : Text) × (s ≡ take n s ++ rest)
unfolding take
take-prefix zero s = (s, refl)
take-prefix (suc n) [] = ([], refl)
take-prefix (suc n) (c ∷ s) = let (rest, e) = take-prefix n s in (rest, ap (λ t. c ∷ t) e)

length-take : (n : ℕ) (s : Text) → length (take n s) ≤ n
unfolding take
length-take zero s = omega arith
length-take (suc n) [] = omega arith
length-take (suc n) (c ∷ s) = omega (arith, length-take n s)

length-take_whole : (n : ℕ) (s : Text) → length (take n s) ≤ length s
unfolding take
length-take_whole zero s = omega arith
length-take_whole (suc n) [] = omega arith
length-take_whole (suc n) (c ∷ s) = omega (arith, length-take_whole n s)

after_last_newline-none : (s : Text) → after_last_newline s ≡ none → has_newline s ≡ false
unfolding after_last_newline has_newline
after_last_newline-none [] h = refl
after_last_newline-none (c ∷ s) h = elim (Option-cases (after_last_newline s)) [
  | inl e ↦ ground (arith, e, after_last_newline-none s e)
  | inr (n, e) ↦ absurd (ground (arith, e))
]

after_last_newline-EndsLine :
    (s : Text) (n : ℕ) → after_last_newline s ≡ some n → EndsLine (take n s)
unfolding after_last_newline take
after_last_newline-EndsLine [] n h = absurd (ground arith)
after_last_newline-EndsLine (c ∷ s) n h = elim (Option-cases (after_last_newline s)) [
  | inl e ↦
      let one : n ≡ 1 = ground (arith, e) in
      let newline : c ≡ b'\n' = ground (arith, e) in rw (one, newline) ([], refl)
  | inr (m, e) ↦
      let more : n ≡ suc m = ground (arith, e) in
      let (start, same) = after_last_newline-EndsLine s m e in
      rw more (c ∷ start, ap (λ t. c ∷ t) same)
]

has_newline-take :
    (n : ℕ) (s : Text) → has_newline (take (n + 1) s) ≡ false → has_newline (take n s) ≡ false
unfolding has_newline take
has_newline-take zero s h = refl
has_newline-take (suc n) [] h = refl
has_newline-take (suc n) (c ∷ s) h = ground (arith, has_newline-take n s (ground arith))

-- what a safe prefix of a text is
abbrev pub IsSafe : Text → ℕ → Text → Type 0
IsSafe value maximum p =
    ((rest : Text) × (value ≡ p ++ rest))
    × (length p ≤ maximum)
    × ((p ≡ value) ⊎ ((has_newline p ≡ false) ⊎ EndsLine p))

whole-IsSafe : (value : Text) (maximum : ℕ) → length value ≤ maximum → IsSafe value maximum value
whole-IsSafe value maximum h = (([], sym (append-nil value)), h, inl refl)

take-IsSafe :
    (value : Text) (maximum : ℕ)
    → has_newline (take maximum value) ≡ false
    → IsSafe value maximum (take maximum value)
take-IsSafe value maximum h = (take-prefix maximum value, length-take maximum value, inr (inl h))

lines-IsSafe :
    (value : Text) (maximum n : ℕ)
    → after_last_newline (take maximum value) ≡ some n
    → IsSafe value maximum (take n (take maximum value))
lines-IsSafe value maximum n h =
    let (rest, e) = take-prefix maximum value in
    let (more, d) = take-prefix n (take maximum value) in
    (
      (
        more ++ rest,
        e ∙ ap (λ t. t ++ rest) d ∙ append_assoc (take n (take maximum value)) more rest,
      ),
      omega (arith, length-take_whole n (take maximum value), length-take maximum value),
      inr (inr (after_last_newline-EndsLine (take maximum value) n h)),
    )

-- A text is shortened to a prefix of it of at most the given length. Where it is cut, the prefix
-- either holds no newline or ends with one: it has whole lines, or a part of the first alone.
pub line_safe_prefix-IsSafe :
    (value : Text) (maximum : ℕ) → IsSafe value maximum (line_safe_prefix value maximum)
unfolding line_safe_prefix
line_safe_prefix-IsSafe value maximum = elim (Bool-cases (leb (length value) maximum)) [
  | inl short ↦ rw short (whole-IsSafe value maximum (ground arith))
  | inr long ↦ elim (Bool-cases (has_newline (take (maximum + 1) value))) [
    | inr none_there ↦
        rw (long, none_there)
          (take-IsSafe value maximum (has_newline-take maximum value none_there))
    | inl there ↦ elim (Option-cases (after_last_newline (take maximum value))) [
      | inl none_before ↦
          rw (long, there, none_before)
            (take-IsSafe value maximum (after_last_newline-none (take maximum value) none_before))
      | inr (n, found) ↦ rw (long, there, found) (lines-IsSafe value maximum n found)
    ]
  ]
]
