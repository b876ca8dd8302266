-- ===== src/Context/Truncate.antt =====
-- The shortening of one observation's line: the binary search and the line that it finds.
use penampakan.Base.{
  ℕ, zero, suc, ◌+◌, ◌-◌, ◌/◌, ◌≤◌, ◌<◌, ◌≡◌, refl, Option, none, some, length, ltb, leb, arith,
  inl, inr, Bool-cases, Option-cases,
}
use penampakan.Base.Floats.{Floats}
use penampakan.Models.{Observation}
use penampakan.Context.Lines.{Text, truncate_loop}
use penampakan.Context.Pieces.{Writer, payload_text, candidate, truncate_line}

-- what the loop has found below `low`
abbrev IsBest : (ℕ → Text) → ℕ → ℕ → Option Text → Type 0
IsBest text available low none = low ≡ 0
IsBest text available low (some t) =
    (k : ℕ) × (low ≡ suc k) × (t ≡ text k) × (length (text k) ≤ available)

-- No candidate from `low` up to `last` fits.
abbrev pub NoneFits : (ℕ → Text) → ℕ → ℕ → ℕ → Type 0
NoneFits text available low last = (n : ℕ) → low ≤ n → n ≤ last → available < length (text n)

-- The longest of the candidates 0, ..., `last` that fits, or no candidate at all.
abbrev pub IsLongest : (ℕ → Text) → ℕ → ℕ → Option Text → Type 0
IsLongest text available last none = NoneFits text available 0 last
IsLongest text available last (some t) =
    (k : ℕ) × (k ≤ last)
    × (t ≡ text k)
    × (length (text k) ≤ available)
    × NoneFits text available (suc k) last

-- A candidate for more characters is no shorter.
abbrev pub IsMonotone : (ℕ → Text) → Type 0
IsMonotone text = (m n : ℕ) → m ≤ n → length (text m) ≤ length (text n)

finish :
    (text : ℕ → Text) (available low last : ℕ) (best : Option Text)
    → low ≤ suc last
    → IsBest text available low best
    → NoneFits text available low last
    → IsLongest text available last best
finish text available low last none h e above = λ n p q. above n (omega (arith, e)) q
finish text available low last (some t) h (k, e, same, fits) above =
    (k, omega (arith, e), same, fits, λ n p q. above n (omega (arith, e)) q)

loop-IsLongest :
    (fuel : ℕ) (text : ℕ → Text) (available low bound last : ℕ) (best : Option Text)
    → IsMonotone text
    → bound < fuel + low
    → low ≤ bound
    → bound ≤ suc last
    → IsBest text available low best
    → NoneFits text available bound last
    → (r : Option Text) × (truncate_loop fuel text available low bound best ≡ some r)
      × IsLongest text available last r
unfolding truncate_loop
loop-IsLongest zero text available low bound last best mono f o l b above = absurd (omega arith)
loop-IsLongest (suc fuel) text available low bound last best mono f o l b above =
    elim (Bool-cases (ltb low bound)) [
      | inr done ↦
          let e : bound ≡ low = ground arith in
          (
            best,
            rw done,
            finish text available low last best (omega arith) b (λ n p q. above n (omega arith) q),
          )
      | inl more ↦
          let n : ℕ = (low + (bound - 1)) / 2 in
          let lt : low < bound = ground arith in
          elim (Bool-cases (leb (length (text n)) available)) [
            | inl fits ↦
                let (r, e, longest) =
                  loop-IsLongest fuel text available (n + 1) bound last (some (text n)) mono
                    (omega arith) (omega arith) l (n, omega arith, refl, ground arith) above in
                (r, rw (more, fits) e, longest)
            | inr exceeds ↦
                let (r, e, longest) =
                  loop-IsLongest fuel text available low n last best mono (omega arith)
                    (omega arith) (omega arith) b (λ m p q. ground (arith, mono n m p)) in
                (r, rw (more, exceeds) e, longest)
          ]
    ]

-- When a longer prefix never gives a shorter line, the shortened line of a caption or a text is the
-- longest candidate that fits the space, and there is none exactly when no candidate fits.
pub truncate_line-IsLongest :
    {F : Floats} (w : Writer F) (o : Observation F) (available : ℕ) (original : Text)
    → payload_text o.payload ≡ some original
    → IsMonotone (candidate w o original)
    → IsLongest (candidate w o original) available (length original) (truncate_line w o available)
unfolding truncate_line
truncate_line-IsLongest w o available original h mono =
    let (r, e, longest) =
      loop-IsLongest (suc (length original + 1)) (candidate w o original) available 0
        (length original + 1) (length original) none mono (omega arith) (omega arith) (omega arith)
        refl (λ n p q. absurd (omega arith)) in
    let same : truncate_line w o available ≡ r = ground (arith, h, e) in rw same longest

-- The binary search ends: one more round than there are candidates is enough, whatever their lengths.
pub truncate_loop_total :
    (fuel : ℕ) (text : ℕ → Text) (available low bound : ℕ) (best : Option Text)
    → bound < fuel + low
    → low ≤ bound
    → (r : Option Text) × (truncate_loop fuel text available low bound best ≡ some r)
unfolding truncate_loop
truncate_loop_total zero text available low bound best h l = absurd (omega arith)
truncate_loop_total (suc fuel) text available low bound best h l =
    elim (Bool-cases (ltb low bound)) [
      | inr done ↦ (best, rw (done, truncate_loop) refl)
      | inl more ↦
          let n : ℕ = (low + (bound - 1)) / 2 in
          let lt : low < bound = ground arith in
          elim (Bool-cases (leb (length (text n)) available)) [
            | inl fits ↦
                let (r, e) =
                  truncate_loop_total fuel text available (n + 1) bound (some (text n))
                    (omega arith) (omega arith) in
                (r, rw (more, fits, truncate_loop) e)
            | inr exceeds ↦
                let (r, e) =
                  truncate_loop_total fuel text available low n best (omega arith) (omega arith) in
                (r, rw (more, exceeds, truncate_loop) e)
          ]
    ]

loop-fits :
    (fuel : ℕ) (text : ℕ → Text) (available low bound : ℕ) (best : Option Text)
    → ((t : Text) → best ≡ some t → length t ≤ available)
    → (t : Text) → truncate_loop fuel text available low bound best ≡ some (some t)
    → length t ≤ available
unfolding truncate_loop
loop-fits zero text available low bound best h t e = absurd (ground arith)
loop-fits (suc fuel) text available low bound best h t e = elim (Bool-cases (ltb low bound)) [
  | inr done ↦ h t (ground arith)
  | inl more ↦
      let n : ℕ = (low + (bound - 1)) / 2 in
      elim (Bool-cases (leb (length (text n)) available)) [
        | inl fits ↦
            loop-fits fuel text available (n + 1) bound (some (text n)) (λ t' same. ground arith) t
              (rw (more, fits) at e)
        | inr exceeds ↦ loop-fits fuel text available low n best h t (rw (more, exceeds) at e)
      ]
]

-- a shortened line fits, whatever the encoding does
pub truncate_line-fits :
    {F : Floats} (w : Writer F) (o : Observation F) (available : ℕ) (t : Text)
    → truncate_line w o available ≡ some t
    → length t ≤ available
unfolding truncate_line
truncate_line-fits w o available t h = elim (Option-cases (payload_text o.payload)) [
  | inl e ↦ absurd (ground (arith, e))
  | inr (original, e) ↦
      elim (Option-cases (
        truncate_loop (suc (length original + 1)) (candidate w o original) available 0
          (length original + 1) none)) [
            | inl stuck ↦ absurd (ground (arith, e, stuck))
            | inr (best, found) ↦
                loop-fits (suc (length original + 1)) (candidate w o original) available 0
                  (length original + 1) none (λ t' same. absurd (ground arith)) t
                  (ground (arith, e, found))
          ]
]
