-- ===== src/Models/Ids.antt =====
-- Observation identifiers: the format `f"obs_{number:06d}"` of src/penampakan/perception/store.py, and
-- its reading `int(id.removeprefix("obs_"))` in src/penampakan/reasoning/context.py.
use Prim.Native.Char.{Char, code}
use Prim.Native.String.{String}
use penampakan.Base.{
  ℕ, zero, suc, ◌+◌, ◌-◌, ◌*◌, ◌/◌, ◌%◌, ◌<◌, ◌≡◌, refl, sym, ◌∙◌, ap, arith, ltb, ltb→lt, ◌==◌,
  if◌then◌else◌, Bool-cases, inl, inr,
}

digit : ℕ → Char
digit zero = "0"
digit (suc zero) = "1"
digit (suc (suc zero)) = "2"
digit (suc (suc (suc zero))) = "3"
digit (suc (suc (suc (suc zero)))) = "4"
digit (suc (suc (suc (suc (suc zero))))) = "5"
digit (suc (suc (suc (suc (suc (suc zero)))))) = "6"
digit (suc (suc (suc (suc (suc (suc (suc zero))))))) = "7"
digit (suc (suc (suc (suc (suc (suc (suc (suc zero)))))))) = "8"
digit (suc (suc (suc (suc (suc (suc (suc (suc (suc n))))))))) = "9"

-- the decimal digits of a number in front of a text, with one round of fuel for each digit
decimal_onto : ℕ → ℕ → String → String
unfolding digit
decimal_onto zero n s = s
decimal_onto (suc fuel) n s =
    let rest = decimal_onto fuel (n / 10) (String.◌∷◌ (digit (n % 10)) s) in
    if ltb n 10 then String.◌∷◌ (digit (n % 10)) s else rest

length_text : String → ℕ
length_text String.[] = 0
length_text (String.◌∷◌ c s) = suc (length_text s)

zeros : ℕ → String → String
zeros zero s = s
zeros (suc n) s = String.◌∷◌ "0" (zeros n s)

-- `f"{number:06d}"`
pad_six : String → String
unfolding zeros length_text
pad_six s = zeros (6 - length_text s) s

-- `f"obs_{number:06d}"`
unfoldable pub observation_id : ℕ → String
unfolding decimal_onto pad_six
observation_id number = String.◌∷◌ "o" (
    String.◌∷◌ "b"
      (String.◌∷◌ "s" (String.◌∷◌ "_" (pad_six (decimal_onto (suc number) number String.[])))))

-- `whole.removeprefix(prefix)`, comparing character by character
strip : String → String → String → String
strip whole String.[] s = s
strip whole (String.◌∷◌ c p) String.[] = whole
strip whole (String.◌∷◌ c p) (String.◌∷◌ d s) =
    let rest = strip whole p s in if code c == code d then rest else whole

-- `int(text)`, of a text of decimal digits
parse_decimal : ℕ → String → ℕ
parse_decimal n String.[] = n
parse_decimal n (String.◌∷◌ c s) = parse_decimal (n * 10 + (code c - 48)) s

-- `_observation_sequence`
unfoldable pub observation_sequence : String → ℕ
unfolding strip parse_decimal
observation_sequence id = parse_decimal 0 (strip id "obs_" id)

test_small : observation_id 42 ≡ "obs_000042"
unfolding observation_id
test_small = refl

test_large : observation_id 12345678 ≡ "obs_12345678"
unfolding observation_id
test_large = refl

test_sequence : observation_sequence "obs_000042" ≡ 42
unfolding observation_sequence
test_sequence = refl

code-digit : (n : ℕ) → n < 10 → code (digit n) ≡ n + 48
unfolding digit
code-digit zero h = refl
code-digit (suc zero) h = refl
code-digit (suc (suc zero)) h = refl
code-digit (suc (suc (suc zero))) h = refl
code-digit (suc (suc (suc (suc zero)))) h = refl
code-digit (suc (suc (suc (suc (suc zero))))) h = refl
code-digit (suc (suc (suc (suc (suc (suc zero)))))) h = refl
code-digit (suc (suc (suc (suc (suc (suc (suc zero))))))) h = refl
code-digit (suc (suc (suc (suc (suc (suc (suc (suc zero)))))))) h = refl
code-digit (suc (suc (suc (suc (suc (suc (suc (suc (suc zero))))))))) h = refl
code-digit (suc (suc (suc (suc (suc (suc (suc (suc (suc (suc n)))))))))) h = absurd (omega arith)

parse-decimal_onto :
    (fuel n : ℕ) (s : String)
    → n < fuel
    → parse_decimal 0 (decimal_onto fuel n s) ≡ parse_decimal n s
unfolding parse_decimal decimal_onto
parse-decimal_onto zero n s h = absurd (omega arith)
parse-decimal_onto (suc fuel) n s h = elim (Bool-cases (ltb n 10)) [
  | inl small ↦ rw small (
      ap (λ k. parse_decimal k s)
        (omega (arith, code-digit (n % 10) (omega arith), ltb→lt n 10 small)))
  | inr large ↦ rw large (
      parse-decimal_onto fuel (n / 10) (String.◌∷◌ (digit (n % 10)) s) (ground arith)
      ∙ ap (λ k. parse_decimal k s) (omega (arith, code-digit (n % 10) (omega arith))))
]

parse-zeros : (k : ℕ) (s : String) → parse_decimal 0 (zeros k s) ≡ parse_decimal 0 s
unfolding parse_decimal zeros
parse-zeros zero s = refl
parse-zeros (suc k) s = parse-zeros k s

-- The number of an observation is read back from its identifier, whatever its width.
pub observation_sequence-id : (n : ℕ) → observation_sequence (observation_id n) ≡ n
unfolding observation_sequence observation_id
observation_sequence-id n =
    parse-zeros (6 - length_text (decimal_onto (suc n) n String.[]))
      (decimal_onto (suc n) n String.[])
    ∙ parse-decimal_onto (suc n) n String.[] (omega arith)

-- Different numbers have different identifiers.
pub observation_id-injective : (m n : ℕ) → observation_id m ≡ observation_id n → m ≡ n
observation_id-injective m n h =
    sym (observation_sequence-id m) ∙ ap observation_sequence h ∙ observation_sequence-id n
