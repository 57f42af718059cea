-- ===== src/Helpers/Decimal.antt =====
-- `String(n)` and `parseInt(s, 10)` of natural numbers.
use sentinel_desk.Prelude.{
  ℕ, zero, suc, ◌+◌, ◌-◌, ◌*◌, ◌/◌, ◌%◌, ◌<◌, ◌≡◌, refl, sym, ap, ◌∙◌, inl, inr, true, [], ◌∷◌,
  Text, ltb, arith, if◌then◌else◌, Bool-cases, All,
}
use sentinel_desk.Helpers.Characters.{is_digit}

-- The digits of `n` in front of `rest`; `n + 1` steps are enough.
abbrev pub digits : ℕ → ℕ → Text → Text
digits zero n rest = rest
digits (suc fuel) n rest =
    let d = b'0' + n % 10 in
    let more = digits fuel (n / 10) (d ∷ rest) in if ltb n 10 then d ∷ rest else more

unfoldable pub to_text : ℕ → Text
to_text n = digits (suc n) n []

-- The number that the digits spell, after `acc`.
abbrev pub parse_int : ℕ → Text → ℕ
parse_int acc [] = acc
parse_int acc (c ∷ s) = parse_int (acc * 10 + (c - b'0')) s

parse_int-digits :
    (fuel n : ℕ) (rest : Text) → n < fuel → parse_int 0 (digits fuel n rest) ≡ parse_int n rest
parse_int-digits zero n rest h = omega arith
parse_int-digits (suc fuel) n rest h = elim (Bool-cases (ltb n 10)) [
  | inl small ↦
      let low : 0 * 10 + ((b'0' + n % 10) - b'0') ≡ n = ground arith in
      rw small (ap (λ (k : ℕ). parse_int k rest) low)
  | inr large ↦
      let whole : n / 10 * 10 + ((b'0' + n % 10) - b'0') ≡ n = omega arith in
      rw large (
        parse_int-digits fuel (n / 10) ((b'0' + n % 10) ∷ rest) (ground arith)
        ∙ ap (λ (k : ℕ). parse_int k rest) whole)
]

digits-All :
    (fuel n : ℕ) (rest : Text)
    → All (λ c. is_digit c ≡ true) rest
    → All (λ c. is_digit c ≡ true) (digits fuel n rest)
digits-All zero n rest h = h
digits-All (suc fuel) n rest h = elim (Bool-cases (ltb n 10)) [
  | inl small ↦ rw small (ground arith, h)
  | inr large ↦ rw large (digits-All fuel (n / 10) _ (ground arith, h))
]

-- Printing and reading a number gives it back.
pub parse_int-to_text : (n : ℕ) → parse_int 0 (to_text n) ≡ n
unfolding to_text
parse_int-to_text n = parse_int-digits (suc n) n [] (omega arith)

pub to_text-All : (n : ℕ) → All (λ c. is_digit c ≡ true) (to_text n)
unfolding to_text
to_text-All n = digits-All (suc n) n [] tt

pub to_text_injective : (m n : ℕ) → to_text m ≡ to_text n → m ≡ n
to_text_injective m n h = sym (parse_int-to_text m) ∙ ap (parse_int 0) h ∙ parse_int-to_text n

digits_some :
    (fuel n : ℕ) (rest : Text) → n < fuel → (c : ℕ) × (s : Text) × (digits fuel n rest ≡ c ∷ s)
digits_some zero n rest h = absurd (omega arith)
digits_some (suc fuel) n rest h = elim (Bool-cases (ltb n 10)) [
  | inl small ↦ (b'0' + n % 10, rest, rw small refl)
  | inr large ↦
      let (c, s, e) = digits_some fuel (n / 10) ((b'0' + n % 10) ∷ rest) (ground arith) in
      (c, s, rw large e)
]

-- A number has at least one digit.
pub to_text_some : (n : ℕ) → (c : ℕ) × (s : Text) × (to_text n ≡ c ∷ s)
unfolding to_text
to_text_some n = digits_some (suc n) n [] (omega arith)
