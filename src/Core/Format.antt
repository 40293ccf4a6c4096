-- ===== src/Core/Format.antt =====
-- The standard library's formatting of an integer in base 10, as the sources call it.
use strategy_nodes.Common.{
  ℕ, zero, suc, ◌+◌, ◌/◌, ◌%◌, ◌<◌, ◌≡◌, ◌∙◌, ℤ, pos, negsuc, true, [], ◌∷◌, ◌++◌, Text, ltb,
  if◌then◌else◌, arith, Bool-cases, inl, inr, ltb→le,
}
use strategy_nodes.Core.Chars.{digit_zero, minus_sign, is_digit, value_from, value_of}
use strategy_nodes.Core.Chars.Laws.{value_from-append}

-- The digits of a number, with fuel for each.
unfoldable pub digits_of : ℕ → ℕ → Text
digits_of zero n = []
digits_of (suc fuel) n =
    let higher = digits_of fuel (n / 10) in
    if ltb n 10 then (digit_zero + n) ∷ [] else higher ++ (digit_zero + n % 10) ∷ []

-- A number has no more digits than it has units, and one.
unfoldable pub format_ℕ : ℕ → Text
format_ℕ n = digits_of (suc n) n

unfoldable pub format_ℤ : ℤ → Text
format_ℤ (pos n) = format_ℕ n
format_ℤ (negsuc n) = minus_sign ∷ format_ℕ (suc n)

value_of-digits_of : (fuel n : ℕ) → n < fuel → value_of (digits_of fuel n) ≡ n
unfolding digits_of value_of value_from
value_of-digits_of zero n h = absurd (omega arith)
value_of-digits_of (suc fuel) n h = elim (Bool-cases (ltb n 10)) [
  | inl e ↦ rw (e) (omega arith)
  | inr e ↦ rw (e) (
      value_from-append 0 (digits_of fuel (n / 10)) ((digit_zero + n % 10) ∷ [])
      ∙ omega (arith, value_of-digits_of fuel (n / 10) (omega (arith, h, ltb→le n 10 e))))
]

-- What is formatted reads as the number.
pub value_of-format_ℕ : (n : ℕ) → value_of (format_ℕ n) ≡ n
unfolding format_ℕ
value_of-format_ℕ n = value_of-digits_of (suc n) n (omega arith)

digit_in_range : (n : ℕ) → n < 10 → is_digit (digit_zero + n) ≡ true
unfolding is_digit
digit_in_range n h = ground arith
