-- ===== src/Core/Decimal.antt =====
-- data_feed/core/decimal.cc: decimal text, scaled to an integer.
-- Every product and sum of an `i64` is wrapped around to its range.
pub mod Laws
pub mod Exact
pub mod Texts
pub mod Tests
use strategy_nodes.Common.{
  ℕ, zero, suc, ◌-◌, ◌*◌, ◌^◌, ◌%◌, min, ℤ, pos, ◌+ℤ◌, ◌*ℤ◌, Option, none, some, [], Text, ltb, leb,
  take, drop, length, if◌then◌else◌,
}
use strategy_nodes.Core.Bytes.{wrap_i64}
use strategy_nodes.Core.Chars.{
  digit_zero, full_stop, from_chars_i64, stored, find_char, find_last_not_of,
}

-- The loop multiplies the result by 10, `exponent` times.
unfoldable pub times_ten : ℕ → ℤ → ℤ
times_ten zero result = result
times_ten (suc i) result = times_ten i (wrap_i64 (result *ℤ pos 10))

unfoldable pub pow10 : ℕ → ℤ
pow10 exponent = times_ten exponent (pos 1)

-- `substr(0, dot)` and `substr(dot + 1)`.
unfoldable pub integer_part : Text → Text
integer_part value = elim (find_char full_stop value) [ none ↦ value | some dot ↦ take dot value ]

unfoldable pub fraction_part : Text → Text
fraction_part value = elim (find_char full_stop value) [
  | none ↦ []
  | some dot ↦ drop (suc dot) value
]

unfoldable pub fraction_value : Text → ℕ → ℤ
fraction_value digits zero = pos 0
fraction_value digits (suc n) = stored (pos 0) (from_chars_i64 (take (suc n) digits))

unfoldable pub scale_decimal_string_to_i64 : Text → ℕ → ℤ
scale_decimal_string_to_i64 value decimals =
    let digits_used = min (length (fraction_part value)) decimals in
    let whole = stored (pos 0) (from_chars_i64 (integer_part value)) in
    let fraction = fraction_value (fraction_part value) digits_used in
    wrap_i64
      (wrap_i64 (whole *ℤ pow10 decimals) +ℤ wrap_i64 (fraction *ℤ pow10 (decimals - digits_used)))

-- `std::string_view::npos`, of 64 bits.
abbrev pub npos : ℕ
npos = 2 ^ 64 - 1

unfoldable pub position_or_npos : Option ℕ → ℕ
position_or_npos none = npos
position_or_npos (some i) = i

unfoldable pub fraction_digits : Text → ℕ
fraction_digits value = elim (find_char full_stop value) [
  | none ↦ 0
  | some dot ↦
      let last_digit = position_or_npos (find_last_not_of digit_zero value) in
      if leb last_digit dot then 0 else (last_digit - dot) % 2 ^ 32
]
