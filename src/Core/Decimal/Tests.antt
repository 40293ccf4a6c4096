-- ===== src/Core/Decimal/Tests.antt =====
-- data_feed/core/decimal.cc: runs of the repository's own tests, and the theorems on an example.
use strategy_nodes.Common.{◌≡◌, refl, pos, negsuc, ◌*ℤ◌, ◌+ℤ◌, codes, arith}
use strategy_nodes.Core.Bytes.{to_u64, to_i64, wrap_i64}
use strategy_nodes.Core.Chars.{
  is_digit, span_digits, value_from, value_of, unsigned_of, from_chars_unsigned, negated, as_signed,
  from_chars_i64, stored, find_char, last_before, find_last_not_of,
}
use strategy_nodes.Core.Decimal.{
  times_ten, pow10, integer_part, fraction_part, fraction_value, scale_decimal_string_to_i64,
  position_or_npos, fraction_digits,
}
use strategy_nodes.Core.Decimal.Laws.{scale_decimal_joins}
use strategy_nodes.Core.Decimal.Exact.{scale_decimal_exact}

pads : scale_decimal_string_to_i64 (codes "3.05") 4 ≡ pos 30500
unfolding scale_decimal_string_to_i64 integer_part fraction_part find_char fraction_value stored
    from_chars_i64 as_signed from_chars_unsigned unsigned_of span_digits is_digit value_of
    value_from pow10 times_ten to_u64 to_i64 wrap_i64 ◌*ℤ◌ ◌+ℤ◌
pads = refl

truncates : scale_decimal_string_to_i64 (codes "1.239") 2 ≡ pos 123
unfolding scale_decimal_string_to_i64 integer_part fraction_part find_char fraction_value stored
    from_chars_i64 as_signed from_chars_unsigned unsigned_of span_digits is_digit value_of
    value_from pow10 times_ten to_u64 to_i64 wrap_i64 ◌*ℤ◌ ◌+ℤ◌
truncates = refl

-- A negative decimal gets its fraction added, not subtracted.
adds_to_a_negative : scale_decimal_string_to_i64 (codes "-1.5") 1 ≡ negsuc 4
unfolding scale_decimal_string_to_i64 integer_part fraction_part find_char fraction_value stored
    from_chars_i64 as_signed negated from_chars_unsigned unsigned_of span_digits is_digit value_of
    value_from pow10 times_ten to_u64 to_i64 wrap_i64 ◌*ℤ◌ ◌+ℤ◌
adds_to_a_negative = refl

-- A sign after the stop is read as one.
reads_a_sign_in_the_fraction : scale_decimal_string_to_i64 (codes "0.-5") 2 ≡ negsuc 4
unfolding scale_decimal_string_to_i64 integer_part fraction_part find_char fraction_value stored
    from_chars_i64 as_signed negated from_chars_unsigned unsigned_of span_digits is_digit value_of
    value_from pow10 times_ten to_u64 to_i64 wrap_i64 ◌*ℤ◌ ◌+ℤ◌
reads_a_sign_in_the_fraction = refl

counts_two : fraction_digits (codes "0.01000000") ≡ 2
unfolding fraction_digits find_char find_last_not_of last_before position_or_npos
counts_two = refl

counts_none : fraction_digits (codes "100.000") ≡ 0
unfolding fraction_digits find_char find_last_not_of last_before position_or_npos
counts_none = refl

scale_decimal_joins_example :
    scale_decimal_string_to_i64 (codes "84888.7") 3 ≡ pos (value_of (codes "84888700"))
unfolding value_of value_from is_digit
scale_decimal_joins_example =
    scale_decimal_joins (codes "84888") (codes "7") 3 (refl, (refl, (refl, (refl, (refl, tt)))))
      (refl, tt) (omega arith) (omega arith)

scale_decimal_exact_example :
    scale_decimal_string_to_i64 (codes "0.0150") 4
    ≡ scale_decimal_string_to_i64 (codes "0.0150") 3 *ℤ pos 10
unfolding value_of value_from is_digit fraction_digits find_char find_last_not_of last_before
    position_or_npos
scale_decimal_exact_example =
    scale_decimal_exact (codes "0") (codes "0150") 3 (refl, tt) (refl, (refl, (refl, (refl, tt))))
      (omega arith) (omega arith) (omega arith) (omega arith)
