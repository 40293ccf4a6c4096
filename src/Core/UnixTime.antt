-- ===== src/Core/UnixTime.antt =====
-- data_feed/core/unix_time.cc: an RFC 3339 timestamp as nanoseconds since the Unix epoch.
-- The clock (`UnixNanosNow`) is the environment. `std::chrono` gives the days of a date whose year
-- and month are in range; what it gives of another is unspecified, a parameter here. Products and
-- sums are those of unbounded integers: a year past 2262 leaves the range of an `i64`.
pub mod Laws
pub mod Stamps
pub mod Tests
use strategy_nodes.Common.{
  ℕ, ◌+◌, ◌-◌, ◌*◌, ◌/◌, ◌%◌, ℤ, pos, negsuc, ◌+ℤ◌, ◌-ℤ◌, ◌*ℤ◌, pos_part, neg_part, Bool, true,
  false, ◌&&◌, Option, none, some, List, [], ◌∷◌, Text, take, drop, length, ltb, leb, ◌==◌,
  if◌then◌else◌,
}
use strategy_nodes.Core.Bytes.{wrap_i64}
use strategy_nodes.Core.Chars.{
  FromChars, parsed, invalid_argument, result_out_of_range, digit_zero, full_stop, minus_sign,
  is_digit, from_chars_i64,
}

-- The end of the numbers that were read is the end of the text.
unfoldable pub whole : FromChars ℤ → Option ℤ
whole (parsed z []) = some z
whole (parsed z (c ∷ rest)) = none
whole invalid_argument = none
-- The value was initialized with 0.
whole (result_out_of_range []) = some (pos 0)
whole (result_out_of_range (c ∷ rest)) = none

unfoldable pub read_digits : Text → ℕ → ℕ → Option ℤ
read_digits text offset count =
    if ltb (length text) (offset + count)
    then none
    else whole (from_chars_i64 (take count (drop offset text)))

abbrev pub seconds_end : ℕ
seconds_end = 19

-- `text[i]` of an index that is in range.
unfoldable pub char_at : Text → ℕ → ℕ
char_at text i = elim (drop i text) [ [] ↦ 0 | c ∷ cs ↦ c ]

unfoldable pub has_layout : Text → Bool
has_layout text =
    leb seconds_end (length text)
    && char_at text 4 == minus_sign
    && char_at text 7 == minus_sign
    && char_at text 10 == b'T'
    && char_at text 13 == b':'
    && char_at text 16 == b':'

-- The loop over the digits of the fraction.
unfoldable pub fraction_loop : Text → ℕ → ℕ → ℕ
fraction_loop [] digit_value nanos = nanos
fraction_loop (c ∷ cs) digit_value nanos =
    let rest = fraction_loop cs (digit_value / 10) (nanos + (c - digit_zero) * digit_value) in
    if is_digit c then rest else nanos

unfoldable pub fraction_nanos : Text → ℕ
fraction_nanos text = elim (drop seconds_end text) [
  | [] ↦ 0
  | c ∷ digits ↦ if c == full_stop then fraction_loop digits 100000000 0 else 0
]

-- What `std::chrono` makes of an integer as a month, a day: none of them out of range.
unfoldable pub in_range : ℤ → ℕ → ℕ → Bool
in_range (pos n) low high = leb low n && leb n high
in_range (negsuc n) low high = false

-- The days to a date of the proleptic Gregorian calendar, counted from 1 March of the year -10000.
abbrev pub days_from_civil : ℕ → ℕ → ℕ → ℕ
days_from_civil year month day =
    let y = if leb month 2 then year - 1 else year in
    let doy = (153 * (if ltb 2 month then month - 3 else month + 9) + 2) / 5 + day in
    y / 400 * 146097 + y % 400 * 365 + y % 400 / 4 - y % 400 / 100 + doy

module _ (unspecified_days : ℤ → ℤ → ℤ → ℤ) where
  -- `time_since_epoch().count()` of a `std::chrono::sys_days`: 4371893 days lie between
  -- 1 March of the year -10000 and the day before 1 January 1970.
  unfoldable pub sys_days : ℤ → ℤ → ℤ → ℤ
  sys_days year month day =
      if in_range month 1 12 && in_range day 0 255
      then pos (days_from_civil (pos_part (year +ℤ pos 10000)) (pos_part month) (pos_part day))
        -ℤ pos 4371894
      else unspecified_days year month day

  -- The days of a `std::chrono::year`, which has 16 bits, and the seconds of fields of two digits
  -- are far within an `i64`; their nanoseconds may not be.
  unfoldable pub to_nanos : ℤ → ℤ → ℤ → ℤ → ℤ → ℤ → ℕ → ℤ
  to_nanos year month day hour minute second nanos =
      let seconds =
        sys_days year month day *ℤ pos 86400 +ℤ hour *ℤ pos 3600 +ℤ minute *ℤ pos 60 +ℤ second in
      wrap_i64 (wrap_i64 (seconds *ℤ pos 1000000000) +ℤ pos nanos)

  unfoldable pub parse_fields :
      Option ℤ → Option ℤ → Option ℤ → Option ℤ → Option ℤ → Option ℤ → ℕ → Option ℤ
  parse_fields (some y) (some mo) (some d) (some h) (some mi) (some s) nanos =
      some (to_nanos y mo d h mi s nanos)
  parse_fields y mo d h mi s nanos = none

  unfoldable pub parse_iso8601_to_unix_nanos : Text → Option ℤ
  parse_iso8601_to_unix_nanos text =
      let fields =
        parse_fields (read_digits text 0 4) (read_digits text 5 2) (read_digits text 8 2)
          (read_digits text 11 2) (read_digits text 14 2) (read_digits text 17 2)
          (fraction_nanos text) in
      if has_layout text then fields else none
