-- ===== src/Core/UnixTime/Tests.antt =====
-- data_feed/core/unix_time.cc: runs of the parser, and the theorems on an example.
use strategy_nodes.Common.{◌≡◌, refl, ℤ, pos, negsuc, some, codes, Text, ◌+ℤ◌, ◌-ℤ◌, ◌*ℤ◌}
use strategy_nodes.Core.Chars.{
  is_digit, span_digits, value_from, value_of, unsigned_of, from_chars_unsigned, as_signed, negated,
  from_chars_i64,
}
use strategy_nodes.Common.{[], ◌+◌, ◌*◌, arith}
use strategy_nodes.Core.Bytes.{to_u64, to_i64, wrap_i64}
use strategy_nodes.Core.UnixTime.Stamps.{
  Stamp, stamp_text, time_of_day, nanos_per_day, stamp_parsed,
}
use strategy_nodes.Core.UnixTime.{
  whole, read_digits, char_at, has_layout, fraction_loop, fraction_nanos, in_range, sys_days,
  to_nanos, parse_fields, parse_iso8601_to_unix_nanos,
}

abbrev no_days : ℤ → ℤ → ℤ → ℤ
no_days y m d = pos 0

abbrev stamp : Text
stamp = codes "2026-10-04T18:32:21.811584Z"

stamp_parses : parse_iso8601_to_unix_nanos no_days stamp ≡ some (pos 1791138741811584000)
unfolding whole read_digits char_at has_layout fraction_loop fraction_nanos in_range sys_days
    to_nanos parse_fields parse_iso8601_to_unix_nanos is_digit span_digits value_from value_of
    unsigned_of from_chars_unsigned as_signed negated from_chars_i64 to_u64 to_i64 wrap_i64 ◌+ℤ◌
    ◌-ℤ◌ ◌*ℤ◌
stamp_parses = refl

epoch_parses : parse_iso8601_to_unix_nanos no_days (codes "1970-01-01T00:00:00") ≡ some (pos 0)
unfolding whole read_digits char_at has_layout fraction_loop fraction_nanos in_range sys_days
    to_nanos parse_fields parse_iso8601_to_unix_nanos is_digit span_digits value_from value_of
    unsigned_of from_chars_unsigned as_signed negated from_chars_i64 to_u64 to_i64 wrap_i64 ◌+ℤ◌
    ◌-ℤ◌ ◌*ℤ◌
epoch_parses = refl

-- The comment on `ReadDigits` allows digits only, but a sign is read as well.
reads_a_sign : read_digits (codes "-1") 0 2 ≡ some (negsuc 0)
unfolding whole read_digits is_digit span_digits value_from value_of unsigned_of from_chars_unsigned
    as_signed negated from_chars_i64
reads_a_sign = refl

abbrev a_stamp : Stamp
a_stamp = record {
  century = (b'2', b'0');
  year = (b'2', b'6');
  month = (b'1', b'0');
  day = (b'0', b'4');
  hour = (b'1', b'8');
  minute = (b'3', b'2');
  second = (b'2', b'1');
  fraction = codes "8115841234";
}

stamp_parsed_example :
    parse_iso8601_to_unix_nanos no_days (stamp_text a_stamp [])
    ≡ some (pos (20730 * nanos_per_day + time_of_day a_stamp))
unfolding is_digit value_of value_from in_range sys_days ◌+ℤ◌ ◌-ℤ◌
stamp_parsed_example =
    stamp_parsed no_days a_stamp [] 20730
      (record {
        year_digits = (refl, (refl, (refl, (refl, tt))));
        month_digits = (refl, (refl, tt));
        day_digits = (refl, (refl, tt));
        hour_digits = (refl, (refl, tt));
        minute_digits = (refl, (refl, tt));
        second_digits = (refl, (refl, tt));
        fraction_digits =
            (refl, (refl, (refl, (refl, (refl, (refl, (refl, (refl, (refl, (refl, tt))))))))));
      })
      refl (omega arith)
