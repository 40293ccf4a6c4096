-- ===== src/Core/UnixTime/Stamps.antt =====
-- data_feed/core/unix_time.cc: a timestamp as the venues write it is read field by field.
use strategy_nodes.Common.{
  ap, ◌*◌, ℕ, ◌+◌, ◌^◌, ◌≤◌, ◌<◌, ◌≡◌, refl, ◌∙◌, ℤ, pos, true, some, [], ◌∷◌, ◌++◌, Text, take,
  drop, length, arith, le→ltb,
}
use strategy_nodes.Core.Chars.{full_stop, minus_sign, is_digit, value_from, value_of}
use strategy_nodes.Core.Chars.Laws.{AreDigits, from_chars_i64_parsed}
use strategy_nodes.Core.Bytes.Laws.{wrap_i64_small}
use strategy_nodes.Core.Decimal.Laws.{fitted, pos-mul, pos-add}
use strategy_nodes.Core.UnixTime.{
  whole, read_digits, char_at, has_layout, fraction_nanos, sys_days, to_nanos, parse_fields,
  parse_iso8601_to_unix_nanos,
}
use strategy_nodes.Core.UnixTime.Laws.{fraction_loop_lem}

-- Two digits of a timestamp.
abbrev pub two : ℕ × ℕ → Text
two (a, b) = a ∷ b ∷ []

-- The digits of a timestamp to the second, and those of its fraction.
pub record Stamp : Type 0 where
  pub century : ℕ × ℕ
  pub year : ℕ × ℕ
  pub month : ℕ × ℕ
  pub day : ℕ × ℕ
  pub hour : ℕ × ℕ
  pub minute : ℕ × ℕ
  pub second : ℕ × ℕ
  pub fraction : Text

abbrev pub stamp_text : Stamp → Text → Text
stamp_text s rest =
    two s.century
    ++ two s.year
    ++ minus_sign ∷ two s.month
    ++ minus_sign ∷ two s.day
    ++ b'T' ∷ two s.hour
    ++ b':' ∷ two s.minute
    ++ b':' ∷ two s.second
    ++ full_stop ∷ s.fraction
    ++ b'Z' ∷ rest

pub record IsStamp (s : Stamp) : Type 0 where
  pub year_digits : AreDigits (two s.century ++ two s.year)
  pub month_digits : AreDigits (two s.month)
  pub day_digits : AreDigits (two s.day)
  pub hour_digits : AreDigits (two s.hour)
  pub minute_digits : AreDigits (two s.minute)
  pub second_digits : AreDigits (two s.second)
  pub fraction_digits : AreDigits s.fraction

abbrev pub number : ℕ × ℕ → ℤ
number p = pos (value_of (two p))

read_digits_at :
    (text : Text) (offset count c : ℕ) (cs : Text)
    → offset + count ≤ length text
    → take count (drop offset text) ≡ c ∷ cs
    → AreDigits (c ∷ cs)
    → value_of (c ∷ cs) < 2 ^ 63
    → read_digits text offset count ≡ some (pos (value_of (c ∷ cs)))
unfolding read_digits whole
read_digits_at text offset count c cs fits part h small =
    rw (le→ltb (length text) (offset + count) fits, part, from_chars_i64_parsed c cs h small) refl

two_small : (a b : ℕ) → AreDigits (a ∷ b ∷ []) → value_of (a ∷ b ∷ []) < 2 ^ 63
unfolding value_of value_from is_digit
two_small a b (ha, (hb, u)) = ground arith

four_small : (a b c d : ℕ) → AreDigits (a ∷ b ∷ c ∷ d ∷ []) → value_of (a ∷ b ∷ c ∷ d ∷ []) < 2 ^ 63
unfolding value_of value_from is_digit
four_small a b c d (ha, (hb, (hc, (hd, u)))) = ground arith

long_enough : (n k : ℕ) → k ≤ 20 → k ≤ 20 + n
long_enough n k h = omega arith

stamp_layout : (s : Stamp) (rest : Text) → has_layout (stamp_text s rest) ≡ true
unfolding has_layout char_at
stamp_layout s rest = ground arith

stamp_fraction :
    (s : Stamp) (rest : Text)
    → IsStamp s
    → fraction_nanos (stamp_text s rest) ≡ value_of (fitted 9 s.fraction)
unfolding fraction_nanos
stamp_fraction s rest h = fraction_loop_lem 8 s.fraction rest 0 h.fraction_digits ∙ omega arith

-- The time of day in nanoseconds, the fraction padded with zeros to nine digits or cut at nine.
abbrev pub time_of_day : Stamp → ℕ
time_of_day s =
    ((value_of (two s.hour) * 60 + value_of (two s.minute)) * 60 + value_of (two s.second))
      * 1000000000
    + value_of (fitted 9 s.fraction)

abbrev pub nanos_per_day : ℕ
nanos_per_day = 24 * 60 * 60 * 1000000000

regroup :
    (days hour minute second nanos : ℕ)
    → (days * 86400 + hour * 3600 + minute * 60 + second) * 1000000000 + nanos
      ≡ days * nanos_per_day + (((hour * 60 + minute) * 60 + second) * 1000000000 + nanos)
regroup days hour minute second nanos = omega arith

module _ (unspecified_days : ℤ → ℤ → ℤ → ℤ) where
  to_nanos-pos :
      (year month day : ℤ) (days hour minute second nanos : ℕ)
      → sys_days unspecified_days year month day ≡ pos days
      → (days * 86400 + hour * 3600 + minute * 60 + second) * 1000000000 + nanos < 2 ^ 63
      → to_nanos unspecified_days year month day (pos hour) (pos minute) (pos second) nanos
        ≡ pos ((days * 86400 + hour * 3600 + minute * 60 + second) * 1000000000 + nanos)
  unfolding to_nanos
  to_nanos-pos year month day days hour minute second nanos date small =
      let seconds = days * 86400 + hour * 3600 + minute * 60 + second in
      rw
        (
          date,
          pos-mul days 86400,
          pos-mul hour 3600,
          pos-mul minute 60,
          pos-add (days * 86400) (hour * 3600),
          pos-add (days * 86400 + hour * 3600) (minute * 60),
          pos-add (days * 86400 + hour * 3600 + minute * 60) second,
          pos-mul seconds 1000000000,
          wrap_i64_small (seconds * 1000000000) (omega (arith, small)),
          pos-add (seconds * 1000000000) nanos,
        )
        (wrap_i64_small (seconds * 1000000000 + nanos) small)

  fields_parsed :
      (s : Stamp) (rest : Text)
      → IsStamp s
      → parse_iso8601_to_unix_nanos unspecified_days (stamp_text s rest)
        ≡ some (
            to_nanos unspecified_days
              (pos (value_of (two s.century ++ two s.year)))
              (number s.month)
              (number s.day)
              (number s.hour)
              (number s.minute)
              (number s.second)
              (value_of (fitted 9 s.fraction)))
  unfolding parse_iso8601_to_unix_nanos parse_fields
  fields_parsed s rest h =
      let text = stamp_text s rest in
      rw
        (
          stamp_layout s rest,
          read_digits_at text 0 4 (s.century.0) (s.century.1 ∷ two s.year) (omega arith) refl
              h.year_digits (four_small _ _ _ _ h.year_digits),
          read_digits_at text 5 2 (s.month.0) (s.month.1 ∷ []) (omega arith) refl h.month_digits
              (two_small _ _ h.month_digits),
          read_digits_at text 8 2 (s.day.0) (s.day.1 ∷ []) (omega arith) refl h.day_digits
              (two_small _ _ h.day_digits),
          read_digits_at text 11 2 (s.hour.0) (s.hour.1 ∷ []) (omega arith) refl h.hour_digits
              (two_small _ _ h.hour_digits),
          read_digits_at text 14 2 (s.minute.0) (s.minute.1 ∷ []) (omega arith) refl h.minute_digits
              (two_small _ _ h.minute_digits),
          read_digits_at text 17 2 (s.second.0) (s.second.1 ∷ []) (omega arith) refl h.second_digits
              (two_small _ _ h.second_digits),
          stamp_fraction s rest h,
        )
        refl

  -- A timestamp "YYYY-MM-DDThh:mm:ss.fZ" of digits, with a fraction of any length and anything
  -- after it, is the days that std::chrono counts to its date, which are none below 0, and its time
  -- of day, the fraction cut or padded to nine digits, in nanoseconds since 1970. They are below
  -- 2^63.
  pub stamp_parsed :
      (s : Stamp) (rest : Text) (days : ℕ)
      → IsStamp s
      → sys_days unspecified_days
          (pos (value_of (two s.century ++ two s.year)))
          (number s.month)
          (number s.day)
        ≡ pos days
      → days * nanos_per_day + time_of_day s < 2 ^ 63
      → parse_iso8601_to_unix_nanos unspecified_days (stamp_text s rest)
        ≡ some (pos (days * nanos_per_day + time_of_day s))
  stamp_parsed s rest days h date small =
      let hour = value_of (two s.hour) in
      let minute = value_of (two s.minute) in
      let second = value_of (two s.second) in
      let nanos = value_of (fitted 9 s.fraction) in
      let same = regroup days hour minute second nanos in
      fields_parsed s rest h
      ∙ ap some (
          to_nanos-pos (pos (value_of (two s.century ++ two s.year))) (number s.month)
            (number s.day) days hour minute second nanos date (omega (arith, small, same))
          ∙ ap pos same)
