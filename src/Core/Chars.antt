-- ===== src/Core/Chars.antt =====
-- The standard library's text operations that the sources call, on texts of byte codes:
-- `std::from_chars` of an `i64`, a `u64` or a `u32` in base 10, and `std::string_view`'s `find`.
pub mod Laws
use strategy_nodes.Common.{
  ℕ, suc, ◌+◌, ◌-◌, ◌*◌, ◌^◌, ℤ, pos, negsuc, sub_ℕ, Bool, true, false, ◌&&◌, Option, none, some,
  List, [], ◌∷◌, Text, ltb, leb, ◌==◌, if◌then◌else◌,
}

-- Byte codes.
abbrev pub digit_zero : ℕ
digit_zero = 48

abbrev pub minus_sign : ℕ
minus_sign = 45

abbrev pub full_stop : ℕ
full_stop = 46

unfoldable pub is_digit : ℕ → Bool
is_digit c = leb digit_zero c && leb c 57

-- The longest prefix of digits, and what follows it.
unfoldable pub span_digits : Text → Text × Text
span_digits [] = ([], [])
span_digits (c ∷ cs) =
    let (ds, rest) = span_digits cs in if is_digit c then (c ∷ ds, rest) else ([], c ∷ cs)

unfoldable pub value_from : ℕ → Text → ℕ
value_from n [] = n
value_from n (c ∷ cs) = value_from (n * 10 + (c - digit_zero)) cs

-- The number that digits write.
unfoldable pub value_of : Text → ℕ
value_of ds = value_from 0 ds

-- `std::from_chars_result` with the value it stored: a number and the text after it, or
-- `std::errc`, which leaves the value alone.
pub data FromChars (A : Type 0) : Type 0 where
  parsed : A → Text → FromChars A
  invalid_argument : FromChars A
  result_out_of_range : Text → FromChars A

unfoldable pub unsigned_of : ℕ → Text × Text → FromChars ℕ
unsigned_of limit ([], rest) = invalid_argument
unsigned_of limit (c ∷ cs, rest) =
    if ltb (value_of (c ∷ cs)) limit
    then parsed (value_of (c ∷ cs)) rest
    else result_out_of_range rest

-- Into an unsigned integer of the values below `limit`; a sign is no part of one.
unfoldable pub from_chars_unsigned : ℕ → Text → FromChars ℕ
from_chars_unsigned limit text = unsigned_of limit (span_digits text)

unfoldable pub negated : FromChars ℕ → FromChars ℤ
negated (parsed n rest) = parsed (sub_ℕ 0 n) rest
negated invalid_argument = invalid_argument
negated (result_out_of_range rest) = result_out_of_range rest

unfoldable pub as_signed : FromChars ℕ → FromChars ℤ
as_signed (parsed n rest) = parsed (pos n) rest
as_signed invalid_argument = invalid_argument
as_signed (result_out_of_range rest) = result_out_of_range rest

-- Into an `i64`, which may start with a minus sign; -2^63 is in range.
unfoldable pub from_chars_i64 : Text → FromChars ℤ
from_chars_i64 [] = invalid_argument
from_chars_i64 (c ∷ cs) =
    if c == minus_sign
    then negated (from_chars_unsigned (2 ^ 63 + 1) cs)
    else as_signed (from_chars_unsigned (2 ^ 63) (c ∷ cs))

-- The value that was stored before the call stays unless a number was parsed.
unfoldable pub stored : {A : Type 0} → A → FromChars A → A
stored a (parsed b rest) = b
stored a invalid_argument = a
stored a (result_out_of_range rest) = a

-- `find` of one character.
unfoldable pub find_char : ℕ → Text → Option ℕ
find_char d [] = none
find_char d (c ∷ cs) =
    let rest = find_char d cs in
    if c == d then some 0 else elim rest [ none ↦ none | some i ↦ some (suc i) ]

-- A character before the text in which the last other than `d` was sought.
unfoldable pub last_before : ℕ → ℕ → Option ℕ → Option ℕ
last_before d c none = if c == d then none else some 0
last_before d c (some i) = some (suc i)

-- `find_last_not_of` one character.
unfoldable pub find_last_not_of : ℕ → Text → Option ℕ
find_last_not_of d [] = none
find_last_not_of d (c ∷ cs) = last_before d c (find_last_not_of d cs)
