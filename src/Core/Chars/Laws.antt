-- ===== src/Core/Chars/Laws.antt =====
-- The laws of the standard library's text operations: what `from_chars` reads from digits, the
-- number that digits write, and the first and the last character of a kind.
use strategy_nodes.Common.{
  ℕ, zero, suc, ◌+◌, ◌-◌, ◌*◌, ◌^◌, ◌≤◌, ◌<◌, ◌≡◌, refl, ap, ◌∙◌, pos, true, false, Option, none,
  some, [], ◌∷◌, ◌++◌, Text, length, replicate, take, All, arith, ◌==◌, lt→ltb,
}
use native.Mathlib.Numerals.{unary_clauses}
use strategy_nodes.Core.Chars.{
  digit_zero, minus_sign, full_stop, is_digit, span_digits, value_from, value_of, unsigned_of,
  from_chars_unsigned, from_chars_i64, as_signed, parsed, stored, find_char, find_last_not_of,
  last_before, last_before,
}

abbrev pub AreDigits : Text → Type 0
AreDigits = All (λ c. is_digit c ≡ true)

pub span_digits_all : (ds : Text) → AreDigits ds → span_digits ds ≡ (ds, [])
unfolding span_digits
span_digits_all [] h = refl
span_digits_all (c ∷ cs) (hc, h) = rw (span_digits_all cs h, hc) refl

not_minus : (c : ℕ) → is_digit c ≡ true → (c == minus_sign) ≡ false
unfolding is_digit
not_minus c h = ground arith

from_chars_unsigned_digits :
    (c : ℕ) (cs : Text)
    → AreDigits (c ∷ cs)
    → value_of (c ∷ cs) < 2 ^ 63
    → from_chars_unsigned (2 ^ 63) (c ∷ cs) ≡ parsed (value_of (c ∷ cs)) []
unfolding from_chars_unsigned unsigned_of
from_chars_unsigned_digits c cs h small =
    rw (span_digits_all (c ∷ cs) h, lt→ltb (value_of (c ∷ cs)) (2 ^ 63) small) refl

pub from_chars_i64_parsed :
    (c : ℕ) (cs : Text)
    → AreDigits (c ∷ cs)
    → value_of (c ∷ cs) < 2 ^ 63
    → from_chars_i64 (c ∷ cs) ≡ parsed (pos (value_of (c ∷ cs))) []
unfolding from_chars_i64 as_signed
from_chars_i64_parsed c cs h small =
    rw (not_minus c (h.0), from_chars_unsigned_digits c cs h small) refl

pub from_chars_i64_digits :
    (ds : Text)
    → AreDigits ds
    → value_of ds < 2 ^ 63
    → stored (pos 0) (from_chars_i64 ds) ≡ pos (value_of ds)
unfolding from_chars_i64 stored value_of value_from
from_chars_i64_digits [] h small = refl
from_chars_i64_digits (c ∷ cs) h small = rw (from_chars_i64_parsed c cs h small) refl

pub value_from-append :
    (n : ℕ) (xs ys : Text) → value_from n (xs ++ ys) ≡ value_from (value_from n xs) ys
unfolding value_from
value_from-append n [] ys = refl
value_from-append n (c ∷ cs) ys = value_from-append (n * 10 + (c - digit_zero)) cs ys

-- With a leading zero, the number is the rest's.
value_from_cons :
    (n c : ℕ) (cs : Text) → value_from n (c ∷ cs) ≡ value_from (n * 10 + (c - digit_zero)) cs
unfolding value_from
value_from_cons n c cs = refl

pub value_from_shift : (n : ℕ) (ds : Text) → value_from n ds ≡ n * 10 ^ length ds + value_from 0 ds
unfolding value_from
value_from_shift n [] = omega arith
value_from_shift n (c ∷ cs) = simp unary_clauses (
    omega (
      arith,
      value_from_cons n c cs,
      value_from_cons 0 c cs,
      value_from_shift (n * 10 + (c - digit_zero)) cs,
      value_from_shift (0 * 10 + (c - digit_zero)) cs,
    ))

pub value_from_zeros : (n k : ℕ) → value_from n (replicate k digit_zero) ≡ n * 10 ^ k
unfolding value_from
value_from_zeros n zero = omega arith
value_from_zeros n (suc k) = simp unary_clauses (
    omega (
      arith,
      value_from_cons n digit_zero (replicate k digit_zero),
      value_from_zeros (n * 10 + (digit_zero - digit_zero)) k,
    ))

not_stop : (c : ℕ) → is_digit c ≡ true → (c == full_stop) ≡ false
unfolding is_digit
not_stop c h = ground arith

pub find_stop :
    (ds rest : Text)
    → AreDigits ds
    → find_char full_stop (ds ++ full_stop ∷ rest) ≡ some (length ds)
unfolding find_char
find_stop [] rest h = refl
find_stop (c ∷ cs) rest (hc, h) = rw (find_stop cs rest h, not_stop c hc) refl

pub find_no_stop : (ds : Text) → AreDigits ds → find_char full_stop ds ≡ none
unfolding find_char
find_no_stop [] h = refl
find_no_stop (c ∷ cs) (hc, h) = rw (find_no_stop cs h, not_stop c hc) refl

pub value_from_grows :
    (m n : ℕ) (ds : Text) → value_from m (take n ds) ≤ value_from m (take (suc n) ds)
unfolding value_from
value_from_grows m zero [] = omega arith
value_from_grows m (suc n) [] = omega arith
value_from_grows m zero (c ∷ cs) = omega (arith, value_from_cons m c [])
value_from_grows m (suc n) (c ∷ cs) = value_from_grows (m * 10 + (c - digit_zero)) n cs

-- How much of a text is left up to its last character of a kind.
abbrev pub up_to : Option ℕ → ℕ
up_to none = 0
up_to (some i) = suc i

-- How much of a fraction is left without its zeros at the end.
abbrev pub trimmed : Text → ℕ
trimmed ds = up_to (find_last_not_of digit_zero ds)

up_to-last_before :
    (c n : ℕ) (o : Option ℕ) → up_to (last_before digit_zero c o) ≤ suc n → up_to o ≤ n
unfolding last_before
up_to-last_before c n none h = omega arith
up_to-last_before c n (some i) h = omega arith

last_before_zero : (c : ℕ) (o : Option ℕ) → up_to (last_before digit_zero c o) ≤ 0 → c ≡ digit_zero
unfolding last_before
last_before_zero c none h = ground arith
last_before_zero c (some i) h = absurd (omega arith)

last_before_stop : (o : Option ℕ) → last_before digit_zero full_stop o ≡ some (up_to o)
unfolding last_before
last_before_stop none = refl
last_before_stop (some i) = refl

pub trimmed_rest : (c n : ℕ) (cs : Text) → trimmed (c ∷ cs) ≤ suc n → trimmed cs ≤ n
unfolding find_last_not_of
trimmed_rest c n cs h = up_to-last_before c n (find_last_not_of digit_zero cs) h

pub trimmed_zero : (c : ℕ) (cs : Text) → trimmed (c ∷ cs) ≤ 0 → c ≡ digit_zero
unfolding find_last_not_of
trimmed_zero c cs h = last_before_zero c (find_last_not_of digit_zero cs) h

-- The last character of a number with a stop is in its fraction, or it is the stop.
pub find_last_stopped :
    (ds rest : Text)
    → find_last_not_of digit_zero (ds ++ full_stop ∷ rest) ≡ some (length ds + trimmed rest)
unfolding find_last_not_of last_before
find_last_stopped [] rest =
    last_before_stop (find_last_not_of digit_zero rest) ∙ ap some (omega arith)
find_last_stopped (c ∷ cs) rest =
    ap (last_before digit_zero c) (find_last_stopped cs rest) ∙ ap some (omega arith)

last_before_bound :
    (c n : ℕ) (o : Option ℕ) → up_to o ≤ n → up_to (last_before digit_zero c o) ≤ suc n
unfolding last_before
last_before_bound c n none h = ground arith
last_before_bound c n (some i) h = omega arith

pub trimmed_bound : (ds : Text) → trimmed ds ≤ length ds
unfolding find_last_not_of
trimmed_bound [] = omega arith
trimmed_bound (c ∷ cs) =
    last_before_bound c (length cs) (find_last_not_of digit_zero cs) (trimmed_bound cs)
