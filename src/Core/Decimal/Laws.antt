-- ===== src/Core/Decimal/Laws.antt =====
-- data_feed/core/decimal.cc: the scaled integer is the number that the digits write once the
-- fraction is cut, or padded with zeros, to the wanted digits.
use strategy_nodes.Common.{
  ℕ, zero, suc, ◌+◌, ◌-◌, ◌*◌, ◌^◌, ◌≤◌, ◌<◌, ◌≡◌, refl, sym, ap, ◌∙◌, min, pos, ◌+ℤ◌, ◌*ℤ◌, true,
  [], ◌∷◌, ◌++◌, Text, length, take, drop, replicate, take-append, length-append, length-take,
  length-replicate, All-take, arith,
}
use native.Mathlib.Numerals.{unary_clauses}
use strategy_nodes.Core.Bytes.Laws.{wrap_i64_small}
use strategy_nodes.Core.Chars.{
  digit_zero, full_stop, is_digit, value_from, value_of, from_chars_i64, stored,
}
use strategy_nodes.Core.Chars.Laws.{
  AreDigits, from_chars_i64_digits, value_from-append, value_from_shift, value_from_zeros,
  find_stop, find_no_stop,
}
use strategy_nodes.Core.Decimal.{
  times_ten, pow10, integer_part, fraction_part, fraction_value, scale_decimal_string_to_i64,
}

pub pos-mul : (a b : ℕ) → pos a *ℤ pos b ≡ pos (a * b)
unfolding ◌*ℤ◌
pos-mul a b = ground arith

pub pos-add : (a b : ℕ) → pos a +ℤ pos b ≡ pos (a + b)
unfolding ◌+ℤ◌
pos-add a b = ground arith

power_ten : (a k : ℕ) → a * 10 ^ suc k ≡ a * 10 * 10 ^ k
power_ten a k = simp unary_clauses (omega arith)

times_one : (a : ℕ) → a * 10 ^ zero ≡ a
times_one a = simp unary_clauses (omega arith)

-- No intermediate result is larger than the last one.
factor_small : (a k b : ℕ) → a * 10 ^ k < b → a < b
factor_small a zero b h = omega (arith, h, times_one a)
factor_small a (suc k) b h =
    omega (arith, factor_small (a * 10) k b (omega (arith, h, power_ten a k)))

times_ten_lem : (n r : ℕ) → r * 10 ^ n < 2 ^ 63 → times_ten n (pos r) ≡ pos (r * 10 ^ n)
unfolding times_ten
times_ten_lem zero r h = ap pos (sym (times_one r))
times_ten_lem (suc n) r h =
    let small : r * 10 * 10 ^ n < 2 ^ 63 = omega (arith, h, power_ten r n) in
    rw (pos-mul r 10, wrap_i64_small (r * 10) (factor_small (r * 10) n (2 ^ 63) small))
      (times_ten_lem n (r * 10) small ∙ ap pos (sym (power_ten r n)))

pub pow10_lem : (n : ℕ) → 10 ^ n < 2 ^ 63 → pow10 n ≡ pos (10 ^ n)
unfolding pow10
pow10_lem n h = times_ten_lem n 1 (omega (arith, h)) ∙ ap pos (omega arith)

power_positive : (n : ℕ) → 1 ≤ 10 ^ n
power_positive zero = simp unary_clauses (omega arith)
power_positive (suc n) = simp unary_clauses (omega (arith, power_positive n))

pub power_mono : (k n : ℕ) → k ≤ n → 10 ^ k ≤ 10 ^ n
power_mono zero n h = simp unary_clauses (power_positive n)
power_mono (suc k) zero h = absurd (omega arith)
power_mono (suc k) (suc n) h = simp unary_clauses (omega (arith, power_mono k n (omega arith)))

drop_past : (xs ys : Text) (y : ℕ) → drop (suc (length xs)) (xs ++ y ∷ ys) ≡ ys
drop_past [] ys y = refl
drop_past (x ∷ xs) ys y = drop_past xs ys y

pub take-replicate : (n k c : ℕ) → n ≤ k → take n (replicate k c) ≡ replicate n c
take-replicate zero k c h = refl
take-replicate (suc n) zero c h = absurd (omega arith)
take-replicate (suc n) (suc k) c h = ap (λ cs. c ∷ cs) (take-replicate n k c (omega arith))

pub take-min : (n : ℕ) (xs : Text) → take (min (length xs) n) xs ≡ take n xs
take-min zero xs = simp unary_clauses refl
take-min (suc n) [] = simp unary_clauses refl
take-min (suc n) (x ∷ xs) = simp unary_clauses (ap (λ cs. x ∷ cs) (take-min n xs))

-- `n` digits of a fraction: cut, or padded with zeros.
abbrev pub fitted : ℕ → Text → Text
fitted n fp = take n (fp ++ replicate n digit_zero)

pub take_padded :
    (n k : ℕ) (fp : Text)
    → n ≤ k
    → take n (fp ++ replicate k digit_zero)
      ≡ take n fp ++ replicate (n - min (length fp) n) digit_zero
take_padded zero k fp h = simp unary_clauses refl
take_padded (suc n) k [] h = simp unary_clauses (take-replicate (suc n) k digit_zero h)
take_padded (suc n) k (c ∷ cs) h =
    simp unary_clauses (ap (λ ds. c ∷ ds) (take_padded n k cs (omega arith)))

pub length-fitted : (n : ℕ) (fp : Text) → length (fitted n fp) ≡ n
length-fitted n fp = omega (
  arith,
  length-take n (fp ++ replicate n digit_zero),
  length-append fp (replicate n digit_zero),
  length-replicate n digit_zero,
)

fraction_value_digits :
    (fp : Text) (n : ℕ)
    → AreDigits fp
    → value_of (take n fp) < 2 ^ 63
    → fraction_value fp n ≡ pos (value_of (take n fp))
unfolding fraction_value value_of value_from
fraction_value_digits fp zero h small = refl
fraction_value_digits fp (suc n) h small =
    from_chars_i64_digits (take (suc n) fp) (All-take (λ c. is_digit c ≡ true) (suc n) fp h) small

fraction_value_used :
    (fp : Text) (n : ℕ)
    → AreDigits fp
    → value_of (take n fp) < 2 ^ 63
    → fraction_value fp (min (length fp) n) ≡ pos (value_of (take n fp))
fraction_value_used fp n h small =
    let same = ap value_of (take-min n fp) in
    fraction_value_digits fp (min (length fp) n) h (omega (arith, same, small)) ∙ ap pos same

value-fitted :
    (n : ℕ) (fp : Text)
    → value_of (fitted n fp) ≡ value_of (take n fp) * 10 ^ (n - min (length fp) n)
unfolding value_of
value-fitted n fp =
    let zeros = n - min (length fp) n in
    ap value_of (take_padded n n fp (omega arith))
    ∙ value_from-append 0 (take n fp) (replicate zeros digit_zero)
    ∙ value_from_zeros (value_of (take n fp)) zeros

value-joined :
    (n : ℕ) (ip fp : Text)
    → value_of (ip ++ fitted n fp)
      ≡ value_of ip * 10 ^ n + value_of (take n fp) * 10 ^ (n - min (length fp) n)
unfolding value_of
value-joined n ip fp = omega (
  arith,
  value_from-append 0 ip (fitted n fp),
  value_from_shift (value_from 0 ip) (fitted n fp),
  ap (λ k. value_from 0 ip * 10 ^ k) (length-fitted n fp),
  value-fitted n fp,
)

integer_part_stopped : (ip fp : Text) → AreDigits ip → integer_part (ip ++ full_stop ∷ fp) ≡ ip
unfolding integer_part
integer_part_stopped ip fp h =
    rw (integer_part, find_stop ip fp h) (take-append ip (full_stop ∷ fp))

fraction_part_stopped : (ip fp : Text) → AreDigits ip → fraction_part (ip ++ full_stop ∷ fp) ≡ fp
unfolding fraction_part
fraction_part_stopped ip fp h = rw (fraction_part, find_stop ip fp h) (drop_past ip fp full_stop)

-- The two parts of the text, as numbers, and their sum.
scale_parts :
    (text ip fp : Text) (n : ℕ) (a b : ℕ)
    → integer_part text ≡ ip
    → fraction_part text ≡ fp
    → stored (pos 0) (from_chars_i64 ip) ≡ pos a
    → fraction_value fp (min (length fp) n) ≡ pos b
    → 10 ^ n < 2 ^ 63
    → a * 10 ^ n + b * 10 ^ (n - min (length fp) n) < 2 ^ 63
    → scale_decimal_string_to_i64 text n ≡ pos (a * 10 ^ n + b * 10 ^ (n - min (length fp) n))
unfolding scale_decimal_string_to_i64
scale_parts text ip fp n a b hi hf ha hb power small =
    let k = n - min (length fp) n in
    rw
      (
        hi,
        hf,
        ha,
        hb,
        pow10_lem n power,
        pow10_lem k (omega (arith, power, power_mono k n (omega arith))),
        pos-mul a (10 ^ n),
        pos-mul b (10 ^ k),
        wrap_i64_small (a * 10 ^ n) (omega (arith, small)),
        wrap_i64_small (b * 10 ^ k) (omega (arith, small)),
        pos-add (a * 10 ^ n) (b * 10 ^ k),
      )
      (wrap_i64_small (a * 10 ^ n + b * 10 ^ k) small)

-- The numbers on both sides of the stop are no larger than the whole one.
parts_small :
    (ip fp : Text) (n : ℕ)
    → value_of (ip ++ fitted n fp) < 2 ^ 63
    → (value_of ip < 2 ^ 63) × (value_of (take n fp) < 2 ^ 63)
parts_small ip fp n small =
    let sum = value-joined n ip fp in
    (
      factor_small (value_of ip) n (2 ^ 63) (omega (arith, small, sum)),
      factor_small (value_of (take n fp)) (n - min (length fp) n) (2 ^ 63)
          (omega (arith, small, sum)),
    )

-- A number with a fraction is scaled to the number that its digits write, with exactly `n` of the
-- fraction: it is padded with zeros if it is shorter, and what is longer is cut, never rounded.
-- The scaled number and 10^n are below 2^63; no product or sum then leaves the range of an `i64`.
pub scale_decimal_joins :
    (ip fp : Text) (n : ℕ)
    → AreDigits ip
    → AreDigits fp
    → 10 ^ n < 2 ^ 63
    → value_of (ip ++ fitted n fp) < 2 ^ 63
    → scale_decimal_string_to_i64 (ip ++ full_stop ∷ fp) n ≡ pos (value_of (ip ++ fitted n fp))
scale_decimal_joins ip fp n hi hf power small =
    let (small_i, small_f) = parts_small ip fp n small in
    let sum = value-joined n ip fp in
    scale_parts (ip ++ full_stop ∷ fp) ip fp n (value_of ip) (value_of (take n fp))
      (integer_part_stopped ip fp hi) (fraction_part_stopped ip fp hi)
      (from_chars_i64_digits ip hi small_i) (fraction_value_used fp n hf small_f) power
      (omega (arith, small, sum))
    ∙ ap pos (sym sum)

-- A number without a stop is scaled to its digits, padded with `n` zeros.
pub scale_integer :
    (ip : Text) (n : ℕ)
    → AreDigits ip
    → 10 ^ n < 2 ^ 63
    → value_of (ip ++ fitted n []) < 2 ^ 63
    → scale_decimal_string_to_i64 ip n ≡ pos (value_of (ip ++ fitted n []))
unfolding integer_part fraction_part value_of value_from
scale_integer ip n hi power small =
    let (small_i, small_f) = parts_small ip [] n small in
    let sum = value-joined n ip [] in
    scale_parts ip ip [] n (value_of ip) (value_of (take n []))
      (rw (integer_part, find_no_stop ip hi) refl) (rw (fraction_part, find_no_stop ip hi) refl)
      (from_chars_i64_digits ip hi small_i) (fraction_value_used [] n tt small_f) power
      (omega (arith, small, sum))
    ∙ ap pos (sym sum)
