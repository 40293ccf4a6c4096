-- ===== src/Core/Decimal/Exact.antt =====
-- data_feed/core/decimal.cc: the fraction digits that a text needs, and that scaling at no fewer
-- loses none of them.
use strategy_nodes.Common.{
  ℕ, zero, suc, ◌+◌, ◌-◌, ◌*◌, ◌^◌, ◌%◌, ◌≤◌, ◌<◌, ◌≡◌, refl, sym, ap, ◌∙◌, pos, ◌*ℤ◌, [], ◌∷◌,
  ◌++◌, Text, length, take, replicate, append_assoc, arith, leb, if◌then◌else◌,
}
use strategy_nodes.Core.Chars.{digit_zero, full_stop, value_from, value_of}
use strategy_nodes.Core.Chars.Laws.{
  AreDigits, value_from-append, find_stop, find_no_stop, find_last_stopped, trimmed, trimmed_rest,
  trimmed_zero, trimmed_bound,
}
use strategy_nodes.Core.Decimal.{position_or_npos, scale_decimal_string_to_i64, fraction_digits}
use strategy_nodes.Core.Decimal.Laws.{
  fitted, scale_decimal_joins, pos-mul, power_mono, take-replicate,
}

counted : (a b : ℕ) → b < 2 ^ 32 → (if leb (a + b) a then 0 else (a + b - a) % 2 ^ 32) ≡ b
counted a b h = ground arith

pub fraction_digits_stopped :
    (ip fp : Text)
    → AreDigits ip
    → length fp < 2 ^ 32
    → fraction_digits (ip ++ full_stop ∷ fp) ≡ trimmed fp
unfolding fraction_digits position_or_npos
fraction_digits_stopped ip fp h short =
    rw (fraction_digits, find_stop ip fp h, find_last_stopped ip fp)
      (counted (length ip) (trimmed fp) (omega (arith, short, trimmed_bound fp)))

pub fraction_digits_integer : (ip : Text) → AreDigits ip → fraction_digits ip ≡ 0
unfolding fraction_digits
fraction_digits_integer ip h = rw (fraction_digits, find_no_stop ip h) refl

replicate_last : (n : ℕ) → replicate (suc n) digit_zero ≡ replicate n digit_zero ++ digit_zero ∷ []
replicate_last zero = refl
replicate_last (suc n) = ap (λ ds. digit_zero ∷ ds) (replicate_last n)

-- One more digit of a fraction that has none left is a zero.
take_one_more :
    (n k j : ℕ) (fp : Text)
    → n < k
    → n ≤ j
    → trimmed fp ≤ n
    → take (suc n) (fp ++ replicate k digit_zero)
      ≡ take n (fp ++ replicate j digit_zero) ++ digit_zero ∷ []
take_one_more n k j [] hk hj h =
    take-replicate (suc n) k digit_zero (omega arith)
    ∙ replicate_last n
    ∙ ap (λ ds. ds ++ digit_zero ∷ []) (sym (take-replicate n j digit_zero hj))
take_one_more zero k j (c ∷ cs) hk hj h = ap (λ d. d ∷ []) (trimmed_zero c cs h)
take_one_more (suc n) k j (c ∷ cs) hk hj h =
    ap (λ ds. c ∷ ds) (take_one_more n k j cs (omega arith) (omega arith) (trimmed_rest c n cs h))

value_one_more :
    (ip fp : Text) (n : ℕ)
    → trimmed fp ≤ n
    → value_of (ip ++ fitted (suc n) fp) ≡ value_of (ip ++ fitted n fp) * 10
unfolding value_of value_from
value_one_more ip fp n h =
    ap (λ ds. value_of (ip ++ ds)) (take_one_more n (suc n) n fp (omega arith) (omega arith) h)
    ∙ ap value_of (sym (append_assoc ip (fitted n fp) (digit_zero ∷ [])))
    ∙ value_from-append 0 (ip ++ fitted n fp) (digit_zero ∷ [])
    ∙ omega arith

-- Where a text has at most `n` fraction digits up to its last one that is not a zero, scaling it
-- at `n` loses nothing: one digit more only multiplies the result by ten. The number with the
-- digit more and 10^(n + 1) are below 2^63.
pub scale_decimal_exact :
    (ip fp : Text) (n : ℕ)
    → AreDigits ip
    → AreDigits fp
    → length fp < 2 ^ 32
    → 10 ^ suc n < 2 ^ 63
    → value_of (ip ++ fitted (suc n) fp) < 2 ^ 63
    → fraction_digits (ip ++ full_stop ∷ fp) ≤ n
    → scale_decimal_string_to_i64 (ip ++ full_stop ∷ fp) (suc n)
      ≡ scale_decimal_string_to_i64 (ip ++ full_stop ∷ fp) n *ℤ pos 10
scale_decimal_exact ip fp n hi hf short power small few =
    let fine : trimmed fp ≤ n = omega (arith, few, fraction_digits_stopped ip fp hi short) in
    let longer = value_one_more ip fp n fine in
    scale_decimal_joins ip fp (suc n) hi hf power small
    ∙ ap pos longer
    ∙ sym (pos-mul (value_of (ip ++ fitted n fp)) 10)
    ∙ ap (λ z. z *ℤ pos 10)
        (sym (
          scale_decimal_joins ip fp n hi hf
            (omega (arith, power, power_mono n (suc n) (omega arith)))
            (omega (arith, small, longer))))
