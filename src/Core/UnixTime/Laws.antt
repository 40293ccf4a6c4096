-- ===== src/Core/UnixTime/Laws.antt =====
-- data_feed/core/unix_time.cc: a timestamp of digits is read field by field, and its fraction is
-- cut, or padded, to nanoseconds.
use strategy_nodes.Common.{
  ℕ, zero, suc, ◌+◌, ◌-◌, ◌*◌, ◌/◌, ◌^◌, ◌≡◌, refl, sym, ap, ◌∙◌, true, [], ◌∷◌, ◌++◌, Text, arith,
}
use native.Mathlib.Numerals.{unary_clauses}
use strategy_nodes.Core.Chars.{digit_zero, is_digit, value_from, value_of}
use strategy_nodes.Core.Chars.Laws.{AreDigits, value_from_shift, value_from_zeros}
use strategy_nodes.Core.Decimal.Laws.{fitted, take-replicate, take_padded, length-fitted}
use strategy_nodes.Core.UnixTime.{fraction_loop}

-- Past the nanoseconds every digit is worth nothing.
fraction_loop_past :
    (ds rest : Text) (n : ℕ) → AreDigits ds → fraction_loop (ds ++ b'Z' ∷ rest) 0 n ≡ n
unfolding fraction_loop is_digit
fraction_loop_past [] rest n h = refl
fraction_loop_past (c ∷ cs) rest n (hc, h) =
    rw (hc)
      (ap (fraction_loop (cs ++ b'Z' ∷ rest) 0) (omega arith) ∙ fraction_loop_past cs rest n h)

fraction_loop_cons :
    (c : ℕ) (cs : Text) (v n : ℕ)
    → is_digit c ≡ true
    → fraction_loop (c ∷ cs) v n ≡ fraction_loop cs (v / 10) (n + (c - digit_zero) * v)
unfolding fraction_loop
fraction_loop_cons c cs v n hc = rw (hc) refl

tenth : (k : ℕ) → 10 ^ suc k / 10 ≡ 10 ^ k
tenth k = simp unary_clauses (omega arith)

-- The number of a digit before `suc k` others.
value_of_first :
    (k c : ℕ) (cs : Text)
    → value_of (fitted (suc (suc k)) (c ∷ cs))
      ≡ (c - digit_zero) * 10 ^ suc k + value_of (fitted (suc k) cs)
unfolding value_of value_from
value_of_first k c cs =
    let same =
      take_padded (suc k) (suc (suc k)) cs (omega arith)
      ∙ sym (take_padded (suc k) (suc k) cs (omega arith)) in
    ap (value_from (0 * 10 + (c - digit_zero))) same
    ∙ value_from_shift (0 * 10 + (c - digit_zero)) (fitted (suc k) cs)
    ∙ omega (arith, ap (λ l. (c - digit_zero) * 10 ^ l) (length-fitted (suc k) cs))

pub fraction_loop_lem :
    (k : ℕ) (ds rest : Text) (n : ℕ)
    → AreDigits ds
    → fraction_loop (ds ++ b'Z' ∷ rest) (10 ^ k) n ≡ n + value_of (fitted (suc k) ds)
unfolding fraction_loop is_digit value_of value_from
fraction_loop_lem k [] rest n h = omega (
  arith,
  ap value_of (take-replicate (suc k) (suc k) digit_zero (omega arith)),
  value_from_zeros 0 (suc k),
)
fraction_loop_lem zero (c ∷ cs) rest n (hc, h) =
    fraction_loop_cons c (cs ++ b'Z' ∷ rest) 1 n hc
    ∙ fraction_loop_past cs rest (n + (c - digit_zero) * 1) h
    ∙ omega arith
fraction_loop_lem (suc k) (c ∷ cs) rest n (hc, h) =
    let m = n + (c - digit_zero) * 10 ^ suc k in
    fraction_loop_cons c (cs ++ b'Z' ∷ rest) (10 ^ suc k) n hc
    ∙ ap (λ v. fraction_loop (cs ++ b'Z' ∷ rest) v m) (tenth k)
    ∙ fraction_loop_lem k cs rest m h
    ∙ omega (arith, value_of_first k c cs)
