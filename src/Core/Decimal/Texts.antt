-- ===== src/Core/Decimal/Texts.antt =====
-- data_feed/core/decimal.cc: decimals as they are written, and what fits a precision.
use strategy_nodes.Common.{
  ℕ, ◌^◌, ◌≤◌, ◌<◌, ◌≡◌, pos, ◌∷◌, ◌++◌, Option, none, some, [], value_or, ap, ◌∙◌, append-nil,
  Text, length,
}
use strategy_nodes.Core.Chars.{full_stop, value_of, find_last_not_of}
use strategy_nodes.Core.Chars.Laws.{AreDigits, trimmed}
use strategy_nodes.Core.Decimal.{scale_decimal_string_to_i64, fraction_digits}
use strategy_nodes.Core.Decimal.Laws.{fitted, scale_decimal_joins, scale_integer}
use strategy_nodes.Core.Decimal.Exact.{fraction_digits_stopped, fraction_digits_integer}

-- A decimal as it is written: its digits before the stop and those after it, if it has a stop.
pub record Decimal : Type 0 where
  pub whole : Text
  pub fraction : Option Text

-- What follows the digits before the stop.
abbrev pub stop_text : Option Text → Text
stop_text none = []
stop_text (some fraction) = full_stop ∷ fraction

abbrev pub decimal_text : Decimal → Text
decimal_text d = d.whole ++ stop_text d.fraction

-- Its value at so many fraction digits.
abbrev pub value_at : ℕ → Decimal → ℕ
value_at n d = value_of (d.whole ++ fitted n (value_or d.fraction []))

-- It has digits only, and its value at so many fraction digits fits an `i64`, as does the scale.
pub record IsDecimal (n : ℕ) (d : Decimal) : Type 0 where
  pub whole_digits : AreDigits d.whole
  pub fraction_only_digits : AreDigits (value_or d.fraction [])
  pub scale_small : 10 ^ n < 2 ^ 63
  pub value_small : value_at n d < 2 ^ 63

-- It also has no more digits after the stop than `n`, but for zeros at its end.
pub record Fits (n : ℕ) (d : Decimal) : Type 0 where
  pub decimal : IsDecimal n d
  pub short : length (value_or d.fraction []) < 2 ^ 32
  pub fine : trimmed (value_or d.fraction []) ≤ n

pub scaled_value :
    (n : ℕ) (d : Decimal)
    → IsDecimal n d
    → scale_decimal_string_to_i64 (decimal_text d) n ≡ pos (value_at n d)
scaled_value n d h = at d.fraction h.fraction_only_digits h.value_small
  where
    at :
        (fraction : Option Text)
        → AreDigits (value_or fraction [])
        → value_of (d.whole ++ fitted n (value_or fraction [])) < 2 ^ 63
        → scale_decimal_string_to_i64 (d.whole ++ stop_text fraction) n
          ≡ pos (value_of (d.whole ++ fitted n (value_or fraction [])))
    at none digits small =
        ap (λ t. scale_decimal_string_to_i64 t n) (append-nil d.whole)
        ∙ scale_integer d.whole n h.whole_digits h.scale_small small
    at (some fp) digits small =
        scale_decimal_joins d.whole fp n h.whole_digits digits h.scale_small small

-- The fraction digits that it needs.
pub fraction_digits-decimal_text :
    (n : ℕ) (d : Decimal)
    → Fits n d
    → fraction_digits (decimal_text d) ≡ trimmed (value_or d.fraction [])
unfolding find_last_not_of
fraction_digits-decimal_text n d h = at d.fraction h.short
  where
    at :
        (fraction : Option Text)
        → length (value_or fraction []) < 2 ^ 32
        → fraction_digits (d.whole ++ stop_text fraction) ≡ trimmed (value_or fraction [])
    at none short =
        ap fraction_digits (append-nil d.whole)
        ∙ fraction_digits_integer d.whole h.decimal.whole_digits
    at (some fp) short = fraction_digits_stopped d.whole fp h.decimal.whole_digits short
