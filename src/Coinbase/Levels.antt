-- ===== src/Coinbase/Levels.antt =====
-- data_feed/coinbase/l2_decoder.h and l2_decoder.cc: the levels of an event.
pub mod Updates
use strategy_nodes.Common.{
  ℕ, ◌+◌, ◌-◌, ◌^◌, ◌<◌, ℤ, Bool, Bool-cases, ltb→lt, inl, inr, true, false, Option, none, some,
  List, [], ◌∷◌, ◌++◌, Text, codes, text_eq, value_or, Result, ok, err, ltb, leb, ◌==◌,
  if◌then◌else◌,
}
use strategy_nodes.L2.Message.{MessageType, update, snapshot, Level, Message, PairPrecision}
use strategy_nodes.Core.Chars.{
  FromChars, parsed, invalid_argument, result_out_of_range, from_chars_unsigned, unsigned_of,
  span_digits, value_of, minus_sign,
}
use strategy_nodes.Core.Decimal.{scale_decimal_string_to_i64, fraction_digits}
use strategy_nodes.Core.Json.{
  Json, FrameError, malformed_field, negative, finer_than_precision, unknown_event, unknown_side,
  skipped, and_then, Holds, and_then-Holds, require_json_string, require_json_array,
  find_json_string, is_object,
}
use strategy_nodes.Core.UnixTime.{parse_iso8601_to_unix_nanos}
use strategy_nodes.Venue.Decoder.{Output, RawFrame, Run, returned, threw, for_each}

-- A number that stands to the end of the text.
unfoldable pub whole_unsigned : Text → FromChars ℕ → Result FrameError ℕ
whole_unsigned name (parsed n []) = ok n
whole_unsigned name (parsed n (c ∷ rest)) = err (malformed_field name)
whole_unsigned name invalid_argument = err (malformed_field name)
whole_unsigned name (result_out_of_range rest) = err (malformed_field name)

unfoldable pub require_unsigned : Json → Text → Result FrameError ℕ
require_unsigned holder name =
    and_then (require_json_string holder name)
      (λ text. whole_unsigned name (from_chars_unsigned (2 ^ 64) text))

unfoldable pub starts_with_minus : Text → Bool
starts_with_minus [] = false
starts_with_minus (c ∷ cs) = c == minus_sign

-- The two tests of a decimal, and its scaling.
unfoldable pub scaled : Text → Text → ℕ → Result FrameError ℤ
scaled name text decimals =
    if starts_with_minus text
    then err (negative name)
    else if ltb decimals (fraction_digits text)
    then err (finer_than_precision name)
    else ok (scale_decimal_string_to_i64 text decimals)

unfoldable pub require_scaled : Json → Text → ℕ → Result FrameError ℤ
require_scaled level name decimals =
    and_then (require_json_string level name) (λ text. scaled name text decimals)

unfoldable pub parse_type : Text → Result FrameError MessageType
parse_type type =
    if text_eq type (codes "snapshot")
    then ok snapshot
    else if text_eq type (codes "update")
    then ok update
    else err (unknown_event type)

pub record Sides : Type 0 where
  pub buys : List Level
  pub sells : List Level

pub data Side : Type 0 where
  bid offer : Side

-- Which of the two lists `SideOf` gives.
unfoldable pub side_of : Text → Result FrameError Side
side_of side =
    if text_eq side (codes "bid")
    then ok bid
    else if text_eq side (codes "offer")
    then ok offer
    else err (unknown_side side)

-- `push_back` on the list of a side.
unfoldable pub push_back : Sides → Side → Level → Sides
push_back s bid l = record s { buys = s.buys ++ l ∷ [] }
push_back s offer l = record s { sells = s.sells ++ l ∷ [] }

-- One turn of the loop over the updates.
unfoldable pub decode_update : PairPrecision → Sides → Json → Result FrameError Sides
decode_update precision sides change = and_then (require_json_string change (codes "side")) (λ name.
    and_then (side_of name) (λ side.
      and_then (require_scaled change (codes "price_level") precision.price_decimals) (λ price.
        and_then (require_scaled change (codes "new_quantity") precision.qty_decimals)
          (λ qty. ok (push_back sides side (record { price = price; quantity = qty }))))))

unfoldable pub decode_updates : PairPrecision → Sides → List Json → Result FrameError Sides
decode_updates precision sides [] = ok sides
decode_updates precision sides (change ∷ changes) =
    and_then (decode_update precision sides change) (λ s. decode_updates precision s changes)

abbrev pub no_levels : Sides
no_levels = record { buys = []; sells = [] }

-- The levels of an event.
unfoldable pub event_levels : Json → PairPrecision → Result FrameError Sides
event_levels event precision =
    and_then (require_json_array event (codes "updates")) (decode_updates precision no_levels)

-- The event's product and kind.
unfoldable pub event_head : Json → Result FrameError (Text × MessageType)
event_head event = and_then (require_json_string event (codes "product_id")) (λ product.
    and_then (require_json_string event (codes "type"))
      (λ type. and_then (parse_type type) (λ kind. ok (product, kind))))

unfoldable pub make_message : Text → MessageType → ℤ → ℤ → Sides → Message
make_message product type venue_time_ns capture_time_ns sides = record {
  type = type;
  checksum = 0;
  venue_time_ns = venue_time_ns;
  capture_time_ns = capture_time_ns;
  symbol = product;
  buys = sides.buys;
  sells = sides.sells;
}

parsed_bound :
    (name : Text) (limit n : ℕ) (rest : Text)
    → n < limit
    → Holds (λ m. m < limit) (whole_unsigned name (parsed n rest))
unfolding whole_unsigned
parsed_bound name limit n [] h = h
parsed_bound name limit n (c ∷ rest) h = tt

whole_unsigned_bound :
    (name : Text) (limit : ℕ) (read : Text × Text)
    → Holds (λ n. n < limit) (whole_unsigned name (unsigned_of limit read))
unfolding whole_unsigned unsigned_of
whole_unsigned_bound name limit ([], rest) = tt
whole_unsigned_bound name limit (c ∷ cs, rest) = elim (Bool-cases (ltb (value_of (c ∷ cs)) limit)) [
  | inl e ↦
      rw (e) (parsed_bound name limit (value_of (c ∷ cs)) rest (ltb→lt (value_of (c ∷ cs)) limit e))
  | inr e ↦ rw (e) tt
]

pub require_unsigned_bound :
    (holder : Json) (name : Text) → Holds (λ n. n < 2 ^ 64) (require_unsigned holder name)
unfolding require_unsigned from_chars_unsigned
require_unsigned_bound holder name =
    and_then-Holds (λ n. n < 2 ^ 64) (require_json_string holder name)
      (λ text. whole_unsigned name (from_chars_unsigned (2 ^ 64) text))
      (λ text. whole_unsigned_bound name (2 ^ 64) (span_digits text))
