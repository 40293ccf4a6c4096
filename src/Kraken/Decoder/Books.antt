-- ===== src/Kraken/Decoder/Books.antt =====
-- data_feed/kraken/l2_decoder.cc: a book frame as the venue writes it is emitted as the message of
-- its levels.
use strategy_nodes.Common.{
  ◌^◌, ◌≡◌, refl, ap, ℤ, pos, some, List, [], ◌∷◌, map, Text, codes, text_eq, value_or, ok, All,
}
use strategy_nodes.L2.Message.{MessageType, update, snapshot, Level, Message, PairPrecision}
use strategy_nodes.Core.Chars.{from_chars_unsigned, stored}
use strategy_nodes.Core.Decimal.Texts.{Decimal, decimal_text, value_at, IsDecimal, scaled_value}
use strategy_nodes.Core.Json.{
  Json, string, array, object, member, no_members, Elements, no_elements, element, elements,
  find_member, find_json_member, require_json_member, is_string, is_array, is_object, get_string,
  get_array, and_then, require_json_string, require_json_array, find_json_string, string_or_throw,
}
use strategy_nodes.Core.UnixTime.{parse_iso8601_to_unix_nanos}
use strategy_nodes.Kraken.Decoder.{
  Head, parse_scaled, parse_level, parse_levels, parse_side, parse_checksum, parse_venue_time,
  first_object, book_data, type_of, book_head, make_message, is_book_name, is_book_frame,
  emit_message, decode_wanted, decode_book, decode_document, decode,
}
use strategy_nodes.Venue.Decoder.{Output, returned}

-- A level of a frame, its numbers as they are written.
pub record Quote : Type 0 where
  pub price : Decimal
  pub quantity : Decimal

abbrev pub IsQuote : PairPrecision → Quote → Type 0
IsQuote p q = IsDecimal p.price_decimals q.price × IsDecimal p.qty_decimals q.quantity

abbrev pub quote_json : Quote → Json
quote_json q = object (
    member (codes "price") (string (decimal_text q.price))
      (member (codes "qty") (string (decimal_text q.quantity)) no_members))

abbrev pub quotes_json : List Quote → Elements
quotes_json [] = no_elements
quotes_json (q ∷ qs) = element (quote_json q) (quotes_json qs)

abbrev pub level_of : PairPrecision → Quote → Level
level_of p q = record {
  price = pos (value_at p.price_decimals q.price);
  quantity = pos (value_at p.qty_decimals q.quantity);
}

-- A book change as Kraken writes it: the text of its checksum and its time are the venue's.
pub record Change : Type 0 where
  pub symbol : Text
  pub type : MessageType
  pub bids : List Quote
  pub asks : List Quote
  pub checksum : Text
  pub timestamp : Text

abbrev pub type_name : MessageType → Text
type_name snapshot = codes "snapshot"
type_name update = codes "update"

abbrev pub entry_json : Change → Json
entry_json c = object (
    member (codes "symbol") (string c.symbol) (
      member (codes "bids") (array (quotes_json c.bids)) (
        member (codes "asks") (array (quotes_json c.asks)) (
          member (codes "checksum") (string c.checksum)
            (member (codes "timestamp") (string c.timestamp) no_members)))))

abbrev pub frame_json : Change → Json
frame_json c = object (
    member (codes "channel") (string (codes "book")) (
      member (codes "type") (string (type_name c.type))
        (member (codes "data") (array (element (entry_json c) no_elements)) no_members)))

abbrev pub message_of : (ℤ → ℤ → ℤ → ℤ) → ℤ → PairPrecision → Change → Message
message_of unspecified_days capture p c = record {
  type = c.type;
  checksum = stored 0 (from_chars_unsigned (2 ^ 32) c.checksum);
  venue_time_ns = value_or (parse_iso8601_to_unix_nanos unspecified_days c.timestamp) (pos 0);
  capture_time_ns = capture;
  symbol = c.symbol;
  buys = map (level_of p) c.bids;
  sells = map (level_of p) c.asks;
}

parse_level_exact :
    (p : PairPrecision) (q : Quote) → IsQuote p q → parse_level p (quote_json q) ≡ ok (level_of p q)
unfolding parse_level parse_scaled require_json_string require_json_member find_json_member
    find_member text_eq is_string get_string and_then
parse_level_exact p q (hp, hq) =
    rw (scaled_value p.price_decimals q.price hp, scaled_value p.qty_decimals q.quantity hq) refl

parse_levels_exact :
    (p : PairPrecision) (qs : List Quote)
    → All (IsQuote p) qs
    → parse_levels p (elements (quotes_json qs)) ≡ ok (map (level_of p) qs)
unfolding parse_levels elements and_then
parse_levels_exact p [] h = refl
parse_levels_exact p (q ∷ qs) (hq, h) =
    rw (parse_level_exact p q hq, parse_levels_exact p qs h) refl

type_of_name : (t : MessageType) → type_of (type_name t) ≡ t
unfolding type_of text_eq
type_of_name snapshot = refl
type_of_name update = refl

abbrev head_of : Change → Head
head_of c = record { entry = entry_json c; symbol = c.symbol; type = c.type }

book_head_exact : (c : Change) → book_head (frame_json c) ≡ ok (head_of c)
unfolding book_head book_data first_object require_json_array require_json_string
    require_json_member find_json_member find_member text_eq is_string is_array is_object get_string
    get_array elements and_then
book_head_exact c =
    ap (λ t. ok (record { entry = entry_json c; symbol = c.symbol; type = t }))
      (type_of_name c.type)

make_message_exact :
    (unspecified_days : ℤ → ℤ → ℤ → ℤ) (capture : ℤ) (p : PairPrecision) (c : Change)
    → All (IsQuote p) c.bids
    → All (IsQuote p) c.asks
    → make_message unspecified_days (head_of c) capture p
      ≡ ok (message_of unspecified_days capture p c)
unfolding make_message parse_checksum parse_venue_time parse_side require_json_array
    require_json_member find_json_member find_member find_json_string string_or_throw text_eq
    is_string is_array get_string get_array and_then
make_message_exact unspecified_days capture p c hb ha =
    rw (parse_levels_exact p c.bids hb, parse_levels_exact p c.asks ha) refl

module _ {O : Type 0} (out : Output O) (unspecified_days : ℤ → ℤ → ℤ → ℤ) where
  -- Where the output has a precision for the change and every price and quantity is a decimal of
  -- digits, with or without a stop, whose value at the precision fits an `i64`, exactly one message is emitted: that of the frame's pair and kind, its checksum and time (0
  -- where their texts are none), and its levels in order, each number cut or padded to the
  -- precision's digits.
  pub book_emitted :
      (capture : ℤ) (o : O) (c : Change) (p : PairPrecision)
      → out.find o c.symbol c.type ≡ some p
      → All (IsQuote p) c.bids
      → All (IsQuote p) c.asks
      → decode out unspecified_days o
          (record { json = some (frame_json c); capture_time_ns = capture })
        ≡ returned (out.emit o (message_of unspecified_days capture p c))
  unfolding decode decode_document is_book_frame is_book_name find_json_member find_member text_eq
      decode_book decode_wanted emit_message
  book_emitted capture o c p wanted hb ha =
      rw (book_head_exact c, wanted, make_message_exact unspecified_days capture p c hb ha) refl
