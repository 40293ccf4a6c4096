-- ===== src/Kraken/Decoder.antt =====
-- data_feed/kraken/l2_decoder.h and l2_decoder.cc: frames of the "book" channel.
-- `std::chrono`'s unspecified dates are a parameter, and so is the output, by its interface. The
-- decoder keeps nothing across frames.
pub mod Emits
pub mod Books
use strategy_nodes.Common.{
  ℕ, ◌^◌, ℤ, pos, Bool, true, false, Option, none, some, List, [], ◌∷◌, Text, codes, text_eq,
  value_or, Result, ok, err, if◌then◌else◌,
}
use strategy_nodes.L2.Message.{MessageType, update, snapshot, Level, Message, PairPrecision}
use strategy_nodes.Core.Chars.{from_chars_unsigned, stored}
use strategy_nodes.Core.Decimal.{scale_decimal_string_to_i64}
use strategy_nodes.Core.Json.{
  Json, FrameError, no_object, string, and_then, find_json_member, require_json_string,
  require_json_array, find_json_string, is_object,
}
use strategy_nodes.Core.UnixTime.{parse_iso8601_to_unix_nanos}
use strategy_nodes.Venue.Decoder.{Output, RawFrame, Run, returned, threw}

unfoldable pub parse_scaled : Json → Text → ℕ → Result FrameError ℤ
parse_scaled level name decimals =
    and_then (require_json_string level name)
      (λ text. ok (scale_decimal_string_to_i64 text decimals))

unfoldable pub parse_level : PairPrecision → Json → Result FrameError Level
parse_level precision level =
    and_then (parse_scaled level (codes "price") precision.price_decimals) (λ price.
      and_then (parse_scaled level (codes "qty") precision.qty_decimals)
        (λ quantity. ok (record { price = price; quantity = quantity })))

-- The levels of a view are made one by one, up to the first that throws.
unfoldable pub parse_levels : PairPrecision → List Json → Result FrameError (List Level)
parse_levels precision [] = ok []
parse_levels precision (level ∷ levels) =
    and_then (parse_level precision level)
      (λ l. and_then (parse_levels precision levels) (λ ls. ok (l ∷ ls)))

unfoldable pub parse_side : Json → Text → PairPrecision → Result FrameError (List Level)
parse_side entry name precision = and_then (require_json_array entry name) (parse_levels precision)

unfoldable pub parse_checksum : Json → Result FrameError ℕ
parse_checksum entry =
    and_then (find_json_string entry (codes "checksum"))
      (λ text. ok (stored 0 (from_chars_unsigned (2 ^ 32) (value_or text []))))

unfoldable pub parse_venue_time : (ℤ → ℤ → ℤ → ℤ) → Json → Result FrameError ℤ
parse_venue_time unspecified_days entry =
    and_then (find_json_string entry (codes "timestamp")) (λ text. ok (
      value_or (elim text [ none ↦ none | some t ↦ parse_iso8601_to_unix_nanos unspecified_days t ])
        (pos 0)))

-- The first entry of the "data" array, which must be an object.
unfoldable pub first_object : List Json → Result FrameError Json
first_object [] = err no_object
first_object (entry ∷ rest) = if is_object entry then ok entry else err no_object

unfoldable pub book_data : Json → Result FrameError Json
book_data document = and_then (require_json_array document (codes "data")) first_object

-- A book change's pair and kind, with the entry that holds it.
pub record Head : Type 0 where
  pub entry : Json
  pub symbol : Text
  pub type : MessageType

unfoldable pub type_of : Text → MessageType
type_of type = if text_eq type (codes "snapshot") then snapshot else update

unfoldable pub book_head : Json → Result FrameError Head
book_head document = and_then (book_data document) (λ entry.
    and_then (require_json_string entry (codes "symbol")) (λ symbol.
      and_then (require_json_string document (codes "type"))
        (λ type. ok (record { entry = entry; symbol = symbol; type = type_of type }))))

-- The fields of a designated initializer are read in their order.
unfoldable pub make_message : (ℤ → ℤ → ℤ → ℤ) → Head → ℤ → PairPrecision → Result FrameError Message
make_message unspecified_days head capture_time_ns precision =
    and_then (parse_checksum head.entry) (λ checksum.
      and_then (parse_venue_time unspecified_days head.entry) (λ venue_time_ns.
        and_then (parse_side head.entry (codes "bids") precision) (λ buys.
          and_then (parse_side head.entry (codes "asks") precision) (λ sells. ok (record {
            type = head.type;
            checksum = checksum;
            venue_time_ns = venue_time_ns;
            capture_time_ns = capture_time_ns;
            symbol = head.symbol;
            buys = buys;
            sells = sells;
          })))))

-- `document["channel"] != "book"`: a value of another kind is not that string either.
unfoldable pub is_book_name : Json → Bool
is_book_name (string s) = text_eq s (codes "book")
is_book_name j = false

unfoldable pub is_book_frame : Json → Bool
is_book_frame document = elim (find_json_member document (codes "channel")) [
  | none ↦ false
  | some channel ↦ is_book_name channel
]

module _ {O : Type 0} (out : Output O) (unspecified_days : ℤ → ℤ → ℤ → ℤ) where
  unfoldable pub emit_message : O → Result FrameError Message → Run O
  emit_message o (err e) = threw e o
  emit_message o (ok message) = returned (out.emit o message)

  unfoldable pub decode_wanted : O → Head → ℤ → Option PairPrecision → Run O
  decode_wanted o head capture_time_ns none = returned o
  decode_wanted o head capture_time_ns (some precision) =
      emit_message o (make_message unspecified_days head capture_time_ns precision)

  unfoldable pub decode_book : O → Result FrameError Head → ℤ → Run O
  decode_book o (err e) capture_time_ns = threw e o
  decode_book o (ok head) capture_time_ns =
      decode_wanted o head capture_time_ns (out.find o head.symbol head.type)

  unfoldable pub decode_document : O → Option Json → ℤ → Run O
  decode_document o none capture_time_ns = returned o
  decode_document o (some document) capture_time_ns =
      if is_book_frame document
      then decode_book o (book_head document) capture_time_ns
      else returned o

  unfoldable pub decode : O → RawFrame → Run O
  decode o frame = decode_document o frame.json frame.capture_time_ns
