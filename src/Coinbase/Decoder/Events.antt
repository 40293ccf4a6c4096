-- ===== src/Coinbase/Decoder/Events.antt =====
-- data_feed/coinbase/l2_decoder.cc: an event as the venue writes it is emitted as the message of
-- its levels, where the output wants the change, and as nothing else where it does not.
use strategy_nodes.Common.{◌≡◌, refl, ok, ℤ, none, some, List, Text, codes, text_eq, All}
use strategy_nodes.L2.Message.{MessageType, update, snapshot, PairPrecision}
use strategy_nodes.Core.Json.{
  Json, string, array, object, member, no_members, find_member, find_json_member,
  require_json_member, is_string, is_array, get_string, get_array, and_then, require_json_string,
  require_json_array,
}
use strategy_nodes.Coinbase.Levels.{
  Sides, parse_type, no_levels, event_head, event_levels, make_message,
}
use strategy_nodes.Coinbase.Levels.Updates.{
  Update, UpdateFits, updates_json, bids_of, offers_of, decode_updates_exact,
}
use strategy_nodes.Coinbase.Decoder.{emit_event, decode_event}
use strategy_nodes.Venue.Decoder.{Output, returned}

abbrev pub type_name : MessageType → Text
type_name snapshot = codes "snapshot"
type_name update = codes "update"

-- A book change as Coinbase writes it.
abbrev pub event_json : Text → MessageType → List Update → Json
event_json product type updates = object (
    member (codes "type") (string (type_name type)) (
      member (codes "product_id") (string product)
        (member (codes "updates") (array (updates_json updates)) no_members)))

abbrev pub sides_of : PairPrecision → List Update → Sides
sides_of p updates = record { buys = bids_of p updates; sells = offers_of p updates }

event_head_named :
    (product : Text) (type : MessageType) (updates : List Update)
    → event_head (event_json product type updates) ≡ ok (product, type)
unfolding event_head require_json_string require_json_member find_json_member find_member text_eq
    is_string get_string and_then parse_type
event_head_named product snapshot updates = refl
event_head_named product update updates = refl

event_levels_named :
    (p : PairPrecision) (product : Text) (type : MessageType) (updates : List Update)
    → All (UpdateFits p) updates
    → event_levels (event_json product type updates) p ≡ ok (sides_of p updates)
unfolding event_levels require_json_array require_json_member find_json_member find_member text_eq
    is_array get_array and_then
event_levels_named p product type updates h = decode_updates_exact p no_levels updates h

module _ {O : Type 0} (out : Output O) (unspecified_days : ℤ → ℤ → ℤ → ℤ) where
  -- Where the output has a precision for the change and every update is two decimals of digits, with
  -- or without a stop, no finer than it and with values that fit an `i64` at it, in any number and on
  -- any sides, exactly one message is emitted: that of the product, the kind and the exact levels,
  -- those of each side in the order of the updates. An event has its type, product and updates, and
  -- an update its side, time, price and quantity.
  pub event_emitted :
      (venue_time capture : ℤ) (o : O) (product : Text) (type : MessageType) (updates : List Update)
      (p : PairPrecision)
      → out.find o product type ≡ some p
      → All (UpdateFits p) updates
      → decode_event out unspecified_days venue_time capture o (event_json product type updates)
        ≡ returned (out.emit o (make_message product type venue_time capture (sides_of p updates)))
  unfolding decode_event emit_event
  event_emitted venue_time capture o product type updates p wanted fit =
      rw
        (
          decode_event,
          event_head_named product type updates,
          wanted,
          emit_event,
          event_levels_named p product type updates fit,
        )
        refl

  -- Where the output has none, nothing is emitted and the levels are not looked at.
  pub event_unwanted :
      (venue_time capture : ℤ) (o : O) (product : Text) (type : MessageType) (updates : List Update)
      → out.find o product type ≡ none
      → decode_event out unspecified_days venue_time capture o (event_json product type updates)
        ≡ returned o
  unfolding decode_event
  event_unwanted venue_time capture o product type updates unwanted =
      rw (decode_event, event_head_named product type updates, unwanted) refl
