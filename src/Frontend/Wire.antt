-- ===== src/Frontend/Wire.antt =====
-- data_feed/frontend/wire.h and wire.cc, over the messages of proto/market_data.proto.
-- The generated protobuf classes are read as records of the fields that the .proto file declares;
-- an enum of the wire is its number, since an unknown number may arrive. How a message is
-- serialized is protobuf's: a type `B` of serialized bytes and a function `encode` into it are
-- parameters.
use strategy_nodes.Common.{
  ℕ, ℤ, Bool, Text, Option, none, some, List, ◌++◌, map, ◌==◌, if◌then◌else◌,
}
use strategy_nodes.L2.Message.{
  MessageType, update, snapshot, Level, Message, BookSpec, PairPrecision,
}
use strategy_nodes.Venue.Ids.{
  VenueId, kraken, coinbase, venues_num, Sink, live, recording, Code, unknown_venue, invalid_depth,
  unknown_symbol, unknown_id, symbol_in_use, venue_failed, ids_exhausted, Error, failure,
}

pub record WireLevel : Type 0 where
  pub price : ℤ
  pub quantity : ℤ

pub record StreamInfo : Type 0 where
  pub stream_id : ℕ
  pub symbol : Text
  pub venue : Text
  pub depth : ℕ
  pub price_decimals : ℕ
  pub qty_decimals : ℕ

pub data Kind : Type 0 where
  kind_unspecified kind_snapshot kind_delta : Kind

pub record WireBook : Type 0 where
  pub stream_id : ℕ
  pub kind : Kind
  pub bids : List WireLevel
  pub asks : List WireLevel
  pub checksum : ℕ
  pub venue_time_ns : ℤ
  pub capture_time_ns : ℤ

pub data FeedState : Type 0 where
  state_unspecified state_connecting state_live state_degraded state_disconnected : FeedState

pub record FeedStatus : Type 0 where
  pub state : FeedState
  pub detail : Text
  pub healthy_stream_ids : List ℕ

pub data ErrorCode : Type 0 where
  code_unspecified code_invalid_command code_invalid_depth code_unknown_symbol : ErrorCode
  code_unknown_id code_sink_mismatch code_symbol_in_use code_venue_failed : ErrorCode
  code_ids_exhausted : ErrorCode

pub record WireSubscription : Type 0 where
  pub id : ℕ
  pub venue : ℕ
  pub symbol : Text
  pub depth : ℕ
  pub sink : ℕ
  pub start_time_ns : ℤ

pub record VenueInfo : Type 0 where
  pub venue : ℕ
  pub name : Text
  pub connected : Bool

-- The `result` oneof of a CommandResult.
pub data Outcome : Type 0 where
  started_id : ℕ → Outcome
  ok_outcome : Outcome
  subscriptions : List WireSubscription → Outcome
  error_outcome : ErrorCode → Outcome
  pairs : List Text → List ℕ → Outcome
  venues : List VenueInfo → Outcome

pub record CommandResult : Type 0 where
  pub request_id : ℕ
  pub outcome : Outcome

-- The payload oneof of a MarketDataEvent.
pub data Event : Type 0 where
  info_event : StreamInfo → Event
  book_event : WireBook → Event
  status_event : FeedStatus → Event
  heartbeat_event : Event
  result_event : CommandResult → Event

-- The payloads' field numbers in MarketDataEvent.
abbrev pub book_field_number : ℕ
book_field_number = 4

unfoldable pub field_number_of : Event → ℕ
field_number_of (info_event i) = 3
field_number_of (book_event b) = book_field_number
field_number_of (status_event s) = 5
field_number_of heartbeat_event = 6
field_number_of (result_event r) = 7

pub record Payload (B : Type 0) : Type 0 where
  pub field_number : ℕ
  pub bytes : B

module _ {B : Type 0} (encode : Event → B) where
  -- `MakePayload` of each kind of message.
  unfoldable pub make_payload : Event → Payload B
  make_payload e = record { field_number = field_number_of e; bytes = encode e }

unfoldable pub make_stream_info : ℕ → Text → BookSpec → PairPrecision → StreamInfo
make_stream_info id venue book precision = record {
  stream_id = id;
  symbol = book.symbol;
  venue = venue;
  depth = book.depth;
  price_decimals = precision.price_decimals;
  qty_decimals = precision.qty_decimals;
}

-- `AppendLevels`: the levels go onto the end, in order.
unfoldable pub append_levels {ℓ} :
    {A : Type ℓ} → List A → (A → ℤ × ℤ) → List WireLevel → List WireLevel
append_levels levels price_and_quantity out =
    out ++ map (λ l. let (p, q) = price_and_quantity l in record { price = p; quantity = q }) levels

unfoldable pub kind_of : MessageType → Kind
kind_of snapshot = kind_snapshot
kind_of update = kind_delta

unfoldable pub level_pair : Level → ℤ × ℤ
level_pair l = (l.price, l.quantity)

-- `MakeBook`.
unfoldable pub make_wire_book : ℕ → Message → WireBook
unfolding kind_of append_levels level_pair
make_wire_book id m = record {
  stream_id = id;
  kind = kind_of m.type;
  bids = append_levels m.buys level_pair List.[];
  asks = append_levels m.sells level_pair List.[];
  checksum = m.checksum;
  venue_time_ns = m.venue_time_ns;
  capture_time_ns = m.capture_time_ns;
}

-- `ToWire` of an error's code.
unfoldable pub code_to_wire : Code → ErrorCode
code_to_wire unknown_venue = code_invalid_command
code_to_wire invalid_depth = code_invalid_depth
code_to_wire unknown_symbol = code_unknown_symbol
code_to_wire unknown_id = code_unknown_id
code_to_wire symbol_in_use = code_symbol_in_use
code_to_wire venue_failed = code_venue_failed
code_to_wire ids_exhausted = code_ids_exhausted

unfoldable pub make_command_error : Error → ErrorCode
unfolding code_to_wire
make_command_error (failure code) = code_to_wire code

-- SINK_LIVE is 1 and SINK_RECORD 2.
unfoldable pub sink_to_wire : Sink → ℕ
sink_to_wire recording = 2
sink_to_wire live = 1

-- VENUE_KRAKEN is 1, VENUE_COINBASE 2 and VENUE_UNSPECIFIED 0.
unfoldable pub venue_to_wire : VenueId → ℕ
venue_to_wire kraken = 1
venue_to_wire coinbase = 2
venue_to_wire venues_num = 0

unfoldable pub sink_from_wire : ℕ → Option Sink
sink_from_wire n = if n == 1 then some live else if n == 2 then some recording else none

unfoldable pub venue_from_wire : ℕ → Option VenueId
venue_from_wire n = if n == 1 then some kraken else if n == 2 then some coinbase else none
