-- ===== src/Venue/Parser/Tests.antt =====
-- A parser with a checksum that counts the bids, and a pair that it streams.
use strategy_nodes.Common.{
  ℕ, ◌≡◌, refl, none, some, ℤ, pos, List, [], ◌∷◌, codes, Text, length, ◌⊎◌, ◌≢◌, true, is_some,
}
use strategy_nodes.SortedMap.{find}
use strategy_nodes.SortedMap.Orders.{text_lt}
use strategy_nodes.L2.Message.{update, snapshot, MessageType, Message, PairPrecision}
use strategy_nodes.L2.Book
use strategy_nodes.L2.Book.{Book}
use strategy_nodes.Venue.Parser.{
  Parser, Route, emit, make_parser, find_route, find_precision, admits,
}
use strategy_nodes.Venue.Parser.Phases.{
  Call, starts, attaches, detaches, emits, run, follow, phase_of, closed,
}
use strategy_nodes.Venue.Parser.Steps.{run_follows}
use strategy_nodes.Venue.Parser.Checks.{find_precision-emit, emit_verdict, Verified, Refused}
use strategy_nodes.Kraken.Decoder.Books.{Change, frame_json}
use strategy_nodes.Venue.Parser.Decoding.{Taken}

abbrev precision : PairPrecision
precision = record { price_decimals = 1; qty_decimals = 8 }

abbrev pair : Text
pair = codes "BTC/USD"

abbrev count_bids : Book → ℕ
count_bids b = length b.bids

abbrev message : MessageType → ℕ → ℤ → Message
message type checksum price = record {
  type = type;
  checksum = checksum;
  venue_time_ns = pos 1;
  capture_time_ns = pos 2;
  symbol = pair;
  buys = record { price = price; quantity = pos 5 } ∷ [];
  sells = [];
}

abbrev calls : List Call
calls =
    attaches pair precision 10 3
    ∷ emits (message update 1 (pos 10))
    ∷ emits (message snapshot 1 (pos 10))
    ∷ emits (message update 2 (pos 11))
    ∷ emits (message update 9 (pos 12))
    ∷ emits (message update 3 (pos 13))
    ∷ starts
    ∷ emits (message snapshot 0 (pos 10))
    ∷ detaches pair
    ∷ []

run_follows_example :
    follow pair closed (run (make_parser (some count_bids)) calls).1
    ≡ some (phase_of pair (run (make_parser (some count_bids)) calls).0)
unfolding make_parser find
run_follows_example = run_follows pair (make_parser (some count_bids)) calls tt

abbrev route : Route
route = record {
  precision = precision;
  receiver = 3;
  awaiting_snapshot = true;
  book = Book.make_book 10;
}

abbrev streaming : Parser
streaming = record {
  checksum_check = some count_bids;
  routes = (pair, route) ∷ [];
  parse_start_ns = pos 9;
}

emit_verdict_example :
    Verified count_bids streaming route
      (message snapshot 1 (pos 10))
      (emit streaming (message snapshot 1 (pos 10)))
    ⊎ Refused count_bids streaming route
        (message snapshot 1 (pos 10))
        (emit streaming (message snapshot 1 (pos 10)))
unfolding find_route find admits text_lt
emit_verdict_example =
    emit_verdict streaming count_bids route (message snapshot 1 (pos 10)) refl refl

find_precision-emit_example :
    ((find_precision streaming pair update ≡ none)
      × (emit streaming (message update 2 (pos 11)) ≡ (streaming, [])))
    ⊎ ((is_some (find_precision streaming pair update) ≡ true)
        × ((emit streaming (message update 2 (pos 11))).1 ≢ []))
find_precision-emit_example = find_precision-emit streaming (message update 2 (pos 11))

abbrev no_days : ℤ → ℤ → ℤ → ℤ
no_days y m d = pos 0

-- A snapshot without levels, and a frame that does not parse.
abbrev change : Change
change = record {
  symbol = pair;
  type = snapshot;
  bids = [];
  asks = [];
  checksum = codes "1";
  timestamp = [];
}

abbrev taken_frames : List Taken
taken_frames =
    record {
      frame = record { json = some (frame_json change); capture_time_ns = pos 3 };
      start_ns = pos 4;
      end_ns = pos 5;
    }
    ∷ record {
      frame = record { json = none; capture_time_ns = pos 4 };
      start_ns = pos 6;
      end_ns = pos 7;
    }
    ∷ []
