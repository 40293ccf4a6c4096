-- ===== src/Frontend/Stream/Tests.antt =====
-- A live stream with two watchers, over serialized messages that are the messages themselves.
use strategy_nodes.Common.{ℕ, ◌≡◌, refl, Option, none, some, ℤ, pos, List, [], ◌∷◌, codes, arith}
use strategy_nodes.L2.Message.{update, snapshot, MessageType, Message, BookSpec, PairPrecision}
use strategy_nodes.Frontend.Wire.{Event}
use strategy_nodes.Core.Receiver.{resubscribing}
use strategy_nodes.Frontend.Stream.{make_stream, without, note_snapshot}
use strategy_nodes.Frontend.Stream.Client.{Client, on_payloads, sent_to}
use strategy_nodes.Frontend.Stream.Calls.{Call, receives, interrupts, watches, unwatches, step, run}
use strategy_nodes.Frontend.Stream.Replica.{replica}

abbrev spec : BookSpec
spec = record { symbol = codes "BTC/USD"; depth = 2 }

abbrev precision : PairPrecision
precision = record { price_decimals = 1; qty_decimals = 8 }

abbrev message : MessageType → ℤ → ℤ → Message
message type price quantity = record {
  type = type;
  checksum = 7;
  venue_time_ns = pos 1;
  capture_time_ns = pos 2;
  symbol = codes "BTC/USD";
  buys = record { price = price; quantity = quantity } ∷ [];
  sells = [];
}

abbrev calls : List Call
calls =
    watches 1
    ∷ receives (message snapshot (pos 10) (pos 1))
    ∷ watches 2
    ∷ receives (message update (pos 11) (pos 2))
    ∷ interrupts resubscribing
    ∷ receives (message snapshot (pos 12) (pos 3))
    ∷ unwatches 1
    ∷ []

abbrev own_bytes : Event → Event
own_bytes e = e

abbrev read_bytes : ℕ → Event → Option Event
read_bytes n e = some e

abbrev newcomer : Client
newcomer = record { depth = 0; shown = none }

replica_example :
    let (s, sent) =
      run own_bytes (make_stream own_bytes 65536 (codes "kraken") spec precision) calls in
    (on_payloads read_bytes newcomer (sent_to 2 sent)).shown ≡ some s.book
unfolding run step make_stream without note_snapshot
replica_example =
    replica own_bytes read_bytes (λ e. refl) 2 65536 (codes "kraken") spec precision newcomer calls
      (omega arith)
