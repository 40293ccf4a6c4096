-- ===== src/Frontend/Server/Commands/Tests.antt =====
-- Two clients and two live subscriptions, over serialized messages that are the messages themselves.
use strategy_nodes.Common.{ℕ, refl, true, ok, List, [], ◌∷◌, codes, Text}
use strategy_nodes.L2.Message.{BookSpec, PairPrecision}
use strategy_nodes.Core.Receiver.{resubscribing}
use strategy_nodes.Venue.Manager.{subscribed}
use strategy_nodes.Venue.Router.{ManagerApi, Router}
use strategy_nodes.Frontend.Wire.{Event}
use strategy_nodes.Frontend.Server.Commands.{
  Step, watch_command, watches_other, builds, destroys, gaps, WatchesOnly, run,
}
use strategy_nodes.Frontend.Server.Commands.Watched.{watches_one}

abbrev own_bytes : Event → Event
own_bytes e = e

abbrev api : ManagerApi ℕ ℕ
api = record {
  name = λ m. codes "kraken";
  healthy = λ m. true;
  subscribe = λ m id book w. (m, subscribed id);
  unsubscribe = λ m id. (m, ok tt);
  list = λ m. [];
  list_pairs = λ m w. (m, ok (record { symbols = []; depths = [] }));
}

abbrev router : Router ℕ
router = record { managers = []; next_counter = 1 }

abbrev spec : Text → BookSpec
spec symbol = record { symbol = symbol; depth = 10 }

abbrev precision : PairPrecision
precision = record { price_decimals = 1; qty_decimals = 8 }

abbrev steps : List (Step ℕ)
steps =
    builds 65536 (codes "kraken") (spec (codes "BTC/USD")) precision
    ∷ builds 131072 (codes "kraken") (spec (codes "ETH/USD")) precision
    ∷ watch_command router 65536
    ∷ watches_other 8 65536
    ∷ watch_command router 131072
    ∷ gaps 65536 resubscribing
    ∷ destroys 65536
    ∷ []

watches_one_example : WatchesOnly 7 (run own_bytes api 7 ([], 0) steps)
watches_one_example =
    watches_one own_bytes api 7 steps (tt, (tt, (refl, (refl, (refl, (tt, (tt, tt)))))))
