-- ===== src/Venue/Router/Tests.antt =====
-- A router over managers that take every subscription, and a venue that cannot be reached.
use strategy_nodes.Common.{ℕ, ◌+◌, ◌≡◌, List, [], ◌∷◌, codes, ok, true, arith}
use strategy_nodes.L2.Message.{BookSpec}
use strategy_nodes.Venue.Ids.{kraken, coinbase, live, recording}
use strategy_nodes.Venue.Manager.{subscribed}
use strategy_nodes.Venue.Router.{ManagerApi, Router, BackoffTimes, make_retry}
use strategy_nodes.Venue.Router.Fresh.{
  Call, subscribes, unsubscribes, lists_pairs, asked_by, Ascends, ids_ascend,
}
use strategy_nodes.Venue.Router.Backoff.{Failure, attempted, expected, backoff_doubles}

abbrev api : ManagerApi ℕ ℕ
api = record {
  name = λ m. codes "kraken";
  healthy = λ m. true;
  subscribe = λ m id book w. (m + 1, subscribed id);
  unsubscribe = λ m id. (m, ok tt);
  list = λ m. [];
  list_pairs = λ m w. (m, ok (record { symbols = []; depths = [] }));
}

abbrev book : BookSpec
book = record { symbol = codes "BTC/USD"; depth = 10 }

abbrev router : Router ℕ
router = record { managers = (0, 0) ∷ []; next_counter = 1 }

abbrev calls : List (Call ℕ)
calls =
    subscribes kraken live book 0
    ∷ subscribes coinbase live book 0
    ∷ unsubscribes 65536
    ∷ subscribes kraken recording book 0
    ∷ lists_pairs kraken 0
    ∷ []

ids_ascend_example : Ascends 1 (asked_by api router calls)
ids_ascend_example = ids_ascend api router calls (omega arith)

abbrev backoff : BackoffTimes
backoff = record { initial = 1000; max = 30000 }

abbrev failures : List Failure
failures =
    record { now = 0; ended = 10 }
    ∷ record { now = 100; ended = 110 }
    ∷ record { now = 1010; ended = 1020 }
    ∷ record { now = 3019; ended = 3020 }
    ∷ record { now = 3020; ended = 3030 }
    ∷ []

backoff_doubles_example :
    attempted backoff (make_retry backoff) failures ≡ expected backoff 0 0 failures
backoff_doubles_example = backoff_doubles backoff failures (omega arith)
