-- ===== src/Venue/Manager/Tests.antt =====
-- A venue with one depth and no checksum, and a recording that is started and stopped.
use strategy_nodes.Common.{refl, pos, true, false, some, List, [], ◌∷◌, codes, ok}
use strategy_nodes.SortedMap.{find, contains}
use strategy_nodes.L2.Message.{BookSpec, PairPrecision, snapshot}
use strategy_nodes.Venue.Manager.{
  Adapter, make_manager, fetched, subscribe_late, resolve_taken, find_symbol,
}
use strategy_nodes.Venue.Manager.Calls.{
  Call, subscribes, unsubscribes, connects, dies, resubscribes, emits, run, IsManager,
}
use strategy_nodes.Venue.Manager.Subscribing.{Added, subscribe_free}
use strategy_nodes.Venue.Manager.Invariant.{routes_are_subscriptions, make-IsManager}
use strategy_nodes.Venue.Manager.Streams.{Synced, streams}
use strategy_nodes.Venue.Manager.Requests.{requests_match}

abbrev adapter : Adapter
adapter = record { depths = 10 ∷ []; book_checksum = some (λ b. 7); check_symbol = λ s. ok tt }

abbrev book : BookSpec
book = record { symbol = codes "BTC/USD"; depth = 10 }

abbrev precision : PairPrecision
precision = record { price_decimals = 1; qty_decimals = 8 }

abbrev calls : List Call
calls =
    connects true
    ∷ subscribes 65536 book (fetched precision) (pos 5) (some 1)
    ∷ subscribes 131072 book (fetched precision) (pos 6) (some 2)
    ∷ emits (record {
      type = snapshot;
      checksum = 9;
      venue_time_ns = pos 1;
      capture_time_ns = pos 2;
      symbol = codes "BTC/USD";
      buys = [];
      sells = [];
    })
    ∷ resubscribes
    ∷ dies
    ∷ connects false
    ∷ connects true
    ∷ unsubscribes 65536
    ∷ []

routes_are_subscriptions_example : IsManager (run (make_manager adapter) calls).0
routes_are_subscriptions_example = routes_are_subscriptions adapter calls

requests_match_example :
    Synced
      (codes "BTC/USD")
      (run (make_manager adapter) calls).0
      (streams (codes "BTC/USD") false (run (make_manager adapter) calls).1)
requests_match_example = requests_match adapter (codes "BTC/USD") calls

subscribe_free_example :
    Added
      (make_manager adapter)
      65536
      book
      precision
      (pos 5)
      1
      (subscribe_late (make_manager adapter) 65536 book (fetched precision) (pos 5) (some 1))
unfolding make_manager resolve_taken contains find find_symbol
subscribe_free_example =
    subscribe_free (make_manager adapter) 65536 book precision (pos 5) 1 (make-IsManager adapter)
      refl
