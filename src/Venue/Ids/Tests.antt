-- ===== src/Venue/Ids/Tests.antt =====
-- Subscription ids at concrete counters.
use strategy_nodes.Common.{◌≡◌, ◌<◌, ◌^◌, arith}
use strategy_nodes.Venue.Ids.{
  coinbase, kraken, live, recording, make_subscription_id, counter_of, venue_of, sink_of,
}
use strategy_nodes.Venue.Ids.Laws.{make_subscription_id_fields, make_subscription_id_mono}

make_subscription_id_fields_example :
    let id = make_subscription_id 5 coinbase recording in
    (counter_of id ≡ 5) × (venue_of id ≡ 1) × (sink_of id ≡ 1) × (id < 2 ^ 64)
make_subscription_id_fields_example = make_subscription_id_fields 5 coinbase recording (omega arith)

make_subscription_id_mono_example :
    make_subscription_id 5 coinbase recording < make_subscription_id 6 kraken live
make_subscription_id_mono_example =
    make_subscription_id_mono 5 6 coinbase kraken recording live (omega arith) (omega arith)
