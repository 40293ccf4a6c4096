-- ===== src/Venue/Ids/Laws.antt =====
-- Subscription ids name their counter, venue and sink, and sort by counter.
use strategy_nodes.Common.{ℕ, ◌≤◌, ◌<◌, ◌≡◌, ◌^◌, arith}
use strategy_nodes.Venue.Ids.{
  VenueId, kraken, coinbase, venues_num, Sink, live, recording, venue_number, sink_number,
  max_subscriptions_allowed, make_subscription_id, counter_of, venue_of, sink_of,
}

venue_number_lt : (v : VenueId) → venue_number v < 3
venue_number_lt kraken = omega arith
venue_number_lt coinbase = omega arith
venue_number_lt venues_num = omega arith

sink_number_lt : (s : Sink) → sink_number s < 2
sink_number_lt live = omega arith
sink_number_lt recording = omega arith

-- An id made of a counter of at most 48 bits, a venue and a sink gives all three back.
pub make_subscription_id_fields :
    (counter : ℕ) (venue : VenueId) (sink : Sink)
    → counter ≤ max_subscriptions_allowed
    → let id = make_subscription_id counter venue sink in
      (counter_of id ≡ counter)
      × (venue_of id ≡ venue_number venue)
      × (sink_of id ≡ sink_number sink)
      × (id < 2 ^ 64)
unfolding make_subscription_id counter_of venue_of sink_of
make_subscription_id_fields counter venue sink h =
    omega (arith, venue_number_lt venue, sink_number_lt sink)

-- Ids sort in the order in which their counters were handed out, whatever their venues and sinks.
pub make_subscription_id_mono :
    (c d : ℕ) (v w : VenueId) (s t : Sink)
    → c < d
    → d ≤ max_subscriptions_allowed
    → make_subscription_id c v s < make_subscription_id d w t
unfolding make_subscription_id
make_subscription_id_mono c d v w s t lt h =
    omega (arith, venue_number_lt v, sink_number_lt s, venue_number_lt w, sink_number_lt t)
