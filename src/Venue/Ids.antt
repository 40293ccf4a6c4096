-- ===== src/Venue/Ids.antt =====
-- data_feed/venue/manager.h: venues, sinks, subscription ids, and why a command fails.
pub mod Laws
pub mod Tests
use strategy_nodes.Common.{
  ℕ, ◌+◌, ◌-◌, ◌*◌, ◌/◌, ◌%◌, ◌^◌, ◌≤◌, ℤ, Text, List, codes, Option, none, some, ◌==◌,
  if◌then◌else◌,
}
use strategy_nodes.L2.Message.{BookSpec}

-- `VenueId` is the enum `Id`; its sentinel `kVenuesNum` names no venue.
pub data VenueId : Type 0 where
  kraken coinbase venues_num : VenueId

pub data Sink : Type 0 where
  live recording : Sink

abbrev pub venue_number : VenueId → ℕ
venue_number kraken = 0
venue_number coinbase = 1
venue_number venues_num = 2

abbrev pub sink_number : Sink → ℕ
sink_number live = 0
sink_number recording = 1

unfoldable pub sink_name : Sink → Text
sink_name recording = codes "a recording"
sink_name live = codes "a live feed"

abbrev pub max_subscriptions_allowed : ℕ
max_subscriptions_allowed = 2 ^ 48 - 1

-- `counter << 16 | venue << 8 | sink` in `u64`. The venue and the sink are bytes, so the three
-- parts share no bit and the bitwise or is a sum.
unfoldable pub make_subscription_id : ℕ → VenueId → Sink → ℕ
make_subscription_id counter venue sink =
    (counter * 2 ^ 16 + venue_number venue * 2 ^ 8 + sink_number sink) % 2 ^ 64

unfoldable pub counter_of : ℕ → ℕ
counter_of id = id / 2 ^ 16

-- `VenueOf` and `SinkOf` cast a byte to the enum: the byte itself.
unfoldable pub venue_of : ℕ → ℕ
venue_of id = id / 2 ^ 8 % 2 ^ 8

unfoldable pub sink_of : ℕ → ℕ
sink_of id = id % 2 ^ 8

pub record SubscriptionInfo : Type 0 where
  pub id : ℕ
  pub book : BookSpec
  pub start_time_ns : ℤ

pub record PairList : Type 0 where
  pub symbols : List Text
  pub depths : List ℕ

pub data Code : Type 0 where
  unknown_venue invalid_depth unknown_symbol unknown_id symbol_in_use venue_failed : Code
  ids_exhausted : Code

-- The free text of an error is left out: it is for the user interface and never parsed.
pub data Error : Type 0 where
  failure : Code → Error
