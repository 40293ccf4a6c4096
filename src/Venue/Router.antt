-- ===== src/Venue/Router.antt =====
-- data_feed/venue/router.h and router.cc: commands routed to the venue that they name.
-- `ManagerApi` is the interface venue::Manager of venue/manager.h: a state `S`, and a type `W` of
-- what the environment answers in a call. The supervisor's clock and sleeps are arguments.
pub mod Fresh
pub mod Backoff
pub mod Tests
use strategy_nodes.Common.{
  ℕ, suc, ◌+◌, ◌*◌, ◌%◌, ◌^◌, min, Bool, true, false, Option, none, some, List, [], ◌∷◌, ◌++◌, map,
  Text, Result, ok, err, ltb, if◌then◌else◌,
}
use strategy_nodes.SortedMap.{SortedMap, find, insert_or_assign}
use strategy_nodes.SortedMap.Orders.{ℕ_less}
use strategy_nodes.L2.Message.{BookSpec}
use strategy_nodes.Venue.Ids.{
  VenueId, venue_number, Sink, max_subscriptions_allowed, make_subscription_id, venue_of,
  SubscriptionInfo, PairList, unknown_venue, unknown_id, ids_exhausted, Error, failure,
}
use strategy_nodes.Venue.Manager.{Subscribed, refused}

pub record ManagerApi (S W : Type 0) : Type 0 where
  pub name : S → Text
  pub healthy : S → Bool
  pub subscribe : S → ℕ → BookSpec → W → S × Subscribed
  pub unsubscribe : S → ℕ → S × Result Error (Unit {0})
  pub list : S → List SubscriptionInfo
  pub list_pairs : S → W → S × Result Error PairList

pub record Listing : Type 0 where
  pub venue : ℕ
  pub subscription : SubscriptionInfo

pub record VenueStatus : Type 0 where
  pub venue : ℕ
  pub name : Text
  pub connected : Bool

-- A venue is known by the number of its `Id`. The counter is a `u64`.
pub record Router (S : Type 0) : Type 0 where
  pub managers : SortedMap ℕ S
  pub next_counter : ℕ

module _ {S : Type 0} where
  unfoldable pub make_router : SortedMap ℕ S → Router S
  make_router managers = record { managers = managers; next_counter = 1 }

  unfoldable pub put_manager : Router S → ℕ → S → Router S
  put_manager r venue m = record r { managers = insert_or_assign ℕ_less venue m r.managers }

  -- `next_counter_++`: a `u64` wraps around.
  unfoldable pub take_counter : Router S → Router S
  take_counter r = record r { next_counter = suc r.next_counter % 2 ^ 64 }

module _ {S W : Type 0} (api : ManagerApi S W) where
  -- The call of the manager, for a counter that is left.
  unfoldable pub subscribe_under : Router S → ℕ → S → ℕ → BookSpec → W → Router S × Subscribed
  subscribe_under r venue m id book w =
      let (m', result) = api.subscribe m id book w in (put_manager r venue m', result)

  unfoldable pub subscribe : Router S → VenueId → Sink → BookSpec → W → Router S × Subscribed
  subscribe r venue sink book w = elim (find ℕ_less (venue_number venue) r.managers) [
    | none ↦ (r, refused (failure unknown_venue))
    | some m ↦
        let called =
          subscribe_under (take_counter r) (venue_number venue) m
            (make_subscription_id r.next_counter venue sink) book w in
        if ltb max_subscriptions_allowed r.next_counter
        then (take_counter r, refused (failure ids_exhausted))
        else called
  ]

  unfoldable pub unsubscribe : Router S → ℕ → Router S × Result Error (Unit {0})
  unsubscribe r id = elim (find ℕ_less (venue_of id) r.managers) [
    | none ↦ (r, err (failure unknown_id))
    | some m ↦ let (m', result) = api.unsubscribe m id in (put_manager r (venue_of id) m', result)
  ]

  -- The loop of `List`.
  abbrev pub list_from : List (ℕ × S) → List Listing
  list_from [] = []
  list_from ((venue, m) ∷ managers) =
      map (λ s. record { venue = venue; subscription = s }) (api.list m) ++ list_from managers

  unfoldable pub list : Router S → List Listing
  list r = list_from r.managers

  unfoldable pub list_venues : Router S → List VenueStatus
  list_venues r =
      map
        (λ e.
          let (venue, m) = e in
          record { venue = venue; name = api.name m; connected = api.healthy m })
        r.managers

  unfoldable pub list_pairs : Router S → VenueId → W → Router S × Result Error PairList
  list_pairs r venue w = elim (find ℕ_less (venue_number venue) r.managers) [
    | none ↦ (r, err (failure unknown_venue))
    | some m ↦
        let (m', result) = api.list_pairs m w in (put_manager r (venue_number venue) m', result)
  ]

-- Of the supervisor, in milliseconds.
pub record BackoffTimes : Type 0 where
  pub initial : ℕ
  pub max : ℕ

pub record Retry : Type 0 where
  pub next_attempt : ℕ
  pub delay : ℕ

unfoldable pub make_retry : BackoffTimes → Retry
make_retry backoff = record { next_attempt = 0; delay = backoff.initial }

-- One venue in one round of `Supervise`, at the time `now`: whether it is tried, and its next
-- retry. `reached` is whether the attempt connects, and it ends at the time `ended`.
unfoldable pub supervise : BackoffTimes → Retry → Bool → ℕ → Bool → ℕ → Bool × Retry
supervise backoff retry healthy now reached ended =
    if healthy
    then (false, retry)
    else if ltb now retry.next_attempt
    then (false, retry)
    else if reached
    then (true, record retry { delay = backoff.initial })
    else (
      true,
      record { next_attempt = ended + retry.delay; delay = min (retry.delay * 2) backoff.max },
    )
