-- ===== src/Frontend/Server.antt =====
-- data_feed/frontend/server.cc: what the commands of a client do.
-- A session is known to the streams by the number `watcher` of its object; `watched_id` is the one
-- field that its commands keep. Each function is one command on the session's command strand.
pub mod Commands
use strategy_nodes.Common.{
  ℕ, ℤ, Bool, true, false, not, ◌&&◌, Option, none, some, List, [], ◌∷◌, map, any_of, Text, Result,
  ok, err, ◌==◌, if◌then◌else◌,
}
use strategy_nodes.L2.Message.{BookSpec}
use strategy_nodes.Venue.Ids.{
  VenueId, kraken, coinbase, venues_num, Sink, live, recording, sink_number, sink_of, PairList,
  Error, failure,
}
use strategy_nodes.Venue.Manager.{
  Subscribed, subscribed, refused, id_in_use, receiver_threw, attach_threw,
}
use strategy_nodes.Venue.Router
use strategy_nodes.Venue.Router.{ManagerApi, Router, Listing, VenueStatus}
use strategy_nodes.Frontend.Wire.{
  Event, ErrorCode, code_invalid_command, code_sink_mismatch, code_unknown_id, code_venue_failed,
  Outcome, started_id, ok_outcome, subscriptions, error_outcome, pairs, venues, WireSubscription,
  VenueInfo, CommandResult, make_command_error, sink_to_wire, venue_to_wire, sink_from_wire,
  venue_from_wire,
}
use strategy_nodes.Frontend.Outbox
use strategy_nodes.Frontend.Outbox.{Outbox}
use strategy_nodes.Frontend.Stream.{Sends}

-- The enum value of a stored byte, as `ToWire` of a venue or a sink reads it.
abbrev pub venue_byte_to_wire : ℕ → ℕ
venue_byte_to_wire n =
    if n == 0
    then venue_to_wire kraken
    else if n == 1
    then venue_to_wire coinbase
    else venue_to_wire venues_num

abbrev pub sink_byte_to_wire : ℕ → ℕ
sink_byte_to_wire n =
    if n == sink_number recording then sink_to_wire recording else sink_to_wire live

-- `ToResult` of a subscription; an exception that leaves `Subscribe` is caught by `Run`.
unfoldable pub to_started : Subscribed → Outcome
to_started (subscribed id) = started_id id
to_started (refused e) = error_outcome (make_command_error e)
to_started id_in_use = error_outcome code_venue_failed
to_started receiver_threw = error_outcome code_venue_failed
to_started attach_threw = error_outcome code_venue_failed

unfoldable pub to_ok : Result Error (Unit {0}) → Outcome
to_ok (ok u) = ok_outcome
to_ok (err e) = error_outcome (make_command_error e)

unfoldable pub to_pairs : Result Error PairList → Outcome
to_pairs (ok l) = pairs l.symbols l.depths
to_pairs (err e) = error_outcome (make_command_error e)

module _ {S W : Type 0} (api : ManagerApi S W) where
  -- `Start`, of the wire's numbers of a venue and a sink.
  unfoldable pub start : Router S → ℕ → ℕ → Text → ℕ → W → Router S × Outcome
  start r venue sink symbol depth w = elim (venue_from_wire venue) [
    | none ↦ (r, error_outcome code_invalid_command)
    | some v ↦ elim (sink_from_wire sink) [
      | none ↦ (r, error_outcome code_invalid_command)
      | some k ↦
          let (r', result) =
            Router.subscribe api r v k (record { symbol = symbol; depth = depth }) w in
          (r', to_started result)
    ]
  ]

  unfoldable pub stop : Router S → ℕ → ℕ → Router S × Outcome
  stop r id sink = elim (sink_from_wire sink) [
    | none ↦ (r, error_outcome code_invalid_command)
    | some k ↦
        let (r', result) = Router.unsubscribe api r id in
        if sink_of id == sink_number k
        then (r', to_ok result)
        else (r, error_outcome code_sink_mismatch)
  ]

  unfoldable pub to_subscription : Listing → WireSubscription
  to_subscription l = record {
    id = l.subscription.id;
    venue = venue_byte_to_wire l.venue;
    symbol = l.subscription.book.symbol;
    depth = l.subscription.book.depth;
    sink = sink_byte_to_wire (sink_of l.subscription.id);
    start_time_ns = l.subscription.start_time_ns;
  }

  unfoldable pub list : Router S → Outcome
  list r = subscriptions (map to_subscription (Router.list api r))

  unfoldable pub list_pairs : Router S → ℕ → W → Router S × Outcome
  list_pairs r venue w = elim (venue_from_wire venue) [
    | none ↦ (r, error_outcome code_invalid_command)
    | some v ↦ let (r', result) = Router.list_pairs api r v w in (r', to_pairs result)
  ]

  unfoldable pub to_venue_info : VenueStatus → VenueInfo
  to_venue_info s = record {
    venue = venue_byte_to_wire s.venue;
    name = s.name;
    connected = s.connected;
  }

  unfoldable pub list_venues : Router S → Outcome
  list_venues r = venues (map to_venue_info (Router.list_venues api r))

  -- Whether the id is a recording's.
  unfoldable pub is_recording : Router S → ℕ → Bool
  is_recording r id =
      any_of (λ l. l.subscription.id == id && sink_of l.subscription.id == sink_number recording)
        (Router.list api r)

module _ {B : Type 0} where
  -- `Unwatch`, and what `Forget` does for a closed session; 0 is no subscription.
  unfoldable pub unwatch : Outbox B → ℕ → ℕ → Outbox B × ℕ
  unwatch o watcher watched_id =
      if watched_id == 0 then (o, watched_id) else (Outbox.unwatch o watched_id watcher, 0)

  -- The end of `Watch`: a subscription that is watched replaces the one watched before.
  unfoldable pub replace : Outbox B → ℕ → ℕ → ℕ → Outbox B
  replace o watcher watched_id id =
      if not (watched_id == 0) && not (watched_id == id)
      then Outbox.unwatch o watched_id watcher
      else o

module _ {B S W : Type 0} (encode : Event → B) (api : ManagerApi S W) where
  unfoldable pub watch : Router S → Outbox B → ℕ → ℕ → ℕ → Outbox B × ℕ × Sends B × Outcome
  watch r o watcher watched_id id =
      let (o', found, sent) = Outbox.watch encode o id watcher in
      if found then (replace o' watcher watched_id id, id, sent, ok_outcome) else (
        o',
        watched_id,
        sent,
        if is_recording api r id
            then error_outcome code_sink_mismatch
            else error_outcome code_unknown_id,
      )
