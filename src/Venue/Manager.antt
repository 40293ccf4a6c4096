-- ===== src/Venue/Manager.antt =====
-- data_feed/venue/l2_manager.h and l2_manager.cc: a venue's subscriptions, its parser and its
-- connection, over the venue's adapter of venue/adapter.h.
-- Each public method runs under the life cycle lock, so it is one step, but for `Subscribe`, which
-- asks the venue unlocked between two steps, and `ListPairs`, which has a lock of its own. The feed
-- (net/websocket_feed.h), the REST calls, the clocks and the receivers' constructors are the
-- environment: what they answer is an argument, and what is asked of them an effect.
pub mod Finding
pub mod Routing
pub mod Calls
pub mod Subscribing
pub mod Invariant
pub mod Streams
pub mod Requests
pub mod Tests
use strategy_nodes.Common.{
  ℕ, ◌+◌, ◌-◌, ◌*◌, ℤ, Bool, true, false, not, ◌&&◌, Option, none, some, List, [], ◌∷◌, ◌++◌, map,
  Text, text_eq, Result, ok, err, ◌==◌, leb, if◌then◌else◌, any_of, is_empty,
}
use strategy_nodes.SortedMap.{SortedMap, find, contains, insert_or_assign, erase}
use strategy_nodes.SortedMap.Orders.{ℕ_less}
use strategy_nodes.Core.Receiver.{Gap, disconnected}
use strategy_nodes.L2.Message.{BookSpec, PairPrecision, Message}
use strategy_nodes.L2.Book.{Book}
use strategy_nodes.Venue.Ids.{
  Sink, recording, sink_number, sink_of, SubscriptionInfo, PairList, Code, invalid_depth,
  unknown_id, symbol_in_use, venue_failed, unknown_symbol, Error, failure,
}
use strategy_nodes.Venue.Parser
use strategy_nodes.Venue.Parser.{Parser}

-- What the manager asks of `venue::Adapter` without a round trip to the venue.
pub record Adapter : Type 0 where
  pub depths : List ℕ
  pub book_checksum : Option (Book → ℕ)
  pub check_symbol : Text → Result Error (Unit {0})

-- A call to the venue: a value, `UnknownSymbolError`, or any other exception.
pub data Fetched (A : Type 0) : Type 0 where
  fetched : A → Fetched A
  unlisted : Fetched A
  unreachable : Fetched A

-- `CallVenue`.
unfoldable pub call_venue : {A : Type 0} → Fetched A → Result Error A
call_venue (fetched a) = ok a
call_venue unlisted = err (failure unknown_symbol)
call_venue unreachable = err (failure venue_failed)

pub record Subscription : Type 0 where
  pub book : BookSpec
  pub start_time_ns : ℤ
  pub receiver : ℕ

pub data BookRequest : Type 0 where
  subscribe_request unsubscribe_request : BookRequest

-- What the feed is given to send, and what a receiver is told.
pub data Effect : Type 0 where
  hello : Effect
  sends : BookRequest → BookSpec → Effect
  tells : ℕ → Gap → Effect

-- `failed` is the flag of the PipelineStatus that the feed and the parser set.
pub record Manager : Type 0 where
  pub adapter : Adapter
  pub failed : Bool
  pub subscriptions : SortedMap ℕ Subscription
  pub parser : Parser
  pub connected : Bool
  pub pending_resubscribes : List Text
  pub known_pairs : List Text
  pub pairs_fetched_at : ℕ

unfoldable pub make_manager : Adapter → Manager
make_manager adapter = record {
  adapter = adapter;
  failed = false;
  subscriptions = [];
  parser = Parser.make_parser adapter.book_checksum;
  connected = false;
  pending_resubscribes = [];
  known_pairs = [];
  pairs_fetched_at = 0;
}

unfoldable pub healthy : Manager → Bool
healthy m = m.connected && not m.failed

-- `CheckBook`.
unfoldable pub check_book : Adapter → BookSpec → Result Error (Unit {0})
check_book adapter book =
    if any_of (λ d. d == book.depth) adapter.depths
    then adapter.check_symbol book.symbol
    else err (failure invalid_depth)

-- `FindSymbolLocked`: the first subscription to the symbol, with its id.
unfoldable pub find_symbol : Text → List (ℕ × Subscription) → Option (ℕ × Subscription)
find_symbol symbol [] = none
find_symbol symbol ((id, s) ∷ subscriptions) =
    let rest = find_symbol symbol subscriptions in
    if text_eq s.book.symbol symbol then some (id, s) else rest

-- What `Subscribe` returns, or the exception that leaves it.
pub data Subscribed : Type 0 where
  subscribed : ℕ → Subscribed
  refused : Error → Subscribed
  id_in_use : Subscribed
  receiver_threw : Subscribed
  attach_threw : Subscribed

-- The end of `ResolveTakenLocked`: a symbol that is taken, by an id's subscription.
unfoldable pub resolve_symbol : ℕ → BookSpec → ℕ × Subscription → Subscribed
resolve_symbol id book (taken, s) =
    if sink_of id == sink_number recording
      && (sink_of taken == sink_number recording && s.book.depth == book.depth)
    then subscribed taken
    else refused (failure symbol_in_use)

-- `ResolveTakenLocked`.
unfoldable pub resolve_taken : Manager → ℕ → BookSpec → Option Subscribed
resolve_taken m id book =
    if contains ℕ_less id m.subscriptions
    then some id_in_use
    else elim (find_symbol book.symbol m.subscriptions) [
      | none ↦ none
      | some taken ↦ some (resolve_symbol id book taken)
    ]

-- `SendLocked`.
unfoldable pub send : Manager → BookRequest → BookSpec → List Effect
send m request book = if m.connected then sends request book ∷ [] else []

-- `Subscribe` before the round trip: what it returns, or none where it goes on to ask the venue.
unfoldable pub subscribe_early : Manager → ℕ → BookSpec → Option Subscribed
subscribe_early m id book = elim (check_book m.adapter book) [
  | ok u ↦ resolve_taken m id book
  | err e ↦ some (refused e)
]

-- A subscription set up in a free slot: its parser route first, then the request.
unfoldable pub add_subscription :
    Manager → ℕ → BookSpec → PairPrecision → ℤ → ℕ → Manager × Subscribed × List Effect
add_subscription m id book precision now receiver =
    let added : Subscription = record { book = book; start_time_ns = now; receiver = receiver } in
    elim (Parser.attach m.parser book.symbol precision book.depth receiver) [
      | ok parser ↦ (
        record m {
          subscriptions = insert_or_assign ℕ_less id added m.subscriptions;
          parser = parser;
        },
        subscribed id,
        send m subscribe_request book,
      )
      | err e ↦ (
        record m {
          subscriptions = erase ℕ_less id (insert_or_assign ℕ_less id added m.subscriptions);
        },
        attach_threw,
        [],
      )
    ]

-- `Subscribe` after the round trip, at the time `now`, with the receiver that the factory builds;
-- none where the factory throws.
unfoldable pub subscribe_late :
    Manager
    → ℕ
    → BookSpec
    → Fetched PairPrecision
    → ℤ
    → Option ℕ
    → Manager × Subscribed × List Effect
subscribe_late m id book answer now receiver = elim (call_venue answer) [
  | err e ↦ (m, refused e, [])
  | ok precision ↦ elim (resolve_taken m id book) [
    | some taken ↦ (m, taken, [])
    | none ↦ elim receiver [
      | none ↦ (m, receiver_threw, [])
      | some r ↦ add_subscription m id book precision now r
    ]
  ]
]

unfoldable pub unsubscribe : Manager → ℕ → Manager × Result Error (Unit {0}) × List Effect
unsubscribe m id = elim (find ℕ_less id m.subscriptions) [
  | none ↦ (m, err (failure unknown_id), [])
  | some s ↦ (
    record m {
      parser = Parser.detach m.parser s.book.symbol;
      subscriptions = erase ℕ_less id m.subscriptions;
    },
    ok tt,
    send m unsubscribe_request s.book,
  )
]

unfoldable pub list : Manager → List SubscriptionInfo
list m =
    map (λ e. let (id, s) = e in record { id = id; book = s.book; start_time_ns = s.start_time_ns })
      m.subscriptions

abbrev pub pairs_lifetime : ℕ
pairs_lifetime = 5 * 60 * 1000000000

-- The pairs as the venue lists them now.
unfoldable pub refresh_pairs : Manager → ℕ → Fetched (List Text) → Manager × Result Error PairList
refresh_pairs m now answer = elim (call_venue answer) [
  | err e ↦ (m, err e)
  | ok symbols ↦ (
    record m { known_pairs = symbols; pairs_fetched_at = now },
    ok (record { symbols = symbols; depths = m.adapter.depths }),
  )
]

-- `ListPairs` at the time `now` of the steady clock, in nanoseconds; the venue's answer is used
-- only where the pairs known are none, or too old.
unfoldable pub list_pairs : Manager → ℕ → Fetched (List Text) → Manager × Result Error PairList
list_pairs m now answer =
    if is_empty m.known_pairs
    then refresh_pairs m now answer
    else if leb pairs_lifetime (now - m.pairs_fetched_at)
    then refresh_pairs m now answer
    else (m, ok (record { symbols = m.known_pairs; depths = m.adapter.depths }))

-- The loop of `DisconnectLocked`.
abbrev pub tell_all : List (ℕ × Subscription) → List Effect
tell_all [] = []
tell_all ((id, s) ∷ subscriptions) = tells s.receiver disconnected ∷ tell_all subscriptions

-- `DisconnectLocked`: the feed and the parser have stopped.
unfoldable pub disconnect : Manager → Manager × List Effect
disconnect m =
    (record m { connected = false }, if m.connected then tell_all m.subscriptions else [])

-- The loop of `Connect`.
abbrev pub subscribe_all : List (ℕ × Subscription) → List Effect
subscribe_all [] = []
subscribe_all ((id, s) ∷ subscriptions) =
    sends subscribe_request s.book ∷ subscribe_all subscriptions

-- `Connect`; `reached` is whether the feed connects, or else throws. `hello` stands for the
-- adapter's requests that open a connection.
unfoldable pub connect : Manager → Bool → Manager × Bool × List Effect
connect m reached =
    let (down, gaps) = disconnect m in
    let started : Manager = record down { failed = false; parser = Parser.start m.parser } in
    if healthy m
    then (m, true, [])
    else if reached
    then (record started { connected = true }, true, gaps ++ hello ∷ subscribe_all m.subscriptions)
    else (started, false, gaps)

-- `RequestResubscribe`.
unfoldable pub request_resubscribe : Manager → Text → Manager
request_resubscribe m symbol =
    if any_of (λ s. text_eq s symbol) m.pending_resubscribes
    then m
    else record m { pending_resubscribes = m.pending_resubscribes ++ symbol ∷ [] }

-- `Resubscribe`.
unfoldable pub resubscribe : Manager → Text → List Effect
resubscribe m symbol = elim (find_symbol symbol m.subscriptions) [
  | none ↦ []
  | some (id, s) ↦ send m unsubscribe_request s.book ++ send m subscribe_request s.book
]

-- One turn of `ResubscribeQueued`: the first pair of the queue.
unfoldable pub resubscribe_next : Manager → Manager × List Effect
resubscribe_next m = elim m.pending_resubscribes [
  | [] ↦ (m, [])
  | symbol ∷ rest ↦ (record m { pending_resubscribes = rest }, resubscribe m symbol)
]
