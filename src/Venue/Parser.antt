-- ===== src/Venue/Parser.antt =====
-- data_feed/venue/l2_parser.h and l2_parser.cc: routing, snapshot gating and checksums.
-- A receiver is known by the number of its object. What the parser calls (its receivers, the
-- handler of a checksum mismatch, the timings) is returned as a list of outputs, in order. Every
-- method runs under the routes lock, so it is one step.
pub mod Phases
pub mod Laws
pub mod Steps
pub mod Checks
pub mod Decoding
pub mod Tests
use strategy_nodes.Common.{
  ℕ, ℤ, pos, ◌-ℤ◌, Bool, true, false, not, ◌&&◌, Option, none, some, List, [], ◌∷◌, ◌++◌, map, Text,
  Result, ok, err, ◌==◌, is_zero, if◌then◌else◌,
}
use strategy_nodes.SortedMap.{SortedMap, find, insert_or_assign, erase, try_emplace}
use strategy_nodes.SortedMap.Orders.{text_less}
use strategy_nodes.Core.Receiver.{Gap, resubscribing}
use strategy_nodes.L2.Message.{MessageType, update, snapshot, Message, PairPrecision}
use strategy_nodes.L2.Book
use strategy_nodes.L2.Book.{Book}

pub record Route : Type 0 where
  pub precision : PairPrecision
  pub receiver : ℕ
  pub awaiting_snapshot : Bool
  pub book : Book

-- The venue's checksum over a book, if it sends any.
pub record Parser : Type 0 where
  pub checksum_check : Option (Book → ℕ)
  pub routes : SortedMap Text Route
  pub parse_start_ns : ℤ

pub data Output : Type 0 where
  received : ℕ → Message → Output
  gapped : ℕ → Gap → Output
  mismatched : Text → Output
  timed : ℤ → Output

-- `std::invalid_argument`.
pub data AttachError : Type 0 where
  has_receiver : AttachError

unfoldable pub make_parser : Option (Book → ℕ) → Parser
make_parser check = record { checksum_check = check; routes = []; parse_start_ns = pos 0 }

-- The loop of `Start`: every pair's stream goes on from its next snapshot.
unfoldable pub await_all : SortedMap Text Route → SortedMap Text Route
await_all [] = []
await_all ((symbol, r) ∷ routes) =
    (symbol, record r { awaiting_snapshot = true }) ∷ await_all routes

unfoldable pub start : Parser → Parser
start p = record p { routes = await_all p.routes }

unfoldable pub attach : Parser → Text → PairPrecision → ℕ → ℕ → Result AttachError Parser
attach p symbol precision depth receiver =
    let route : Route = record {
      precision = precision;
      receiver = receiver;
      awaiting_snapshot = true;
      book = Book.make_book depth;
    } in
    elim (try_emplace text_less symbol route p.routes) [
      | none ↦ err has_receiver
      | some routes ↦ ok (record p { routes = routes })
    ]

unfoldable pub detach : Parser → Text → Parser
detach p symbol = record p { routes = erase text_less symbol p.routes }

-- An update before the snapshot that it waits for is dropped.
unfoldable pub admits : Route → MessageType → Bool
admits r update = not r.awaiting_snapshot
admits r snapshot = true

unfoldable pub find_route : Parser → Text → MessageType → Option Route
find_route p symbol type = elim (find text_less symbol p.routes) [
  | none ↦ none
  | some r ↦ if admits r type then some r else none
]

-- `Find` of `L2Decoder::Output`.
unfoldable pub find_precision : Parser → Text → MessageType → Option PairPrecision
find_precision p symbol type = elim (find_route p symbol type) [
  | none ↦ none
  | some r ↦ some r.precision
]

unfoldable pub put_route : Parser → Text → Route → Parser
put_route p symbol r = record p { routes = insert_or_assign text_less symbol r p.routes }

-- The book is checked only where the venue sent a checksum.
unfoldable pub passes : (Book → ℕ) → Book → ℕ → Bool
passes checksum b expected = if expected == 0 then true else checksum b == expected

-- The end of `Emit`, with the route no longer awaiting its snapshot.
unfoldable pub deliver : Option (Book → ℕ) → Parser → Route → Message → Parser × List Output
deliver none p r m = (put_route p m.symbol r, received r.receiver m ∷ [])
deliver (some checksum) p r m =
    let applied = Book.apply r.book m in
    if passes checksum applied m.checksum
    then (put_route p m.symbol (record r { book = applied }), received r.receiver m ∷ [])
    else (
      put_route p m.symbol (record r { awaiting_snapshot = true; book = Book.clear applied }),
      gapped r.receiver resubscribing ∷ mismatched m.symbol ∷ [],
    )

-- Only an update with a venue time is timed.
unfoldable pub timings : Parser → MessageType → ℤ → List Output
timings p snapshot venue_time_ns = []
timings p update venue_time_ns =
    if is_zero venue_time_ns then [] else timed (p.parse_start_ns -ℤ venue_time_ns) ∷ []

unfoldable pub emit : Parser → Message → Parser × List Output
emit p m = elim (find_route p m.symbol m.type) [
  | none ↦ (p, [])
  | some r ↦
      let (p', sent) = deliver p.checksum_check p (record r { awaiting_snapshot = false }) m in
      (p', timings p m.type m.venue_time_ns ++ sent)
]
