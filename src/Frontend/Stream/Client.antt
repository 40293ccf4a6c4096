-- ===== src/Frontend/Stream/Client.antt =====
-- The client that proto/market_data.proto describes: a StreamInfo starts a stream over, a snapshot
-- replaces the book, a delta changes it, and a FeedStatus that is DISCONNECTED or DEGRADED drops
-- it. It is not code of the backend; the stream's theorems are stated against it.
use strategy_nodes.Common.{
  ℕ, suc, ◌≡◌, refl, ap, Bool, true, false, Option, none, some, List, [], ◌∷◌, ◌++◌, map, replicate,
  ◌==◌, if◌then◌else◌, arith,
}
use strategy_nodes.L2.Message.{MessageType, update, snapshot, Level, Message}
use strategy_nodes.L2.Book
use strategy_nodes.L2.Book.{Book, Side}
use strategy_nodes.L2.Book.Sides.{levels_of}
use strategy_nodes.L2.Book.Laws.{IsBook, apply_levels_only, apply-levels_of}
use strategy_nodes.Frontend.Wire.{
  WireLevel, WireBook, Kind, kind_unspecified, kind_snapshot, kind_delta, FeedState,
  state_unspecified, state_connecting, state_live, state_degraded, state_disconnected, Event,
  info_event, book_event, status_event, heartbeat_event, result_event, Payload, make_wire_book,
  kind_of, append_levels, level_pair,
}
use strategy_nodes.Frontend.Stream.{Stream, Sends, send_all, snapshot_of}

pub record Client : Type 0 where
  pub depth : ℕ
  pub shown : Option Book

abbrev pub drops : FeedState → Bool
drops state_degraded = true
drops state_disconnected = true
drops state_live = false
drops state_connecting = false
drops state_unspecified = false

abbrev type_of : Kind → MessageType
type_of kind_snapshot = snapshot
type_of kind_delta = update
type_of kind_unspecified = update

abbrev levels : List WireLevel → List Level
levels = map (λ l. record { price = l.price; quantity = l.quantity })

abbrev pub message_of : WireBook → Message
message_of b = record {
  type = type_of b.kind;
  checksum = b.checksum;
  venue_time_ns = b.venue_time_ns;
  capture_time_ns = b.capture_time_ns;
  symbol = [];
  buys = levels b.bids;
  sells = levels b.asks;
}

abbrev pub on_book : Kind → Client → Message → Client
on_book kind_snapshot c m = record c { shown = some (Book.apply (Book.make_book c.depth) m) }
on_book kind_delta c m = record c {
  shown = elim c.shown [ none ↦ none | some b ↦ some (Book.apply b m) ];
}
on_book kind_unspecified c m = c

abbrev pub on_event : Client → Event → Client
on_event c (info_event i) = record { depth = i.depth; shown = none }
on_event c (book_event b) = on_book b.kind c (message_of b)
on_event c (status_event s) = if drops s.state then record c { shown = none } else c
on_event c heartbeat_event = c
on_event c (result_event r) = c

module _ {B : Type 0} (decode : ℕ → B → Option Event) where
  abbrev pub on_payload : Client → Payload B → Client
  on_payload c p = elim (decode p.field_number p.bytes) [ none ↦ c | some e ↦ on_event c e ]

  abbrev pub on_payloads : Client → List (Payload B) → Client
  on_payloads c [] = c
  on_payloads c (p ∷ ps) = on_payloads (on_payload c p) ps

  pub on_payloads-append :
      (c : Client) (ps qs : List (Payload B))
      → on_payloads c (ps ++ qs) ≡ on_payloads (on_payloads c ps) qs
  on_payloads-append c [] qs = refl
  on_payloads-append c (p ∷ ps) qs = on_payloads-append (on_payload c p) ps qs

-- What one watcher was sent, and how often a watcher is on the list.
module _ {B : Type 0} where
  abbrev pub sent_to : ℕ → Sends B → List (Payload B)
  sent_to w [] = []
  sent_to w ((v, p) ∷ rest) = let others = sent_to w rest in if v == w then p ∷ others else others

  pub sent_to-append :
      (w : ℕ) (xs ys : Sends B) → sent_to w (xs ++ ys) ≡ sent_to w xs ++ sent_to w ys
  sent_to-append w [] ys = refl
  sent_to-append w ((v, p) ∷ xs) ys = ground (arith, sent_to-append w xs ys)

abbrev pub count : ℕ → List ℕ → ℕ
count w [] = 0
count w (v ∷ vs) = let n = count w vs in if v == w then suc n else n

module _ {B : Type 0} where
  pub sent_to-send_all :
      (w : ℕ) (p : Payload B) (vs : List ℕ) → sent_to w (send_all p vs) ≡ replicate (count w vs) p
  unfolding send_all
  sent_to-send_all w p [] = refl
  sent_to-send_all w p (v ∷ vs) = ground (arith, sent_to-send_all w p vs)

type_of-kind_of : (t : MessageType) → type_of (kind_of t) ≡ t
unfolding kind_of
type_of-kind_of snapshot = refl
type_of-kind_of update = refl

levels-append_levels : (ls : List Level) → levels (append_levels ls level_pair []) ≡ ls
unfolding append_levels level_pair
levels-append_levels [] = refl
levels-append_levels (l ∷ ls) = ap (λ xs. l ∷ xs) (levels-append_levels ls)

-- A book message of the wire does to a book what the message it was made from does.
pub apply-make_wire_book :
    (b : Book) (id : ℕ) (m : Message)
    → Book.apply b (message_of (make_wire_book id m)) ≡ Book.apply b m
unfolding make_wire_book
apply-make_wire_book b id m =
    apply_levels_only b _ m (type_of-kind_of m.type) (levels-append_levels m.buys)
      (levels-append_levels m.sells)

levels-append_levels_of : (side : Side) → levels (append_levels side (λ e. e) []) ≡ levels_of side
unfolding append_levels levels_of
levels-append_levels_of [] = refl
levels-append_levels_of (e ∷ side) =
    ap (λ xs. record { price = e.0; quantity = e.1 } ∷ xs) (levels-append_levels_of side)

-- The snapshot that a new watcher is sent turns any book of the stream's depth into the stream's.
pub apply-snapshot_of :
    {B : Type 0} (s : Stream B) (c : Book)
    → IsBook s.book
    → c.depth ≡ s.book.depth
    → Book.apply c (message_of (snapshot_of s)) ≡ s.book
unfolding snapshot_of
apply-snapshot_of s c v d =
    apply-levels_of s.book c _ v d refl (levels-append_levels_of s.book.bids)
      (levels-append_levels_of s.book.asks)
