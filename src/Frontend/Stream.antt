-- ===== src/Frontend/Stream.antt =====
-- data_feed/frontend/stream.h and stream.cc: the book of a live subscription and its watchers.
-- A watcher is known by the number of its object, as the code compares pointers. Each method runs
-- under the stream's lock, so it is one step: it returns the stream after it and what it sent, in
-- order, as pairs of a watcher and a payload.
pub mod Calls
pub mod Client
pub mod Invariant
pub mod Reading
pub mod Delivery
pub mod Watching
pub mod Replica
pub mod Tests
use strategy_nodes.Common.{
  ℕ, ℤ, pos, Bool, true, false, not, Text, codes, Option, none, some, List, [], ◌∷◌, ◌++◌, map,
  ◌==◌, if◌then◌else◌, is_empty, keep_if,
}
use strategy_nodes.Core.Receiver.{Gap, disconnected, resubscribing}
use strategy_nodes.L2.Message.{MessageType, update, snapshot, Message, BookSpec, PairPrecision}
use strategy_nodes.L2.Book.{Book}
use strategy_nodes.L2.Book
use strategy_nodes.Frontend.Wire.{
  Event, info_event, book_event, status_event, FeedStatus, FeedState, state_live, state_degraded,
  state_disconnected, WireBook, kind_snapshot, Payload, make_payload, make_stream_info,
  make_wire_book, append_levels,
}

pub record Stream (B : Type 0) : Type 0 where
  pub id : ℕ
  pub stream_info : Payload B
  pub disconnected_status : Payload B
  pub resubscribing_status : Payload B
  pub live_status : Payload B
  pub book : Book
  -- The null pointer is none; it is read only while interrupted.
  pub gap_status : Option (Payload B)
  pub has_snapshot : Bool
  pub interrupted : Bool
  pub checksum : ℕ
  pub venue_time_ns : ℤ
  pub capture_time_ns : ℤ
  pub watchers : List ℕ

abbrev pub Sends : Type 0 → Type 0
Sends B = List (ℕ × Payload B)

unfoldable pub make_feed_status : FeedState → Text → List ℕ → FeedStatus
make_feed_status state detail healthy = record {
  state = state;
  detail = detail;
  healthy_stream_ids = healthy;
}

pub disconnected_detail : Text → Text → Text
disconnected_detail venue symbol =
    codes "Lost the connection to "
    ++ (venue ++ (codes "; " ++ (symbol ++ codes " resumes with a snapshot once it is back")))

pub resubscribing_detail : Text → Text → Text
resubscribing_detail venue symbol =
    symbol
    ++ (codes " stopped matching "
        ++ (venue ++ codes "'s checksum; it resumes with a fresh snapshot"))

module _ {B : Type 0} (encode : Event → B) where
  unfoldable pub make_stream : ℕ → Text → BookSpec → PairPrecision → Stream B
  make_stream id venue spec precision = record {
    id = id;
    stream_info = make_payload encode (info_event (make_stream_info id venue spec precision));
    disconnected_status = make_payload encode (
        status_event
          (make_feed_status state_disconnected (disconnected_detail venue spec.symbol) []));
    resubscribing_status = make_payload encode (
        status_event (make_feed_status state_degraded (resubscribing_detail venue spec.symbol) []));
    live_status =
        make_payload encode
          (status_event (make_feed_status state_live (spec.symbol ++ codes " is back") (id ∷ [])));
    book = Book.make_book spec.depth;
    gap_status = none;
    has_snapshot = false;
    interrupted = false;
    checksum = 0;
    venue_time_ns = pos 0;
    capture_time_ns = pos 0;
    watchers = [];
  }

-- `std::erase` of a watcher.
unfoldable pub without : ℕ → List ℕ → List ℕ
without w watchers = keep_if (λ x. not (x == w)) watchers

module _ {B : Type 0} where
  -- `SendLocked`.
  unfoldable pub send_all : Payload B → List ℕ → Sends B
  send_all payload watchers = map (λ w. (w, payload)) watchers

  -- The first part of `Receive`: a snapshot ends a gap.
  unfoldable pub note_snapshot : MessageType → Stream B → Stream B × Sends B
  note_snapshot update s = (s, [])
  note_snapshot snapshot s = (
    record s { has_snapshot = true; interrupted = false },
    if s.interrupted then send_all s.live_status s.watchers else [],
  )

  unfoldable pub status_for : Gap → Stream B → Payload B
  status_for resubscribing s = s.resubscribing_status
  status_for disconnected s = s.disconnected_status

  unfoldable pub interrupt : Stream B → Gap → Stream B × Sends B
  interrupt s gap = (
    record s {
      book = Book.clear s.book;
      has_snapshot = false;
      interrupted = true;
      gap_status = some (status_for gap s);
    },
    send_all (status_for gap s) s.watchers,
  )

  -- `SnapshotLocked`.
  unfoldable pub snapshot_of : Stream B → WireBook
  snapshot_of s = record {
    stream_id = s.id;
    kind = kind_snapshot;
    bids = append_levels s.book.bids (λ e. e) [];
    asks = append_levels s.book.asks (λ e. e) [];
    checksum = s.checksum;
    venue_time_ns = s.venue_time_ns;
    capture_time_ns = s.capture_time_ns;
  }

  unfoldable pub send_to : ℕ → Option (Payload B) → Sends B
  send_to w none = []
  send_to w (some payload) = (w, payload) ∷ []

  unfoldable pub unwatch : Stream B → ℕ → Stream B × Sends B
  unwatch s w = (record s { watchers = without w s.watchers }, [])

module _ {B : Type 0} (encode : Event → B) where
  unfoldable pub receive : Stream B → Message → Stream B × Sends B
  receive s m =
      let (noted, sent) = note_snapshot m.type s in
      (
        record noted {
          book = Book.apply noted.book m;
          checksum = m.checksum;
          venue_time_ns = m.venue_time_ns;
          capture_time_ns = m.capture_time_ns;
        },
        sent
            ++ (if is_empty noted.watchers
                then []
                else send_all (make_payload encode (book_event (make_wire_book noted.id m)))
                    noted.watchers),
      )

  -- What a new watcher is sent after the StreamInfo.
  unfoldable pub current : Stream B → Option (Payload B)
  current s =
      if s.interrupted
      then s.gap_status
      else if s.has_snapshot
      then some (make_payload encode (book_event (snapshot_of s)))
      else none

  unfoldable pub watch : Stream B → ℕ → Stream B × Sends B
  watch s w = (
    record s { watchers = without w s.watchers ++ w ∷ [] },
    (w, s.stream_info) ∷ send_to w (current s),
  )
