-- ===== src/Frontend/Stream/Invariant.antt =====
-- What holds of a stream between two calls.
use strategy_nodes.Common.{ℕ, ◌≡◌, refl, sym, ◌∙◌, Bool, true, false, Text, some}
use strategy_nodes.L2.Message.{MessageType, update, snapshot, Message, BookSpec, PairPrecision}
use strategy_nodes.L2.Book.{make_book, clear}
use strategy_nodes.L2.Book.Laws.{IsBook, make_book-IsBook, clear-IsBook, apply-IsBook, depth-apply}
use strategy_nodes.Frontend.Wire.{
  StreamInfo, FeedStatus, Event, info_event, status_event, Payload, make_payload, make_stream_info,
}
use strategy_nodes.Core.Receiver.{Gap, disconnected, resubscribing}
use strategy_nodes.Frontend.Stream.{
  Stream, make_stream, make_feed_status, note_snapshot, receive, status_for, interrupt,
}
use strategy_nodes.Frontend.Stream.Client.{drops}
use strategy_nodes.Frontend.Stream.Calls.{Call, receives, interrupts, watches, unwatches, step}

module _ {B : Type 0} (encode : Event → B) where
  -- A payload whose reader drops the book, and one whose reader keeps it.
  abbrev pub IsStatus : Bool → Payload B → Type 0
  IsStatus b p =
      (st : FeedStatus) × (p ≡ make_payload encode (status_event st)) × (drops st.state ≡ b)

  -- What holds of a stream between two calls.
  pub record IsStream (s : Stream B) : Type 0 where
    pub book_ok : IsBook s.book
    pub info_ok :
        (i : StreamInfo) × (s.stream_info ≡ make_payload encode (info_event i))
        × (i.depth ≡ s.book.depth)
    pub disconnected_ok : IsStatus true s.disconnected_status
    pub resubscribing_ok : IsStatus true s.resubscribing_status
    pub live_ok : IsStatus false s.live_status
    pub gap_ok :
        s.interrupted ≡ true
        → (s.has_snapshot ≡ false) × ((p : Payload B) × (s.gap_status ≡ some p) × IsStatus true p)

  pub make_stream-IsStream :
      (id : ℕ) (venue : Text) (spec : BookSpec) (precision : PairPrecision)
      → IsStream (make_stream encode id venue spec precision)
  unfolding make_stream make_feed_status make_stream_info make_book
  make_stream-IsStream id venue spec precision = record {
    book_ok = make_book-IsBook spec.depth;
    info_ok = (_, refl, refl);
    disconnected_ok = (_, refl, refl);
    resubscribing_ok = (_, refl, refl);
    live_ok = (_, refl, refl);
    gap_ok = λ h. cc;
  }

  note_snapshot-IsStream :
      (t : MessageType) (s : Stream B) → IsStream s → IsStream (note_snapshot t s).0
  unfolding note_snapshot
  note_snapshot-IsStream update s v = v
  note_snapshot-IsStream snapshot s v = record {
    book_ok = v.book_ok;
    info_ok = v.info_ok;
    disconnected_ok = v.disconnected_ok;
    resubscribing_ok = v.resubscribing_ok;
    live_ok = v.live_ok;
    gap_ok = λ h. cc;
  }

  pub receive-IsStream : (s : Stream B) (m : Message) → IsStream s → IsStream (receive encode s m).0
  unfolding receive
  receive-IsStream s m v =
      let n = note_snapshot-IsStream m.type s v in
      record {
        book_ok = apply-IsBook _ m n.book_ok;
        info_ok = (n.info_ok.0, n.info_ok.1, n.info_ok.2 ∙ sym (depth-apply _ m));
        disconnected_ok = n.disconnected_ok;
        resubscribing_ok = n.resubscribing_ok;
        live_ok = n.live_ok;
        gap_ok = n.gap_ok;
      }

  pub status_for-IsStatus :
      (s : Stream B) (gap : Gap) → IsStream s → IsStatus true (status_for gap s)
  unfolding status_for
  status_for-IsStatus s disconnected v = v.disconnected_ok
  status_for-IsStatus s resubscribing v = v.resubscribing_ok

  interrupt-IsStream : (s : Stream B) (gap : Gap) → IsStream s → IsStream (interrupt s gap).0
  unfolding interrupt
  interrupt-IsStream s gap v = record {
    book_ok = clear-IsBook s.book;
    info_ok = unfold clear in v.info_ok;
    disconnected_ok = v.disconnected_ok;
    resubscribing_ok = v.resubscribing_ok;
    live_ok = v.live_ok;
    gap_ok = λ _. (refl, (status_for gap s, refl, status_for-IsStatus s gap v));
  }

  pub step-IsStream : (s : Stream B) (c : Call) → IsStream s → IsStream (step encode s c).0
  unfolding step
  step-IsStream s (receives m) v = receive-IsStream s m v
  step-IsStream s (interrupts gap) v = interrupt-IsStream s gap v
  step-IsStream s (watches w) v = record {
    book_ok = v.book_ok;
    info_ok = v.info_ok;
    disconnected_ok = v.disconnected_ok;
    resubscribing_ok = v.resubscribing_ok;
    live_ok = v.live_ok;
    gap_ok = v.gap_ok;
  }
  step-IsStream s (unwatches w) v = record {
    book_ok = v.book_ok;
    info_ok = v.info_ok;
    disconnected_ok = v.disconnected_ok;
    resubscribing_ok = v.resubscribing_ok;
    live_ok = v.live_ok;
    gap_ok = v.gap_ok;
  }
