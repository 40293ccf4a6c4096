-- ===== src/Kraken/Decoder/Emits.antt =====
-- data_feed/kraken/l2_decoder.cc: the decoder changes its output by `Emit` alone, whatever the
-- frame is and however the call ends.
use strategy_nodes.Common.{inl, inr, ℤ, Option, none, some, ok, err, Bool-cases, Result}
use strategy_nodes.L2.Message.{Message, PairPrecision}
use strategy_nodes.Core.Json.{Json, FrameError}
use strategy_nodes.Kraken.Decoder.{
  Head, book_head, make_message, is_book_frame, emit_message, decode_wanted, decode_book,
  decode_document, decode,
}
use strategy_nodes.Venue.Decoder.{Output, RawFrame, Run, returned, threw, Ends}

module _ {O : Type 0} (out : Output O) (unspecified_days : ℤ → ℤ → ℤ → ℤ) (P : O → Type 0)
    (kept : (o : O) (m : Message) → P o → P (out.emit o m)) where
  emit_message-Ends :
      (o : O) (r : Result FrameError Message) → P o → Ends P (emit_message out unspecified_days o r)
  unfolding emit_message
  emit_message-Ends o (err e) h = h
  emit_message-Ends o (ok m) h = kept o m h

  decode_wanted-Ends :
      (o : O) (head : Head) (capture : ℤ) (found : Option PairPrecision)
      → P o
      → Ends P (decode_wanted out unspecified_days o head capture found)
  unfolding decode_wanted
  decode_wanted-Ends o head capture none h = h
  decode_wanted-Ends o head capture (some p) h =
      emit_message-Ends o (make_message unspecified_days head capture p) h

  decode_book-Ends :
      (o : O) (r : Result FrameError Head) (capture : ℤ)
      → P o
      → Ends P (decode_book out unspecified_days o r capture)
  unfolding decode_book
  decode_book-Ends o (err e) capture h = h
  decode_book-Ends o (ok head) capture h =
      decode_wanted-Ends o head capture (out.find o head.symbol head.type) h

  decode_document-Ends :
      (o : O) (json : Option Json) (capture : ℤ)
      → P o
      → Ends P (decode_document out unspecified_days o json capture)
  unfolding decode_document
  decode_document-Ends o none capture h = h
  decode_document-Ends o (some document) capture h = elim (Bool-cases (is_book_frame document)) [
    | inl e ↦ rw (e) (decode_book-Ends o (book_head document) capture h)
    | inr e ↦ rw (e) h
  ]

  pub decode-Ends : (o : O) (frame : RawFrame) → P o → Ends P (decode out unspecified_days o frame)
  unfolding decode
  decode-Ends o frame h = decode_document-Ends o frame.json frame.capture_time_ns h

-- The decoder's own state is empty.
unfoldable pub stateless : {O : Type 0} → Run O → Run (Unit {0} × O)
stateless (returned o) = returned (tt, o)
stateless (threw e o) = threw e (tt, o)

pub stateless-Ends :
    {O : Type 0} (P : O → Type 0) (r : Run O) → Ends P r → Ends (λ t. P (t.1)) (stateless r)
unfolding stateless
stateless-Ends P (returned o) h = h
stateless-Ends P (threw e o) h = h
