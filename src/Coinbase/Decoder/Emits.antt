-- ===== src/Coinbase/Decoder/Emits.antt =====
-- data_feed/coinbase/l2_decoder.cc: a decoder changes its output by `Emit` alone, whatever the
-- frame is and however the call ends.
use strategy_nodes.Common.{
  Bool, true, false, inl, inr, ℕ, ℤ, Option, none, some, List, Text, codes, text_eq, Result, ok,
  err, Bool-cases,
}
use strategy_nodes.L2.Message.{MessageType, Message, PairPrecision}
use strategy_nodes.Core.Json.{Json, FrameError, is_object, require_json_array}
use strategy_nodes.Coinbase.Levels.{Sides, event_head, event_levels, make_message}
use strategy_nodes.Coinbase.Decoder.{
  Decoder, advance, Head, ignored, numbered, document_head, hold, keep_heartbeat, beat, venue_time,
  emit_event, decode_event, decode_books, decode_channel, decode_followed, decode_advanced,
  decode_numbered, decode_head, decode_document, decode,
}
use strategy_nodes.Venue.Decoder.{
  Output, RawFrame, Run, returned, threw, for_each, Ends, for_each-Ends,
}

module _ {O : Type 0} (out : Output O) (unspecified_days : ℤ → ℤ → ℤ → ℤ) (P : O → Type 0)
    (kept : (o : O) (m : Message) → P o → P (out.emit o m)) where
  abbrev Keeps : Run (Decoder × O) → Type 0
  Keeps = Ends (λ s. P (s.1))

  emit_event-Keeps :
      (time capture : ℤ) (o : O) (event : Json) (product : Text) (type : MessageType)
      (p : PairPrecision)
      → P o
      → Ends P (emit_event out unspecified_days time capture o event product type p)
  unfolding emit_event
  emit_event-Keeps time capture o event product type p h = at (event_levels event p)
    where
      at :
          (r : Result FrameError Sides)
          → Ends P (elim r [
            | err e ↦ threw e o
            | ok sides ↦ returned (out.emit o (make_message product type time capture sides))
          ])
      at (err e) = h
      at (ok sides) = kept o (make_message product type time capture sides) h

  found-Keeps :
      (time capture : ℤ) (o : O) (event : Json) (product : Text) (type : MessageType)
      (found : Option PairPrecision)
      → P o
      → Ends P (elim found [
        | none ↦ returned o
        | some p ↦ emit_event out unspecified_days time capture o event product type p
      ])
  found-Keeps time capture o event product type none h = h
  found-Keeps time capture o event product type (some p) h =
      emit_event-Keeps time capture o event product type p h

  decode_event-Keeps :
      (time capture : ℤ) (o : O) (event : Json)
      → P o
      → Ends P (decode_event out unspecified_days time capture o event)
  unfolding decode_event
  decode_event-Keeps time capture o event h = at (event_head event)
    where
      at :
          (r : Result FrameError (Text × MessageType))
          → Ends P (elim r [
            | err e ↦ threw e o
            | ok head ↦ elim (out.find o (head.0) (head.1)) [
              | none ↦ returned o
              | some p ↦ emit_event out unspecified_days time capture o event (head.0) (head.1) p
            ]
          ])
      at (err e) = h
      at (ok (product, type)) =
          found-Keeps time capture o event product type (out.find o product type) h

  hold-Keeps : (d : Decoder) (r : Run O) → Ends P r → Keeps (hold d r)
  unfolding hold
  hold-Keeps d (returned o) h = h
  hold-Keeps d (threw e o) h = h

  keep_heartbeat-Keeps :
      (d : Decoder) (o : O) (r : Run (Option ℕ)) → P o → Keeps (keep_heartbeat d o r)
  unfolding keep_heartbeat
  keep_heartbeat-Keeps d o (returned last) h = h
  keep_heartbeat-Keeps d o (threw e last) h = h

  decode_books-Keeps :
      (d : Decoder) (o : O) (document : Json) (capture : ℤ) (events : List Json)
      → P o
      → Keeps (decode_books out unspecified_days d o document capture events)
  unfolding decode_books
  decode_books-Keeps d o document capture events h = at (venue_time unspecified_days document)
    where
      at :
          (r : Result FrameError ℤ)
          → Keeps (elim r [
            | err e ↦ threw e (d, o)
            | ok time ↦ hold d (for_each (decode_event out unspecified_days time capture) o events)
          ])
      at (err e) = h
      at (ok time) =
          hold-Keeps d (for_each (decode_event out unspecified_days time capture) o events) (
            for_each-Ends P (decode_event out unspecified_days time capture)
              (λ q event. decode_event-Keeps time capture q event) o events h)

  decode_channel-Keeps :
      (d : Decoder) (o : O) (document : Json) (capture : ℤ) (channel : Text) (events : List Json)
      → P o
      → Keeps (decode_channel out unspecified_days d o document capture channel events)
  unfolding decode_channel
  decode_channel-Keeps d o document capture channel events h =
      elim (Bool-cases (text_eq channel (codes "heartbeats"))) [
        | inl e ↦ rw (e) (keep_heartbeat-Keeps d o (for_each beat d.last_heartbeat events) h)
        | inr e ↦ elim (Bool-cases (text_eq channel (codes "l2_data"))) [
          | inl f ↦ rw (e, f) (decode_books-Keeps d o document capture events h)
          | inr f ↦ rw (e, f) h
        ]
      ]

  decode_followed-Keeps :
      (d : Decoder) (o : O) (document : Json) (capture : ℤ) (channel : Text)
      → P o
      → Keeps (decode_followed out unspecified_days d o document capture channel)
  unfolding decode_followed
  decode_followed-Keeps d o document capture channel h =
      at (require_json_array document (codes "events"))
    where
      at :
          (r : Result FrameError (List Json))
          → Keeps (elim r [
            | err e ↦ threw e (d, o)
            | ok events ↦ decode_channel out unspecified_days d o document capture channel events
          ])
      at (err e) = h
      at (ok events) = decode_channel-Keeps d o document capture channel events h

  decode_advanced-Keeps :
      (d : Decoder) (o : O) (document : Json) (capture : ℤ) (channel : Text)
      (r : Result FrameError (Option ℕ × Bool))
      → P o
      → Keeps (decode_advanced out unspecified_days d o document capture channel r)
  unfolding decode_advanced
  decode_advanced-Keeps d o document capture channel (err e) h = h
  decode_advanced-Keeps d o document capture channel (ok (last, true)) h =
      decode_followed-Keeps (record d { last_sequence = last }) o document capture channel h
  decode_advanced-Keeps d o document capture channel (ok (last, false)) h = h

  decode_head-Keeps :
      (d : Decoder) (o : O) (document : Json) (capture : ℤ) (r : Result FrameError Head)
      → P o
      → Keeps (decode_head out unspecified_days d o document capture r)
  unfolding decode_head decode_numbered
  decode_head-Keeps d o document capture (err e) h = h
  decode_head-Keeps d o document capture (ok ignored) h = h
  decode_head-Keeps d o document capture (ok (numbered channel n)) h =
      decode_advanced-Keeps d o document capture channel (advance d.last_sequence n) h

  document-Keeps :
      (d : Decoder) (o : O) (document : Json) (capture : ℤ)
      → P o
      → Keeps (decode_document out unspecified_days d o document capture)
  unfolding decode_document
  document-Keeps d o document capture h = elim (Bool-cases (is_object document)) [
    | inl e ↦ rw (e) (decode_head-Keeps d o document capture (document_head document) h)
    | inr e ↦ rw (e) h
  ]

  pub decode-Keeps :
      (d : Decoder) (o : O) (frame : RawFrame) → P o → Keeps (decode out unspecified_days d o frame)
  unfolding decode
  decode-Keeps d o frame h = at frame.json
    where
      at :
          (json : Option Json)
          → Keeps (elim json [
            | none ↦ returned (d, o)
            | some document ↦
                decode_document out unspecified_days d o document frame.capture_time_ns
          ])
      at none = h
      at (some document) = document-Keeps d o document frame.capture_time_ns h
