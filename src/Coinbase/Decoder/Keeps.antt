-- ===== src/Coinbase/Decoder/Keeps.antt =====
-- data_feed/coinbase/l2_decoder.cc: what a frame holds leaves the last sequence number alone.
use strategy_nodes.Common.{
  ℕ, ◌≡◌, refl, inl, inr, ℤ, Option, List, Text, codes, text_eq, Result, ok, err, Bool-cases,
}
use strategy_nodes.Core.Json.{Json, FrameError, require_json_array}
use strategy_nodes.Coinbase.Decoder.{
  Decoder, hold, keep_heartbeat, beat, venue_time, decode_event, decode_books, decode_channel,
  decode_followed,
}
use strategy_nodes.Venue.Decoder.{Output, Run, returned, threw, for_each, Ends}

abbrev pub KeepsLast : {O : Type 0} → Option ℕ → Run (Decoder × O) → Type 0
KeepsLast last = Ends (λ s. (s.0).last_sequence ≡ last)

hold-KeepsLast : {O : Type 0} (d : Decoder) (r : Run O) → KeepsLast d.last_sequence (hold d r)
unfolding hold
hold-KeepsLast d (returned o) = refl
hold-KeepsLast d (threw e o) = refl

keep_heartbeat-KeepsLast :
    {O : Type 0} (d : Decoder) (o : O) (r : Run (Option ℕ))
    → KeepsLast d.last_sequence (keep_heartbeat d o r)
unfolding keep_heartbeat
keep_heartbeat-KeepsLast d o (returned last) = refl
keep_heartbeat-KeepsLast d o (threw e last) = refl

module _ {O : Type 0} (out : Output O) (unspecified_days : ℤ → ℤ → ℤ → ℤ) where
  decode_books-KeepsLast :
      (d : Decoder) (o : O) (document : Json) (capture : ℤ) (events : List Json)
      → KeepsLast d.last_sequence (decode_books out unspecified_days d o document capture events)
  unfolding decode_books
  decode_books-KeepsLast d o document capture events = at (venue_time unspecified_days document)
    where
      at :
          (r : Result FrameError ℤ)
          → KeepsLast d.last_sequence (elim r [
            | err e ↦ threw e (d, o)
            | ok time ↦ hold d (for_each (decode_event out unspecified_days time capture) o events)
          ])
      at (err e) = refl
      at (ok time) =
          hold-KeepsLast d (for_each (decode_event out unspecified_days time capture) o events)

  decode_channel-KeepsLast :
      (d : Decoder) (o : O) (document : Json) (capture : ℤ) (channel : Text) (events : List Json)
      → KeepsLast d.last_sequence
          (decode_channel out unspecified_days d o document capture channel events)
  unfolding decode_channel
  decode_channel-KeepsLast d o document capture channel events =
      elim (Bool-cases (text_eq channel (codes "heartbeats"))) [
        | inl e ↦ rw (e) (keep_heartbeat-KeepsLast d o (for_each beat d.last_heartbeat events))
        | inr e ↦ elim (Bool-cases (text_eq channel (codes "l2_data"))) [
          | inl f ↦ rw (e, f) (decode_books-KeepsLast d o document capture events)
          | inr f ↦ rw (e, f) refl
        ]
      ]

  pub decode_followed-KeepsLast :
      (d : Decoder) (o : O) (document : Json) (capture : ℤ) (channel : Text)
      → KeepsLast d.last_sequence
          (decode_followed out unspecified_days d o document capture channel)
  unfolding decode_followed
  decode_followed-KeepsLast d o document capture channel =
      at (require_json_array document (codes "events"))
    where
      at :
          (r : Result FrameError (List Json))
          → KeepsLast d.last_sequence (elim r [
            | err e ↦ threw e (d, o)
            | ok events ↦ decode_channel out unspecified_days d o document capture channel events
          ])
      at (err e) = refl
      at (ok events) = decode_channel-KeepsLast d o document capture channel events
