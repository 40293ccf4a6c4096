-- ===== src/Coinbase/Decoder.antt =====
-- data_feed/coinbase/l2_decoder.h and l2_decoder.cc: frames of the "level2" channel.
-- `std::chrono`'s unspecified dates are a parameter, and so is the output, by its interface.
pub mod Events
pub mod Emits
pub mod Keeps
pub mod Moves
pub mod Sequence
use strategy_nodes.Common.{
  ℕ, ◌+◌, ◌-◌, ◌^◌, ◌%◌, ℤ, pos, Bool, true, false, not, Option, none, some, List, [], ◌∷◌, ◌++◌,
  Text, codes, text_eq, value_or, Result, ok, err, ltb, leb, ◌==◌, if◌then◌else◌,
}
use strategy_nodes.L2.Message.{MessageType, update, snapshot, Level, Message, PairPrecision}
use strategy_nodes.Core.Chars.{
  FromChars, parsed, invalid_argument, result_out_of_range, from_chars_unsigned, minus_sign,
}
use strategy_nodes.Core.Decimal.{scale_decimal_string_to_i64, fraction_digits}
use strategy_nodes.Core.Json.{
  Json, FrameError, malformed_field, negative, finer_than_precision, unknown_event, unknown_side,
  skipped, and_then, require_json_string, require_json_array, find_json_string, is_object,
}
use strategy_nodes.Core.UnixTime.{parse_iso8601_to_unix_nanos}
use strategy_nodes.Coinbase.Levels.{require_unsigned, Sides, event_head, event_levels, make_message}
use strategy_nodes.Venue.Decoder.{Output, RawFrame, Run, returned, threw, for_each}

pub record Decoder : Type 0 where
  pub last_sequence : Option ℕ
  pub last_heartbeat : Option ℕ

abbrev pub make_decoder : Decoder
make_decoder = record { last_sequence = none; last_heartbeat = none }

-- Whether `next` follows, and the last number from then on. `u64` wraps.
unfoldable pub advance : Option ℕ → ℕ → Result FrameError (Option ℕ × Bool)
advance none next = ok (some next, true)
advance (some last) next =
    if leb next last
    then ok (some last, false)
    else if next == (last + 1) % 2 ^ 64
    then ok (some next, true)
    else err (skipped ((last + 1) % 2 ^ 64) (next - 1))

-- The loop over the heartbeats of a frame.
unfoldable pub beat : Option ℕ → Json → Run (Option ℕ)
beat last heartbeat =
    let counter =
      and_then (require_unsigned heartbeat (codes "heartbeat_counter")) (advance last) in
    elim counter [ err e ↦ threw e last | ok moved ↦ returned (moved.0) ]

-- What the document's head tells of the frame.
pub data Head : Type 0 where
  ignored : Head
  numbered : Text → ℕ → Head

unfoldable pub channel_head : Json → Option Text → Result FrameError Head
channel_head document none = ok ignored
channel_head document (some channel) =
    and_then (require_unsigned document (codes "sequence_num")) (λ n. ok (numbered channel n))

-- An "error" frame is only logged.
unfoldable pub is_error : Option Text → Bool
is_error none = false
is_error (some type) = text_eq type (codes "error")

unfoldable pub document_head : Json → Result FrameError Head
document_head document = and_then (find_json_string document (codes "type")) (λ type.
    if is_error type
    then ok ignored
    else and_then (find_json_string document (codes "channel")) (channel_head document))

-- What a loop over the events leaves of the decoder and the output.
unfoldable pub hold : {O : Type 0} → Decoder → Run O → Run (Decoder × O)
hold d (returned o) = returned (d, o)
hold d (threw e o) = threw e (d, o)

unfoldable pub keep_heartbeat : {O : Type 0} → Decoder → O → Run (Option ℕ) → Run (Decoder × O)
keep_heartbeat d o (returned last) = returned (record d { last_heartbeat = last }, o)
keep_heartbeat d o (threw e last) = threw e (record d { last_heartbeat = last }, o)

unfoldable pub venue_time : (ℤ → ℤ → ℤ → ℤ) → Json → Result FrameError ℤ
venue_time unspecified_days document =
    and_then (find_json_string document (codes "timestamp")) (λ text. ok (
      value_or (elim text [ none ↦ none | some t ↦ parse_iso8601_to_unix_nanos unspecified_days t ])
        (pos 0)))

-- Each of the frame's events is one book change, emitted where the output wants it.
module _ {O : Type 0} (out : Output O) (unspecified_days : ℤ → ℤ → ℤ → ℤ) where
  -- The part of `DecodeEvent` after `Find` gave a precision.
  unfoldable pub emit_event : ℤ → ℤ → O → Json → Text → MessageType → PairPrecision → Run O
  emit_event venue_time_ns capture_time_ns o event product type precision =
      elim (event_levels event precision) [
        | err e ↦ threw e o
        | ok sides ↦
            returned (out.emit o (make_message product type venue_time_ns capture_time_ns sides))
      ]

  unfoldable pub decode_event : ℤ → ℤ → O → Json → Run O
  decode_event venue_time_ns capture_time_ns o event = elim (event_head event) [
    | err e ↦ threw e o
    | ok head ↦ elim (out.find o (head.0) (head.1)) [
      | none ↦ returned o
      | some precision ↦
          emit_event venue_time_ns capture_time_ns o event (head.0) (head.1) precision
    ]
  ]

  unfoldable pub decode_books : Decoder → O → Json → ℤ → List Json → Run (Decoder × O)
  decode_books d o document capture_time_ns events = elim (venue_time unspecified_days document) [
    | err e ↦ threw e (d, o)
    | ok time ↦ hold d (for_each (decode_event time capture_time_ns) o events)
  ]

  -- The frame of a channel, once its sequence number is the next.
  unfoldable pub decode_channel : Decoder → O → Json → ℤ → Text → List Json → Run (Decoder × O)
  decode_channel d o document capture_time_ns channel events =
      if text_eq channel (codes "heartbeats")
      then keep_heartbeat d o (for_each beat d.last_heartbeat events)
      else if text_eq channel (codes "l2_data")
      then decode_books d o document capture_time_ns events
      else returned (d, o)

  unfoldable pub decode_followed : Decoder → O → Json → ℤ → Text → Run (Decoder × O)
  decode_followed d o document capture_time_ns channel =
      elim (require_json_array document (codes "events")) [
        | err e ↦ threw e (d, o)
        | ok events ↦ decode_channel d o document capture_time_ns channel events
      ]

  -- After `Advance` of the sequence number: it threw, or the frame is the next or out of order.
  unfoldable pub decode_advanced :
      Decoder → O → Json → ℤ → Text → Result FrameError (Option ℕ × Bool) → Run (Decoder × O)
  decode_advanced d o document capture_time_ns channel (err e) = threw e (d, o)
  decode_advanced d o document capture_time_ns channel (ok (last, true)) =
      decode_followed (record d { last_sequence = last }) o document capture_time_ns channel
  decode_advanced d o document capture_time_ns channel (ok (last, false)) =
      returned (record d { last_sequence = last }, o)

  unfoldable pub decode_numbered : Decoder → O → Json → ℤ → Text → ℕ → Run (Decoder × O)
  decode_numbered d o document capture_time_ns channel n =
      decode_advanced d o document capture_time_ns channel (advance d.last_sequence n)

  unfoldable pub decode_head : Decoder → O → Json → ℤ → Result FrameError Head → Run (Decoder × O)
  decode_head d o document capture_time_ns (err e) = threw e (d, o)
  decode_head d o document capture_time_ns (ok ignored) = returned (d, o)
  decode_head d o document capture_time_ns (ok (numbered channel n)) =
      decode_numbered d o document capture_time_ns channel n

  unfoldable pub decode_document : Decoder → O → Json → ℤ → Run (Decoder × O)
  decode_document d o document capture_time_ns =
      if is_object document
      then decode_head d o document capture_time_ns (document_head document)
      else returned (d, o)

  unfoldable pub decode : Decoder → O → RawFrame → Run (Decoder × O)
  decode d o frame = elim frame.json [
    | none ↦ returned (d, o)
    | some document ↦ decode_document d o document frame.capture_time_ns
  ]
