-- ===== src/Coinbase/Decoder/Moves.antt =====
-- data_feed/coinbase/l2_decoder.cc: a frame is ignored, or it is the next of its connection.
use strategy_nodes.Common.{
  ℕ, suc, ◌-◌, ◌^◌, ◌≤◌, ◌<◌, ◌≡◌, refl, sym, ◌⊎◌, inl, inr, ℤ, Bool, true, false, Option, none,
  some, Text, codes, Result, ok, err, leb, if◌then◌else◌, Bool-cases, subst, arith,
}
use strategy_nodes.Core.Json.{
  Json, FrameError, skipped, is_object, find_json_string, Holds, and_then-Holds, and_then,
}
use strategy_nodes.Coinbase.Levels.{require_unsigned, require_unsigned_bound}
use strategy_nodes.Coinbase.Decoder.{
  Decoder, advance, Head, ignored, numbered, channel_head, is_error, document_head, beat,
  decode_followed, decode_advanced, decode_numbered, decode_head, decode_document, decode,
}
use strategy_nodes.Venue.Decoder.{Output, RawFrame, Run, returned, threw, Ends, Returns}
use strategy_nodes.Coinbase.Decoder.Keeps.{decode_followed-KeepsLast}

-- The sequence number of a frame that has one.
abbrev pub number_in : Result FrameError Head → Option ℕ
number_in (err e) = none
number_in (ok ignored) = none
number_in (ok (numbered channel n)) = some n

abbrev pub number_of_document : Json → Option ℕ
number_of_document document =
    if is_object document then number_in (document_head document) else none

abbrev pub number_of : RawFrame → Option ℕ
number_of frame = elim frame.json [ none ↦ none | some document ↦ number_of_document document ]

-- Whether a frame is at or below the last number, or has none.
abbrev pub late : Option ℕ → Option ℕ → Bool
late last none = true
late none (some n) = false
late (some last) (some n) = leb n last

-- The first number of a connection may be any.
abbrev pub IsNext : Option ℕ → ℕ → Type 0
IsNext none n = Unit
IsNext (some last) n = n ≡ suc last

late-none : (last : Option ℕ) → late last none ≡ true
late-none none = refl
late-none (some k) = refl

-- A sequence number is a `u64`.
abbrev pub HasSmall : Head → Type 0
HasSmall ignored = Unit
HasSmall (numbered channel n) = n < 2 ^ 64

channel_head-HasSmall :
    (document : Json) (channel : Option Text) → Holds HasSmall (channel_head document channel)
unfolding channel_head and_then
channel_head-HasSmall document none = tt
channel_head-HasSmall document (some channel) =
    numbered_small (require_unsigned document (codes "sequence_num"))
      (require_unsigned_bound document (codes "sequence_num"))
  where
    numbered_small :
        (r : Result FrameError ℕ)
        → Holds (λ n. n < 2 ^ 64) r
        → Holds HasSmall (and_then r (λ n. ok (numbered channel n)))
    numbered_small (ok n) h = h
    numbered_small (err e) h = tt

if_not_error :
    (r : Result FrameError Head) (b : Bool)
    → Holds HasSmall r
    → Holds HasSmall (if b then ok ignored else r)
if_not_error r true h = tt
if_not_error r false h = h

pub document_head-HasSmall : (document : Json) → Holds HasSmall (document_head document)
unfolding document_head channel_head
document_head-HasSmall document =
    and_then-Holds HasSmall (find_json_string document (codes "type"))
      (λ type.
        if is_error type
        then ok ignored
        else and_then (find_json_string document (codes "channel")) (channel_head document))
      (λ type. if_not_error _ (is_error type) (
        and_then-Holds HasSmall (find_json_string document (codes "channel"))
          (channel_head document) (channel_head-HasSmall document)))

abbrev after : Option ℕ → Option ℕ → Decoder
after last beat = record { last_sequence = last; last_heartbeat = beat }

leb_of_le : (a b : ℕ) → a ≤ b → leb a b ≡ true
leb_of_le a b h = ground arith

-- What `advance` answers.
advance_late : (last n : ℕ) → n ≤ last → advance (some last) n ≡ ok (some last, false)
unfolding advance
advance_late last n h = rw (leb_of_le n last h) refl

advance_next : (last n : ℕ) → n < 2 ^ 64 → n ≡ suc last → advance (some last) n ≡ ok (some n, true)
unfolding advance
advance_next last n small h = ground arith

pub advance_skips :
    (last n : ℕ)
    → n < 2 ^ 64
    → suc last < n
    → advance (some last) n ≡ err (skipped (suc last) (n - 1))
unfolding advance
advance_skips last n small h = ground arith

trichotomy : (last n : ℕ) → (n ≤ last) ⊎ ((n ≡ suc last) ⊎ (suc last < n))
trichotomy last n = ground arith

Ends-Returns :
    {S : Type 0} (P Q : S → Type 0) (r : Run S) → ((s : S) → P s → Q s) → Ends P r → Returns Q r
Ends-Returns P Q (returned s) f h = f s h
Ends-Returns P Q (threw e s) f h = tt

module _ {O : Type 0} (out : Output O) (unspecified_days : ℤ → ℤ → ℤ → ℤ) where
  -- A frame that is ignored, or the next one: what is known of a state after it.
  abbrev pub Moved : Decoder → O → Option ℕ → Decoder × O → Type 0
  Moved d o number s =
      (late d.last_sequence number ≡ true × s ≡ (d, o))
      ⊎ ((n : ℕ) × (number ≡ some n × IsNext d.last_sequence n × (s.0).last_sequence ≡ some n))

  decode_followed-Moved :
      (d : Decoder) (o : O) (document : Json) (capture : ℤ) (channel : Text) (n : ℕ)
      → IsNext d.last_sequence n
      → Returns (Moved d o (some n)) (
          decode_followed out unspecified_days
            (record d { last_sequence = some n })
            o
            document
            capture
            channel)
  decode_followed-Moved d o document capture channel n next =
      Ends-Returns (λ s. (s.0).last_sequence ≡ some n) (Moved d o (some n)) _
        (λ s e. inr (n, (refl, next, e)))
        (decode_followed-KeepsLast out unspecified_days (record d { last_sequence = some n }) o
          document capture channel)

  decode_numbered-Moved :
      (last beat_last : Option ℕ) (o : O) (document : Json) (capture : ℤ) (channel : Text) (n : ℕ)
      → n < 2 ^ 64
      → Returns
          (Moved (after last beat_last) o (some n))
          (decode_numbered out unspecified_days (after last beat_last) o document capture channel n)
  unfolding decode_numbered decode_advanced advance
  decode_numbered-Moved none beat_last o document capture channel n small =
      decode_followed-Moved (after none beat_last) o document capture channel n tt
  decode_numbered-Moved (some last) beat_last o document capture channel n small =
      let d = after (some last) beat_last in
      let at = decode_advanced out unspecified_days d o document capture channel in
      elim (trichotomy last n) [
        | inl h ↦
            subst (λ r. Returns (Moved d o (some n)) (at r)) (sym (advance_late last n h))
              (inl (leb_of_le n last h, refl))
        | inr (inl h) ↦
            subst (λ r. Returns (Moved d o (some n)) (at r)) (sym (advance_next last n small h))
              (decode_followed-Moved d o document capture channel n h)
        | inr (inr h) ↦
            subst (λ r. Returns (Moved d o (some n)) (at r)) (sym (advance_skips last n small h)) tt
      ]

  decode_head-Moved :
      (d : Decoder) (o : O) (document : Json) (capture : ℤ) (head : Result FrameError Head)
      → Holds HasSmall head
      → Returns
          (Moved d o (number_in head))
          (decode_head out unspecified_days d o document capture head)
  unfolding decode_head
  decode_head-Moved d o document capture (err e) h = tt
  decode_head-Moved d o document capture (ok ignored) h = inl (late-none d.last_sequence, refl)
  decode_head-Moved d o document capture (ok (numbered channel n)) h =
      decode_numbered-Moved d.last_sequence d.last_heartbeat o document capture channel n h

  decode_document-Moved :
      (d : Decoder) (o : O) (document : Json) (capture : ℤ)
      → Returns
          (Moved d o (number_of_document document))
          (decode_document out unspecified_days d o document capture)
  unfolding decode_document
  decode_document-Moved d o document capture = elim (Bool-cases (is_object document)) [
    | inl e ↦ rw (e) (
        decode_head-Moved d o document capture (document_head document)
          (document_head-HasSmall document))
    | inr e ↦ rw (e) (inl (late-none d.last_sequence, refl))
  ]

  pub decode-Moved :
      (d : Decoder) (o : O) (frame : RawFrame)
      → Returns (Moved d o (number_of frame)) (decode out unspecified_days d o frame)
  unfolding decode
  decode-Moved d o frame = at frame.json
    where
      at :
          (json : Option Json)
          → Returns
              (Moved d o (elim json [ none ↦ none | some document ↦ number_of_document document ]))
              (elim json [
                | none ↦ returned (d, o)
                | some document ↦
                    decode_document out unspecified_days d o document frame.capture_time_ns
              ])
      at none = inl (late-none d.last_sequence, refl)
      at (some document) = decode_document-Moved d o document frame.capture_time_ns
