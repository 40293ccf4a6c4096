-- ===== src/L2/Serialize/RoundTrip.antt =====
-- data_feed/l2/message.h and message.cc: what is written is the layout, in place, and the
-- reader of the layout gets the message back.
use strategy_nodes.Common.{
  ℕ, zero, suc, ◌+◌, ◌*◌, ◌≤◌, ◌<◌, ◌≡◌, ◌⊎◌, refl, ap, ◌∙◌, inl, inr, List, [], ◌∷◌, ◌++◌, Text,
  length, drop, length-append, append_assoc, ok, err, ltb, ltb→lt, lt→ltb, le→ltb, ltb→le,
  Bool-cases, arith,
}
use strategy_nodes.L2.Message.{Level, Message}
use strategy_nodes.Core.Bytes.{to_bytes, to_u64}
use strategy_nodes.Core.Bytes.Laws.{length-to_bytes}
use strategy_nodes.L2.Serialize.{
  level_size, get_byte_size, type_number, Span, write, write_u32, write_u64, write_i64, level_bytes,
  write_side, buffer_too_small, serialize,
}
use strategy_nodes.L2.Serialize.Reader.{
  read_message, IsMessage, side_bytes, encoded, read_message-encoded,
}

drop-drop :
    (a b : Text) (rest : Text)
    → drop (length b) (drop (length a) rest) ≡ drop (length (a ++ b)) rest
drop-drop [] b rest = refl
drop-drop (x ∷ a) b [] = drop_none (length b)
  where
    drop_none : (n : ℕ) → drop {A = ℕ} n [] ≡ []
    drop_none zero = refl
    drop_none (suc n) = refl
drop-drop (x ∷ a) b (y ∷ rest) = drop-drop a b rest

write-write : (out : Span) (a b : Text) → write (write out a) b ≡ write out (a ++ b)
unfolding write
write-write (done, rest) a b = λ i. (append_assoc done a b i, drop-drop a b rest i)

write_side-bytes :
    (out : Span) (side : List Level) → write_side out side ≡ write out (side_bytes side)
unfolding write_side write_u64
write_side-bytes out side =
    write-write out (to_bytes 8 (length side * level_size)) (level_bytes side)

length-level_bytes : (ls : List Level) → length (level_bytes ls) ≡ length ls * level_size
unfolding level_bytes
length-level_bytes [] = omega arith
length-level_bytes (l ∷ ls) =
    let price = to_bytes 8 (to_u64 l.price) in
    let quantity = to_bytes 8 (to_u64 l.quantity) in
    omega (
      arith,
      length-append price (quantity ++ level_bytes ls),
      length-append quantity (level_bytes ls),
      length-to_bytes 8 (to_u64 l.price),
      length-to_bytes 8 (to_u64 l.quantity),
      length-level_bytes ls,
    )

length-side_bytes : (ls : List Level) → length (side_bytes ls) ≡ 8 + length ls * level_size
length-side_bytes ls = omega (
  arith,
  length-append (to_bytes 8 (length ls * level_size)) (level_bytes ls),
  length-to_bytes 8 (length ls * level_size),
  length-level_bytes ls,
)

length-encoded : (m : Message) → length (encoded m) ≡ get_byte_size m
unfolding get_byte_size
length-encoded m =
    let type = to_bytes 4 (type_number m.type) in
    let checksum = to_bytes 4 m.checksum in
    let venue = to_bytes 8 (to_u64 m.venue_time_ns) in
    let capture = to_bytes 8 (to_u64 m.capture_time_ns) in
    let sides = side_bytes m.buys ++ side_bytes m.sells in
    omega (
      arith,
      length-append type (checksum ++ (venue ++ (capture ++ sides))),
      length-append checksum (venue ++ (capture ++ sides)),
      length-append venue (capture ++ sides),
      length-append capture sides,
      length-append (side_bytes m.buys) (side_bytes m.sells),
      length-to_bytes 4 (type_number m.type),
      length-to_bytes 4 m.checksum,
      length-to_bytes 8 (to_u64 m.venue_time_ns),
      length-to_bytes 8 (to_u64 m.capture_time_ns),
      length-side_bytes m.buys,
      length-side_bytes m.sells,
    )

-- Everything that `serialize` writes, one write after the other.
abbrev writes : Message → Span → Span
writes m out =
    let typed = write_u32 out (type_number m.type) in
    let summed = write_u32 typed m.checksum in
    let timed = write_i64 (write_i64 summed m.venue_time_ns) m.capture_time_ns in
    write_side (write_side timed m.buys) m.sells

writes-encoded : (m : Message) (out : Span) → writes m out ≡ write out (encoded m)
unfolding write_u32 write_u64 write_i64
writes-encoded m out =
    let type = to_bytes 4 (type_number m.type) in
    let checksum = to_bytes 4 m.checksum in
    let venue = to_bytes 8 (to_u64 m.venue_time_ns) in
    let capture = to_bytes 8 (to_u64 m.capture_time_ns) in
    let typed = write out type in
    let summed = write typed checksum in
    let sent = write summed venue in
    let timed = write sent capture in
    let b = side_bytes m.buys in
    let s = side_bytes m.sells in
    ap (λ w. write_side w m.sells) (write_side-bytes timed m.buys)
    ∙ write_side-bytes (write timed b) m.sells
    ∙ write-write timed b s
    ∙ write-write sent capture (b ++ s)
    ∙ write-write summed venue (capture ++ (b ++ s))
    ∙ write-write typed checksum (venue ++ (capture ++ (b ++ s)))
    ∙ write-write out type (checksum ++ (venue ++ (capture ++ (b ++ s))))

serialize_fits :
    (m : Message) (buffer : Text)
    → get_byte_size m ≤ length buffer
    → serialize m buffer ≡ ok (encoded m ++ drop (length (encoded m)) buffer, get_byte_size m)
unfolding serialize write
serialize_fits m buffer h =
    rw (le→ltb (length buffer) (get_byte_size m) h)
      (ap (λ (w : Span). ok (w.0 ++ w.1, get_byte_size m)) (writes-encoded m ([], buffer)))

serialize_short :
    (m : Message) (buffer : Text)
    → length buffer < get_byte_size m
    → serialize m buffer ≡ err buffer_too_small
unfolding serialize
serialize_short m buffer h = rw (lt→ltb (length buffer) (get_byte_size m) h) refl

-- Serializing throws exactly where the buffer is too short. Else it returns the size of the message
-- in bytes, leaves what lies beyond that in the buffer, and a reader of the documented layout gets
-- the same message back, with the recording's symbol: for numbers in the range of their types.
pub serialize_reads_back :
    (m : Message) (buffer : Text)
    → IsMessage m
    → (length buffer < get_byte_size m × serialize m buffer ≡ err buffer_too_small)
      ⊎ ((after : Text) × (serialize m buffer ≡ ok (after, get_byte_size m)
            × read_message m.symbol after ≡ (m, drop (get_byte_size m) buffer)))
serialize_reads_back m buffer h = elim (Bool-cases (ltb (length buffer) (get_byte_size m))) [
  | inl short ↦
      let small = ltb→lt (length buffer) (get_byte_size m) short in
      inl (small, serialize_short m buffer small)
  | inr long ↦
      let rest = drop (length (encoded m)) buffer in
      inr (
        encoded m ++ rest,
        (
          serialize_fits m buffer (ltb→le (length buffer) (get_byte_size m) long),
          read_message-encoded m rest h ∙ ap (λ n. (m, drop n buffer)) (length-encoded m),
        ),
      )
]
