-- ===== src/L2/Serialize.antt =====
-- data_feed/l2/message.h and message.cc: the bytes of a message in a recording.
-- The buffer is the list of its bytes. Writing into it keeps what was written so far, and the rest.
pub mod Reader
pub mod RoundTrip
pub mod Tests
use strategy_nodes.Common.{
  ℕ, ◌+◌, ◌*◌, ℤ, List, [], ◌∷◌, ◌++◌, Text, length, drop, Result, ok, err, ltb, if◌then◌else◌,
}
use strategy_nodes.L2.Message.{MessageType, update, snapshot, Level, Message}
use strategy_nodes.Core.Bytes.{to_bytes, to_u64}

-- `sizeof(Level)`.
abbrev pub level_size : ℕ
level_size = 16

unfoldable pub get_byte_size : Message → ℕ
get_byte_size m = 4 + 4 + 8 + 8 + 8 + length m.buys * level_size + 8 + length m.sells * level_size

unfoldable pub type_number : MessageType → ℕ
type_number update = 0
type_number snapshot = 1

-- What was written, and the rest of the buffer.
abbrev pub Span : Type 0
Span = Text × Text

unfoldable pub write : Span → Text → Span
write (done, rest) source = (done ++ source, drop (length source) rest)

unfoldable pub write_u32 : Span → ℕ → Span
write_u32 out value = write out (to_bytes 4 value)

unfoldable pub write_u64 : Span → ℕ → Span
write_u64 out value = write out (to_bytes 8 value)

unfoldable pub write_i64 : Span → ℤ → Span
write_i64 out value = write_u64 out (to_u64 value)

-- The bytes that the levels of a vector lie in.
unfoldable pub level_bytes : List Level → Text
level_bytes [] = []
level_bytes (l ∷ ls) =
    to_bytes 8 (to_u64 l.price) ++ (to_bytes 8 (to_u64 l.quantity) ++ level_bytes ls)

unfoldable pub write_side : Span → List Level → Span
write_side out side = write (write_u64 out (length side * level_size)) (level_bytes side)

-- `std::length_error`.
pub data LengthError : Type 0 where
  buffer_too_small : LengthError

-- The buffer afterwards, and the number of bytes written.
unfoldable pub serialize : Message → Text → Result LengthError (Text × ℕ)
serialize m buffer =
    let typed = write_u32 ([], buffer) (type_number m.type) in
    let summed = write_u32 typed m.checksum in
    let timed = write_i64 (write_i64 summed m.venue_time_ns) m.capture_time_ns in
    let (done, rest) = write_side (write_side timed m.buys) m.sells in
    if ltb (length buffer) (get_byte_size m)
    then err buffer_too_small
    else ok (done ++ rest, get_byte_size m)
