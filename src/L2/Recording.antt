-- ===== src/L2/Recording.antt =====
-- data_feed/l2/file_header.h, file_header.cc, file_writer.h and file_writer.cc: what is recorded.
-- The file system is the environment: whether a file opens and whether a write succeeds are
-- arguments. A file is its header's start time and the messages written to it; its name and the
-- rename that ends it are not modelled. `Consume` runs on the writer's thread, an entry at a time;
-- an exception makes the thread set `failed`, after which entries are dropped.
pub mod Stretches
pub mod Header
pub mod Tests
use strategy_nodes.Common.{
  ℕ, zero, suc, ◌-◌, ◌<◌, ℤ, pos, Bool, true, false, not, Option, none, some, List, [], ◌∷◌, ◌++◌,
  Text, codes, Result, ok, err, take, replicate, length, is_empty, min, if◌then◌else◌,
}
use strategy_nodes.L2.Message.{Message, BookSpec, PairPrecision}

abbrev pub text_size : ℕ
text_size = 16

-- The fixed fields of the preamble; `magic` is "KRKNL2", zero padded.
pub record FileHeader : Type 0 where
  pub magic : Text
  pub format_version : ℕ
  pub depth : ℕ
  pub price_decimals : ℕ
  pub qty_decimals : ℕ
  pub start_time_ns : ℤ
  pub venue : Text
  pub symbol : Text

-- `ToFixedText`: zeros, and then a copy over the front of them.
unfoldable pub to_fixed_text : Text → Text
to_fixed_text value =
    take (min (length value) text_size) value
    ++ replicate (text_size - min (length value) text_size) 0

unfoldable pub make_file_header : Text → BookSpec → PairPrecision → ℤ → FileHeader
make_file_header venue book precision start_time_ns = record {
  magic = codes "KRKNL2" ++ 0 ∷ 0 ∷ [];
  format_version = 1;
  depth = book.depth;
  price_decimals = precision.price_decimals;
  qty_decimals = precision.qty_decimals;
  start_time_ns = start_time_ns;
  venue = to_fixed_text venue;
  symbol = to_fixed_text book.symbol;
}

pub record File : Type 0 where
  pub header : FileHeader
  pub messages : List Message

-- `output` is the file that is open; `finished` are the files that were closed, in order. The
-- number of messages in the open file is the length of its list.
pub record FileWriter : Type 0 where
  pub header : FileHeader
  pub output : Option File
  pub finished : List File

-- `std::runtime_error` of a file that cannot be opened or written.
pub data WriteError : Type 0 where
  cannot_open cannot_write : WriteError

-- A message, or the end of a stretch of the stream.
abbrev pub Entry : Type 0
Entry = Option Message

-- `Open`, at the time `now`.
unfoldable pub open_file : FileWriter → ℤ → Bool → Result WriteError FileWriter
open_file w now opens =
    let header : FileHeader = record w.header { start_time_ns = now } in
    if opens
    then ok
        (record w { header = header; output = some (record { header = header; messages = [] }) })
    else err cannot_open

unfoldable pub make_file_writer :
    Text → BookSpec → PairPrecision → ℤ → Bool → Result WriteError FileWriter
make_file_writer venue book precision now opens =
    open_file
      (record {
        header = make_file_header venue book precision (pos 0);
        output = none;
        finished = [];
      })
      now opens

-- `Close`, idempotent.
unfoldable pub close_file : FileWriter → FileWriter
close_file w = elim w.output [
  | none ↦ w
  | some f ↦ record w { output = none; finished = w.finished ++ f ∷ [] }
]

-- `Write`, to the file that is open.
unfoldable pub write : FileWriter → File → Message → Bool → Result WriteError FileWriter
write w f m writes =
    if writes
    then ok (record w { output = some (record f { messages = f.messages ++ m ∷ [] }) })
    else err cannot_write

-- `Consume` of a gap: an empty file is kept for the next stretch.
unfoldable pub end_stretch : FileWriter → FileWriter
end_stretch w = elim w.output [
  | none ↦ w
  | some f ↦ if is_empty f.messages then w else close_file w
]

-- `Consume` of a message.
unfoldable pub record_message :
    FileWriter → Message → ℤ → Bool → Bool → Result WriteError FileWriter
record_message w m now opens writes = elim w.output [
  | some f ↦ write w f m writes
  | none ↦ elim (open_file w now opens) [
    | err e ↦ err e
    | ok w' ↦ elim w'.output [ none ↦ err cannot_open | some f ↦ write w' f m writes ]
  ]
]

-- `Consume`.
unfoldable pub consume : FileWriter → Entry → ℤ → Bool → Bool → Result WriteError FileWriter
consume w none now opens writes = ok (end_stretch w)
consume w (some m) now opens writes = record_message w m now opens writes
