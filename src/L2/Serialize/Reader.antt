-- ===== src/L2/Serialize/Reader.antt =====
-- data_feed/l2/message.h: a reader of the documented layout, and what it reads of a message's bytes.
use strategy_nodes.Common.{
  ℕ, zero, suc, ◌*◌, ◌/◌, ◌^◌, ◌<◌, ◌≡◌, refl, sym, ap, ◌∙◌, ℤ, List, [], ◌∷◌, ◌++◌, Text, length,
  take, drop, take-append, drop-append, append_assoc, All, ◌==◌, if◌then◌else◌, arith,
}
use strategy_nodes.L2.Message.{MessageType, update, snapshot, Level, Message}
use strategy_nodes.Core.Bytes.{to_bytes, from_bytes, to_u64, to_i64}
use strategy_nodes.Core.Bytes.Laws.{
  length-to_bytes, from_bytes-to_bytes, IsI64, to_i64-to_u64, to_u64_bound,
}
use strategy_nodes.L2.Serialize.{level_size, type_number, level_bytes}

-- The reader: a number of so many bytes, and what follows it.
abbrev pub read_number : ℕ → Text → ℕ × Text
read_number width text = (from_bytes (take width text), drop width text)

abbrev pub read_i64 : Text → ℤ × Text
read_i64 text = (to_i64 (from_bytes (take 8 text)), drop 8 text)

abbrev pub with_quantity : ℤ → ℤ × Text → Level × Text
with_quantity price (quantity, rest) = (record { price = price; quantity = quantity }, rest)

abbrev pub with_price : ℤ × Text → Level × Text
with_price (price, rest) = with_quantity price (read_i64 rest)

abbrev pub with_levels : Level → List Level × Text → List Level × Text
with_levels level (levels, rest) = (level ∷ levels, rest)

abbrev pub read_levels : ℕ → Text → List Level × Text
read_levels zero text = ([], text)
read_levels (suc n) text =
    let (level, rest) = with_price (read_i64 text) in with_levels level (read_levels n rest)

-- A side: the bytes that its levels take, and the levels.
abbrev pub read_side : Text → List Level × Text
read_side text = let (bytes, rest) = read_number 8 text in read_levels (bytes / level_size) rest

abbrev pub type_numbered : ℕ → MessageType
type_numbered n = if n == 0 then update else snapshot

-- The message at the front of a text, for the symbol of the recording, and what follows it: each
-- step has the fields so far, the last of them with what follows it.
abbrev pub with_sells : Text → ℕ → ℕ → ℤ → ℤ → List Level → List Level × Text → Message × Text
with_sells symbol type checksum venue_time capture_time buys (sells, rest) = (
  record {
    type = type_numbered type;
    checksum = checksum;
    venue_time_ns = venue_time;
    capture_time_ns = capture_time;
    symbol = symbol;
    buys = buys;
    sells = sells;
  },
  rest,
)

abbrev pub with_buys : Text → ℕ → ℕ → ℤ → ℤ → List Level × Text → Message × Text
with_buys symbol type checksum venue_time capture_time (buys, rest) =
    with_sells symbol type checksum venue_time capture_time buys (read_side rest)

abbrev pub with_capture : Text → ℕ → ℕ → ℤ → ℤ × Text → Message × Text
with_capture symbol type checksum venue_time (capture_time, rest) =
    with_buys symbol type checksum venue_time capture_time (read_side rest)

abbrev pub with_venue : Text → ℕ → ℕ → ℤ × Text → Message × Text
with_venue symbol type checksum (venue_time, rest) =
    with_capture symbol type checksum venue_time (read_i64 rest)

abbrev pub with_checksum : Text → ℕ → ℕ × Text → Message × Text
with_checksum symbol type (checksum, rest) = with_venue symbol type checksum (read_i64 rest)

abbrev pub with_type : Text → ℕ × Text → Message × Text
with_type symbol (type, rest) = with_checksum symbol type (read_number 4 rest)

abbrev pub read_message : Text → Text → Message × Text
read_message symbol text = with_type symbol (read_number 4 text)

read_number-to_bytes :
    (width n : ℕ) (rest : Text)
    → n < 256 ^ width
    → read_number width (to_bytes width n ++ rest) ≡ (n, rest)
read_number-to_bytes width n rest h =
    let bytes = to_bytes width n in
    let len = length-to_bytes width n in
    λ i. (
      (ap (λ w. from_bytes (take w (bytes ++ rest))) (sym len)
            ∙ ap from_bytes (take-append bytes rest)
            ∙ from_bytes-to_bytes width n h)
          i,
      (ap (λ w. drop w (bytes ++ rest)) (sym len) ∙ drop-append bytes rest) i,
    )

-- The same, with more of the text in brackets.
read_number-front :
    (width n : ℕ) (more rest : Text)
    → n < 256 ^ width
    → read_number width ((to_bytes width n ++ more) ++ rest) ≡ (n, more ++ rest)
read_number-front width n more rest h =
    ap (read_number width) (append_assoc (to_bytes width n) more rest)
    ∙ read_number-to_bytes width n (more ++ rest) h

read_i64-front :
    (z : ℤ) (more rest : Text)
    → IsI64 z
    → read_i64 ((to_bytes 8 (to_u64 z) ++ more) ++ rest) ≡ (z, more ++ rest)
read_i64-front z more rest h =
    ap (λ p. (to_i64 (p.0), p.1)) (read_number-front 8 (to_u64 z) more rest (to_u64_bound z))
    ∙ ap (λ y. (y, more ++ rest)) (to_i64-to_u64 z h)

abbrev pub IsLevel : Level → Type 0
IsLevel l = IsI64 l.price × IsI64 l.quantity

abbrev level_then : List Level → Level × Text → List Level × Text
level_then ls (level, rest) = with_levels level (read_levels (length ls) rest)

read_levels-level_bytes :
    (ls : List Level) (rest : Text)
    → All IsLevel ls
    → read_levels (length ls) (level_bytes ls ++ rest) ≡ (ls, rest)
unfolding level_bytes
read_levels-level_bytes [] rest h = refl
read_levels-level_bytes (l ∷ ls) rest ((hp, hq), h) =
    let quantity_bytes = to_bytes 8 (to_u64 l.quantity) in
    ap (λ p. level_then ls (with_price p))
      (read_i64-front l.price (quantity_bytes ++ level_bytes ls) rest hp)
    ∙ ap (λ p. level_then ls (with_quantity l.price p))
        (read_i64-front l.quantity (level_bytes ls) rest hq)
    ∙ ap (with_levels l) (read_levels-level_bytes ls rest h)

-- The bytes of a side.
abbrev pub side_bytes : List Level → Text
side_bytes ls = to_bytes 8 (length ls * level_size) ++ level_bytes ls

read_side-side_bytes :
    (ls : List Level) (rest : Text)
    → All IsLevel ls
    → length ls * level_size < 2 ^ 64
    → read_side (side_bytes ls ++ rest) ≡ (ls, rest)
read_side-side_bytes ls rest h small =
    ap (λ (p : ℕ × Text). read_levels (p.0 / level_size) (p.1))
      (read_number-front 8 (length ls * level_size) (level_bytes ls) rest small)
    ∙ ap (λ n. read_levels n (level_bytes ls ++ rest)) (divided (length ls))
    ∙ read_levels-level_bytes ls rest h
  where
    divided : (n : ℕ) → n * 16 / 16 ≡ n
    divided n = omega arith

-- A message as it is written.
abbrev pub encoded : Message → Text
encoded m =
    to_bytes 4 (type_number m.type)
    ++ (to_bytes 4 m.checksum
        ++ (to_bytes 8 (to_u64 m.venue_time_ns)
            ++ (to_bytes 8 (to_u64 m.capture_time_ns)
                ++ (side_bytes m.buys ++ side_bytes m.sells))))

-- What the reader gets back: numbers in range, and sides whose sizes in bytes a `u64` holds.
pub record IsMessage (m : Message) : Type 0 where
  pub checksum_small : m.checksum < 2 ^ 32
  pub venue_time : IsI64 m.venue_time_ns
  pub capture_time : IsI64 m.capture_time_ns
  pub buys : All IsLevel m.buys
  pub sells : All IsLevel m.sells
  pub buys_small : length m.buys * level_size < 2 ^ 64
  pub sells_small : length m.sells * level_size < 2 ^ 64

type_number_small : (t : MessageType) → type_number t < 2 ^ 32
unfolding type_number
type_number_small update = omega arith
type_number_small snapshot = omega arith

type_numbered_lem : (t : MessageType) → type_numbered (type_number t) ≡ t
unfolding type_number
type_numbered_lem update = refl
type_numbered_lem snapshot = refl

pub read_message-encoded :
    (m : Message) (rest : Text)
    → IsMessage m
    → read_message m.symbol (encoded m ++ rest) ≡ (m, rest)
read_message-encoded m rest h =
    let last = side_bytes m.sells in
    let sides = side_bytes m.buys ++ last in
    let capture = to_bytes 8 (to_u64 m.capture_time_ns) ++ sides in
    let venue = to_bytes 8 (to_u64 m.venue_time_ns) ++ capture in
    let t = type_number m.type in
    ap (with_type m.symbol)
      (read_number-front 4 t (to_bytes 4 m.checksum ++ venue) rest (type_number_small m.type))
    ∙ ap (with_checksum m.symbol t) (read_number-front 4 m.checksum venue rest h.checksum_small)
    ∙ ap (with_venue m.symbol t m.checksum)
        (read_i64-front m.venue_time_ns capture rest h.venue_time)
    ∙ ap (with_capture m.symbol t m.checksum m.venue_time_ns)
        (read_i64-front m.capture_time_ns sides rest h.capture_time)
    ∙ ap (with_buys m.symbol t m.checksum m.venue_time_ns m.capture_time_ns) (
        ap read_side (append_assoc (side_bytes m.buys) last rest)
        ∙ read_side-side_bytes m.buys (last ++ rest) h.buys h.buys_small)
    ∙ ap (with_sells m.symbol t m.checksum m.venue_time_ns m.capture_time_ns m.buys)
        (read_side-side_bytes m.sells rest h.sells h.sells_small)
    ∙ ap (λ k. (record m { type = k }, rest)) (type_numbered_lem m.type)
