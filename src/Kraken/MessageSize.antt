-- ===== src/Kraken/MessageSize.antt =====
-- data_feed/kraken/message_size.h and message_size.cc: how long a snapshot frame can be.
pub mod Bound
use strategy_nodes.Common.{
  ℕ, ◌+◌, ◌*◌, List, [], ◌∷◌, Text, codes, length, Result, ok, err, any_of, ◌==◌, if◌then◌else◌,
}

abbrev pub l2_depths : List ℕ
l2_depths = 10 ∷ 25 ∷ 100 ∷ 500 ∷ 1000 ∷ []

abbrev pub snapshot_head : Text
snapshot_head = codes "{\"channel\":\"book\",\"type\":\"snapshot\",\"data\":[{\"symbol\":\""

abbrev pub snapshot_bids : Text
snapshot_bids = codes "\",\"bids\":["

abbrev pub snapshot_asks : Text
snapshot_asks = codes "],\"asks\":["

abbrev pub snapshot_checksum : Text
snapshot_checksum = codes "],\"checksum\":"

abbrev pub snapshot_timestamp : Text
snapshot_timestamp = codes ",\"timestamp\":\""

abbrev pub snapshot_tail : Text
snapshot_tail = codes "\"}]}"

abbrev pub level_price : Text
level_price = codes "{\"price\":"

abbrev pub level_qty : Text
level_qty = codes ",\"qty\":"

abbrev pub level_tail : Text
level_tail = codes "}"

abbrev pub max_number_length : ℕ
max_number_length = 24

abbrev pub max_checksum_length : ℕ
max_checksum_length = 10

abbrev pub timestamp_length : ℕ
timestamp_length = 27

-- One level and the comma after it.
unfoldable pub max_level_length : ℕ
max_level_length =
    length level_price
    + max_number_length
    + length level_qty
    + max_number_length
    + length level_tail
    + 1

-- The template `MaxL2SnapshotLength<Depth>`, without the symbol.
unfoldable pub max_snapshot_length_at : ℕ → ℕ
max_snapshot_length_at depth =
    length snapshot_head
    + length snapshot_bids
    + length snapshot_asks
    + 2 * depth * max_level_length
    + length snapshot_checksum
    + max_checksum_length
    + length snapshot_timestamp
    + timestamp_length
    + length snapshot_tail

-- `std::invalid_argument`.
pub data DepthError : Type 0 where
  unsupported_depth : DepthError

unfoldable pub max_l2_snapshot_length : ℕ → ℕ → Result DepthError ℕ
max_l2_snapshot_length depth symbol_length =
    if any_of (λ d. d == depth) l2_depths
    then ok (max_snapshot_length_at depth + symbol_length)
    else err unsupported_depth
