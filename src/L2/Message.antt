-- ===== src/L2/Message.antt =====
-- data_feed/l2/message.h, book_spec.h and pair_precision.h: the data that a book stream carries.
-- An `i64` is an integer; a `u32` or `u64` is a natural number, whose range is stated where it
-- matters.
use strategy_nodes.Common.{ℕ, ℤ, List, Text}

pub data MessageType : Type 0 where
  update snapshot : MessageType

-- Fixed-point, scaled by the pair's decimals.
pub record Level : Type 0 where
  pub price : ℤ
  pub quantity : ℤ

pub record Message : Type 0 where
  pub type : MessageType
  pub checksum : ℕ
  pub venue_time_ns : ℤ
  pub capture_time_ns : ℤ
  pub symbol : Text
  pub buys : List Level
  pub sells : List Level

-- The depth of a book without a limit.
abbrev pub full_depth : ℕ
full_depth = 0

pub record BookSpec : Type 0 where
  pub symbol : Text
  pub depth : ℕ

pub record PairPrecision : Type 0 where
  pub price_decimals : ℕ
  pub qty_decimals : ℕ
