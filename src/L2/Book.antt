-- ===== src/L2/Book.antt =====
-- data_feed/l2/book.h and book.cc: a pair's book as its messages leave it.
pub mod Sides
pub mod Laws
pub mod Tests
use strategy_nodes.Common.{ℕ, ℤ, List, [], ◌∷◌, take, length, is_zero, ltb, ◌==◌, if◌then◌else◌}
use strategy_nodes.SortedMap.{Comparator, SortedMap, insert_or_assign, erase}
use strategy_nodes.SortedMap.Orders.{ℤ_less, ℤ_greater}
use strategy_nodes.L2.Message.{MessageType, update, snapshot, Level, Message, full_depth}

-- Price to quantity, best price first: the highest bid, the lowest ask.
pub record Book : Type 0 where
  pub depth : ℕ
  pub bids : SortedMap ℤ ℤ
  pub asks : SortedMap ℤ ℤ

abbrev pub Side : Type 0
Side = SortedMap ℤ ℤ

unfoldable pub make_book : ℕ → Book
make_book depth = record { depth = depth; bids = []; asks = [] }

-- One round of the loop of `ApplyLevels`: a zero quantity removes the level.
unfoldable pub set_level : Comparator ℤ → Level → Side → Side
set_level o level side =
    if is_zero level.quantity
    then erase o level.price side
    else insert_or_assign o level.price level.quantity side

unfoldable pub set_levels : Comparator ℤ → List Level → Side → Side
unfolding set_level
set_levels o [] side = side
set_levels o (level ∷ levels) side = set_levels o levels (set_level o level side)

-- The end of `ApplyLevels`: what lies beyond the depth is dropped.
unfoldable pub truncate : ℕ → Side → Side
truncate depth side =
    if depth == full_depth then side else if ltb depth (length side) then take depth side else side

unfoldable pub apply_levels : Comparator ℤ → List Level → ℕ → Side → Side
unfolding set_levels truncate
apply_levels o levels depth side = truncate depth (set_levels o levels side)

unfoldable pub clear : Book → Book
clear b = record b { bids = []; asks = [] }

unfoldable pub clear_on : MessageType → Book → Book
unfolding clear
clear_on snapshot b = clear b
clear_on update b = b

unfoldable pub apply : Book → Message → Book
unfolding clear_on apply_levels
apply b m =
    let cleared = clear_on m.type b in
    record cleared {
      bids = apply_levels ℤ_greater m.buys cleared.depth cleared.bids;
      asks = apply_levels ℤ_less m.sells cleared.depth cleared.asks;
    }

-- A stream of messages, one after the other.
unfoldable pub apply_all : Book → List Message → Book
apply_all b [] = b
apply_all b (m ∷ ms) = apply_all (apply b m) ms
