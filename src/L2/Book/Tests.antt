-- ===== src/L2/Book/Tests.antt =====
-- Runs of `l2::Book` on concrete messages, and its theorems at inputs that meet their hypotheses.
use strategy_nodes.Common.{◌≡◌, refl, none, some, ℤ, pos, List, [], ◌∷◌, take, arith, codes}
use strategy_nodes.SortedMap.{find, insert_or_assign, erase}
use strategy_nodes.SortedMap.Orders.{ℤ_less, ℤ_greater}
use strategy_nodes.L2.Message.{update, snapshot, MessageType, Level, Message, full_depth}
use strategy_nodes.L2.Book.{Book, make_book, apply, apply_all}
use strategy_nodes.L2.Book.Sides.{quoted}
use strategy_nodes.L2.Book.Laws.{
  IsBook, make_book-IsBook, apply-IsBook, apply_all-IsBook, find-apply, apply_truncated,
}

abbrev level : ℤ → ℤ → Level
level price quantity = record { price = price; quantity = quantity }

abbrev message : MessageType → List Level → List Level → Message
message type buys sells = record {
  type = type;
  checksum = 0;
  venue_time_ns = pos 0;
  capture_time_ns = pos 0;
  symbol = codes "BTC/USD";
  buys = buys;
  sells = sells;
}

abbrev first : Message
first =
    message snapshot (level (pos 100) (pos 1) ∷ level (pos 102) (pos 2) ∷ [])
      (level (pos 105) (pos 3) ∷ level (pos 104) (pos 4) ∷ level (pos 106) (pos 5) ∷ [])

abbrev second : Message
second =
    message update (level (pos 101) (pos 7) ∷ level (pos 102) (pos 0) ∷ [])
      (level (pos 103) (pos 8) ∷ [])

-- The best two levels of each side are left.
two_deep : apply_all (make_book 2) (first ∷ second ∷ []) ≡ record {
  depth = 2;
  bids = (pos 101, pos 7) ∷ (pos 100, pos 1) ∷ [];
  asks = (pos 103, pos 8) ∷ (pos 104, pos 4) ∷ [];
}
unfolding apply_all apply make_book erase insert_or_assign
two_deep = refl

apply_all-IsBook_example : IsBook (apply_all (make_book 2) (first ∷ second ∷ []))
apply_all-IsBook_example = apply_all-IsBook (make_book 2) (first ∷ second ∷ []) (make_book-IsBook 2)

abbrev full_book : Book
full_book = apply (make_book full_depth) first

find-apply_example :
    (find ℤ_greater (pos 101) (apply full_book second).bids ≡ some (pos 7))
    × (find ℤ_less (pos 101) (apply full_book second).asks ≡ none)
unfolding apply make_book quoted find erase insert_or_assign
find-apply_example =
    find-apply full_book second (pos 101) (apply-IsBook _ first (make_book-IsBook full_depth)) refl

apply_truncated_example :
    ((apply (make_book 2) first).bids ≡ take 2 full_book.bids)
    × ((apply (make_book 2) first).asks ≡ take 2 full_book.asks)
unfolding make_book
apply_truncated_example = apply_truncated (make_book 2) first (omega arith)
