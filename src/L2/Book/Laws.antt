-- ===== src/L2/Book/Laws.antt =====
-- What `Book::Apply` keeps and what it does, for both sides and both kinds of message.
use strategy_nodes.Common.{
  ℕ, ◌≡◌, ◌≢◌, refl, sym, ◌∙◌, ap, Option, none, ℤ, List, [], ◌∷◌, take, arith, take_all,
}
use strategy_nodes.SortedMap.{Comparator, find}
use strategy_nodes.SortedMap.Orders.{ℤ_less, ℤ_greater}
use strategy_nodes.L2.Message.{MessageType, update, snapshot, Level, Message, full_depth}
use strategy_nodes.L2.Book.{
  Book, Side, make_book, set_levels, truncate, apply_levels, clear, clear_on, apply, apply_all,
}
use strategy_nodes.L2.Book.Sides.{
  IsSide, quoted, levels_of, apply_levels-IsSide, find-set_levels, apply_levels-levels_of,
}

-- Both sides in price order, with no level of quantity zero, and within the depth.
pub record IsBook (b : Book) : Type 0 where
  pub bids : IsSide ℤ_greater b.depth b.bids
  pub asks : IsSide ℤ_less b.depth b.asks

pub make_book-IsBook : (depth : ℕ) → IsBook (make_book depth)
unfolding make_book
make_book-IsBook depth = record {
  bids = record { sorted = tt; nonzero = tt; fits = omega arith };
  asks = record { sorted = tt; nonzero = tt; fits = omega arith };
}

pub clear-IsBook : (b : Book) → IsBook (clear b)
unfolding clear
clear-IsBook b = record {
  bids = record { sorted = tt; nonzero = tt; fits = omega arith };
  asks = record { sorted = tt; nonzero = tt; fits = omega arith };
}

clear_on-IsBook : (t : MessageType) (b : Book) → IsBook b → IsBook (clear_on t b)
unfolding clear_on
clear_on-IsBook snapshot b v = clear-IsBook b
clear_on-IsBook update b v = v

pub depth-clear_on : (t : MessageType) (b : Book) → (clear_on t b).depth ≡ b.depth
unfolding clear_on
depth-clear_on snapshot b = refl
depth-clear_on update b = refl

-- A message keeps the depth of the book.
pub depth-apply : (b : Book) (m : Message) → (apply b m).depth ≡ b.depth
unfolding apply
depth-apply b m = depth-clear_on m.type b

pub apply-IsBook : (b : Book) (m : Message) → IsBook b → IsBook (apply b m)
unfolding apply
apply-IsBook b m v =
    let w = clear_on-IsBook m.type b v in
    record {
      bids = apply_levels-IsSide ℤ_greater m.buys _ _ w.bids;
      asks = apply_levels-IsSide ℤ_less m.sells _ _ w.asks;
    }

-- After any messages, from an empty book of any depth, both sides are in strict price order, best
-- first, hold no level of quantity zero, and are within the depth if there is one.
pub apply_all-IsBook : (b : Book) (ms : List Message) → IsBook b → IsBook (apply_all b ms)
unfolding apply_all
apply_all-IsBook b [] v = v
apply_all-IsBook b (m ∷ ms) v = apply_all-IsBook (apply b m) ms (apply-IsBook b m v)

-- What a price holds before the levels of a message are set.
abbrev pub kept : MessageType → Option ℤ → Option ℤ
kept snapshot held = none
kept update held = held

find-clear_on_bids :
    (t : MessageType) (b : Book) (p : ℤ)
    → find ℤ_greater p (clear_on t b).bids ≡ kept t (find ℤ_greater p b.bids)
unfolding clear_on clear find
find-clear_on_bids snapshot b p = refl
find-clear_on_bids update b p = refl

find-clear_on_asks :
    (t : MessageType) (b : Book) (p : ℤ)
    → find ℤ_less p (clear_on t b).asks ≡ kept t (find ℤ_less p b.asks)
unfolding clear_on clear find
find-clear_on_asks snapshot b p = refl
find-clear_on_asks update b p = refl

clear_on_bids_any_depth :
    (t : MessageType) (b : Book) (d : ℕ)
    → (clear_on t b).bids ≡ (clear_on t (record b { depth = d })).bids
unfolding clear_on clear
clear_on_bids_any_depth snapshot b d = refl
clear_on_bids_any_depth update b d = refl

clear_on_asks_any_depth :
    (t : MessageType) (b : Book) (d : ℕ)
    → (clear_on t b).asks ≡ (clear_on t (record b { depth = d })).asks
unfolding clear_on clear
clear_on_asks_any_depth snapshot b d = refl
clear_on_asks_any_depth update b d = refl

module _ (o : Comparator ℤ) (ls : List Level) (side : Side) where
  apply_levels_full : (d : ℕ) → d ≡ full_depth → apply_levels o ls d side ≡ set_levels o ls side
  unfolding apply_levels truncate
  apply_levels_full d full = ground arith

  apply_levels_limited :
      (d e : ℕ) → d ≡ e → e ≢ full_depth → apply_levels o ls d side ≡ take e (set_levels o ls side)
  unfolding apply_levels truncate
  apply_levels_limited d e same_depth limited =
      rw same_depth (ground (arith, take_all e (set_levels o ls side)))

-- At full depth, after a message each price holds the quantity of the message's last level of that
-- price on that side, nothing if that quantity is zero; a price with no level in the message holds
-- what it held before an update, and nothing after a snapshot.
pub find-apply :
    (b : Book) (m : Message) (price : ℤ)
    → IsBook b
    → b.depth ≡ full_depth
    → (find ℤ_greater price (apply b m).bids
        ≡ quoted ℤ_greater m.buys price (kept m.type (find ℤ_greater price b.bids)))
      × (find ℤ_less price (apply b m).asks
          ≡ quoted ℤ_less m.sells price (kept m.type (find ℤ_less price b.asks)))
unfolding apply
find-apply b m price v full =
    let w = clear_on-IsBook m.type b v in
    let d = depth-clear_on m.type b ∙ full in
    (
      ap (find ℤ_greater price) (apply_levels_full ℤ_greater m.buys _ _ d)
          ∙ find-set_levels ℤ_greater m.buys _ price w.bids.sorted
          ∙ ap (quoted ℤ_greater m.buys price) (find-clear_on_bids m.type b price),
      ap (find ℤ_less price) (apply_levels_full ℤ_less m.sells _ _ d)
          ∙ find-set_levels ℤ_less m.sells _ price w.asks.sorted
          ∙ ap (quoted ℤ_less m.sells price) (find-clear_on_asks m.type b price),
    )

-- At any other depth, a message leaves the best `depth` levels of each side of what it would leave
-- at full depth.
pub apply_truncated :
    (b : Book) (m : Message)
    → b.depth ≢ full_depth
    → ((apply b m).bids ≡ take b.depth (apply (record b { depth = full_depth }) m).bids)
      × ((apply b m).asks ≡ take b.depth (apply (record b { depth = full_depth }) m).asks)
unfolding apply
apply_truncated b m limited =
    let d = depth-clear_on m.type b in
    let z = depth-clear_on m.type (record b { depth = full_depth }) in
    (
      apply_levels_limited ℤ_greater m.buys _ _ _ d limited
          ∙ ap (λ s. take b.depth (set_levels ℤ_greater m.buys s))
              (clear_on_bids_any_depth m.type b full_depth)
          ∙ ap (take b.depth) (sym (apply_levels_full ℤ_greater m.buys _ _ z)),
      apply_levels_limited ℤ_less m.sells _ _ _ d limited
          ∙ ap (λ s. take b.depth (set_levels ℤ_less m.sells s))
              (clear_on_asks_any_depth m.type b full_depth)
          ∙ ap (take b.depth) (sym (apply_levels_full ℤ_less m.sells _ _ z)),
    )

-- A snapshot that lists the levels of a book turns any book of that depth into it.
pub apply-levels_of :
    (b c : Book) (m : Message)
    → IsBook b
    → c.depth ≡ b.depth
    → m.type ≡ snapshot
    → m.buys ≡ levels_of b.bids
    → m.sells ≡ levels_of b.asks
    → apply c m ≡ b
unfolding apply clear
apply-levels_of b c m v d t e f = λ i. record { depth = depth i; bids = bids i; asks = asks i }
  where
    cleared : clear_on m.type c ≡ clear c
    cleared = ap (λ u. clear_on u c) t

    depth : (clear_on m.type c).depth ≡ b.depth
    depth = depth-clear_on m.type c ∙ d

    bids : apply_levels ℤ_greater m.buys (clear_on m.type c).depth (clear_on m.type c).bids ≡ b.bids
    bids = rw (depth, ap (λ x. x.bids) cleared, e) (apply_levels-levels_of ℤ_greater _ _ v.bids)

    asks : apply_levels ℤ_less m.sells (clear_on m.type c).depth (clear_on m.type c).asks ≡ b.asks
    asks = rw (depth, ap (λ x. x.asks) cleared, f) (apply_levels-levels_of ℤ_less _ _ v.asks)

clear-eq : (b c : Book) → b.depth ≡ c.depth → clear b ≡ clear c
unfolding clear
clear-eq b c d = λ i. record { depth = d i; bids = []; asks = [] }

clear_on_snapshot-eq :
    (b c : Book) (t : MessageType) → t ≡ snapshot → b.depth ≡ c.depth → clear_on t b ≡ clear_on t c
unfolding clear_on
clear_on_snapshot-eq b c snapshot t d = clear-eq b c d
clear_on_snapshot-eq b c update t d = cc

-- A snapshot leaves nothing of the book before it but the depth.
pub apply_forgets :
    (b c : Book) (m : Message) → m.type ≡ snapshot → b.depth ≡ c.depth → apply b m ≡ apply c m
unfolding apply
apply_forgets b c m t d =
    let p = clear_on_snapshot-eq b c m.type t d in
    λ i. record {
      depth = (p i).depth;
      bids = apply_levels ℤ_greater m.buys (p i).depth (p i).bids;
      asks = apply_levels ℤ_less m.sells (p i).depth (p i).asks;
    }

-- Only the kind of a message and its levels touch the book.
pub apply_levels_only :
    (b : Book) (m n : Message)
    → m.type ≡ n.type
    → m.buys ≡ n.buys
    → m.sells ≡ n.sells
    → apply b m ≡ apply b n
unfolding apply
apply_levels_only b m n t e f = λ i. record {
  depth = (clear_on (t i) b).depth;
  bids = apply_levels ℤ_greater (e i) (clear_on (t i) b).depth (clear_on (t i) b).bids;
  asks = apply_levels ℤ_less (f i) (clear_on (t i) b).depth (clear_on (t i) b).asks;
}
