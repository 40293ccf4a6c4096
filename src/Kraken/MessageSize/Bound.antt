-- ===== src/Kraken/MessageSize/Bound.antt =====
-- data_feed/kraken/message_size.cc: no snapshot frame is longer than the bound.
use strategy_nodes.Common.{
  ℕ, suc, ◌+◌, ◌*◌, ◌≤◌, ◌≡◌, refl, List, [], ◌∷◌, ◌++◌, Text, length, length-append, All, any_of,
  ◌==◌, ok, arith, Bool, true, false, Option, codes, if◌then◌else◌,
}
use strategy_nodes.Core.Decimal.Texts.{stop_text}
use strategy_nodes.Kraken.MessageSize.{
  l2_depths, max_level_length, max_snapshot_length_at, max_l2_snapshot_length,
}

-- A number of a frame: a sign, digits with or without a stop, and perhaps an exponent.
pub data Number : Type 0 where
  plain : Bool → Text → Option Text → Number
  scientific : Bool → Text → Option Text → Bool → Text → Number

abbrev pub sign_text : Bool → Text
sign_text negative = if negative then codes "-" else []

abbrev pub exponent_sign : Bool → Text
exponent_sign negative = if negative then codes "e-" else codes "e+"

abbrev pub number_text : Number → Text
number_text (plain negative whole fraction) = sign_text negative ++ (whole ++ stop_text fraction)
number_text (scientific negative whole fraction small exponent) =
    sign_text negative ++ (whole ++ (stop_text fraction ++ (exponent_sign small ++ exponent)))

-- A double as its shortest text that reads back as itself: 17 digits, with a stop and up to four
-- zeros besides, or with a stop and an exponent of three digits.
abbrev pub IsNumber : Number → Type 0
IsNumber (plain negative whole fraction) = length whole + length (stop_text fraction) ≤ 22
IsNumber (scientific negative whole fraction small exponent) =
    (length whole + length (stop_text fraction) ≤ 18) × (length exponent ≤ 3)

-- A level as it is written: its price and its quantity.
abbrev pub WrittenLevel : Type 0
WrittenLevel = Number × Number

abbrev pub level_text : WrittenLevel → Text
level_text (price, qty) =
    codes "{\"price\":"
    ++ (number_text price ++ (codes ",\"qty\":" ++ (number_text qty ++ codes "}")))

-- The levels of a side, with commas between them.
abbrev pub levels_text : List WrittenLevel → Text
levels_text [] = []
levels_text (l ∷ []) = level_text l
levels_text (l ∷ m ∷ ls) = level_text l ++ b',' ∷ levels_text (m ∷ ls)

pub record Snapshot : Type 0 where
  pub symbol : Text
  pub bids : List WrittenLevel
  pub asks : List WrittenLevel
  pub checksum : Text
  pub timestamp : Text

-- The pieces of the frame around what varies.
abbrev frame_head : Text
frame_head = codes "{\"channel\":\"book\",\"type\":\"snapshot\",\"data\":[{\"symbol\":\""

abbrev frame_bids : Text
frame_bids = codes "\",\"bids\":["

abbrev frame_asks : Text
frame_asks = codes "],\"asks\":["

abbrev frame_checksum : Text
frame_checksum = codes "],\"checksum\":"

abbrev frame_timestamp : Text
frame_timestamp = codes ",\"timestamp\":\""

abbrev frame_tail : Text
frame_tail = codes "\"}]}"

abbrev pub snapshot_text : Snapshot → Text
snapshot_text s =
    frame_head
    ++ (s.symbol
        ++ (frame_bids
            ++ (levels_text s.bids
                ++ (frame_asks
                    ++ (levels_text s.asks
                        ++ (frame_checksum
                            ++ (s.checksum
                                ++ (frame_timestamp ++ (s.timestamp ++ frame_tail)))))))))

abbrev pub IsWrittenLevel : WrittenLevel → Type 0
IsWrittenLevel (price, qty) = IsNumber price × IsNumber qty

-- A snapshot at a depth: its checksum is a `u32`, and its time has microseconds.
pub record IsSnapshot (depth : ℕ) (s : Snapshot) : Type 0 where
  pub bids_few : length s.bids ≤ depth
  pub asks_few : length s.asks ≤ depth
  pub bids_written : All IsWrittenLevel s.bids
  pub asks_written : All IsWrittenLevel s.asks
  pub checksum_short : length s.checksum ≤ 10
  pub timestamp_short : length s.timestamp ≤ 27

length-sign_text : (negative : Bool) → length (sign_text negative) ≤ 1
length-sign_text true = omega arith
length-sign_text false = omega arith

length-exponent_sign : (small : Bool) → length (exponent_sign small) ≡ 2
length-exponent_sign true = refl
length-exponent_sign false = refl

length-number_text : (n : Number) → IsNumber n → length (number_text n) ≤ 24
length-number_text (plain negative whole fraction) h = omega (
  arith,
  length-sign_text negative,
  length-append (sign_text negative) (whole ++ stop_text fraction),
  length-append whole (stop_text fraction),
)
length-number_text (scientific negative whole fraction small exponent) (h, k) =
    let t2 = exponent_sign small ++ exponent in
    let t1 = stop_text fraction ++ t2 in
    omega (
      arith,
      length-sign_text negative,
      length-exponent_sign small,
      length-append (sign_text negative) (whole ++ t1),
      length-append whole t1,
      length-append (stop_text fraction) t2,
      length-append (exponent_sign small) exponent,
    )

length-level_text :
    (l : WrittenLevel) → IsWrittenLevel l → suc (length (level_text l)) ≤ max_level_length
unfolding max_level_length
length-level_text (price, qty) (hp, hq) =
    let p = number_text price in
    let q = number_text qty in
    omega (
      arith,
      length-number_text price hp,
      length-number_text qty hq,
      length-append p (codes ",\"qty\":" ++ (q ++ codes "}")),
      length-append q (codes "}"),
    )

length-levels_text :
    (ls : List WrittenLevel)
    → All IsWrittenLevel ls
    → length (levels_text ls) ≤ length ls * max_level_length
length-levels_text [] h = omega arith
length-levels_text (l ∷ []) (hl, h) = omega (arith, length-level_text l hl)
length-levels_text (l ∷ m ∷ ls) (hl, h) = omega (
  arith,
  length-level_text l hl,
  length-append (level_text l) (b',' ∷ levels_text (m ∷ ls)),
  length-levels_text (m ∷ ls) h,
)

times_level : (n depth : ℕ) → n ≤ depth → n * max_level_length ≤ depth * max_level_length
unfolding max_level_length
times_level n depth h = omega arith

length-snapshot_text :
    (depth : ℕ) (s : Snapshot)
    → IsSnapshot depth s
    → length (snapshot_text s) ≤ max_snapshot_length_at depth + length s.symbol
unfolding max_snapshot_length_at
length-snapshot_text depth s h =
    let t9 = s.timestamp ++ frame_tail in
    let t8 = frame_timestamp ++ t9 in
    let t7 = s.checksum ++ t8 in
    let t6 = frame_checksum ++ t7 in
    let t5 = levels_text s.asks ++ t6 in
    let t4 = frame_asks ++ t5 in
    let t3 = levels_text s.bids ++ t4 in
    let t2 = frame_bids ++ t3 in
    omega (
      arith,
      length-append frame_head (s.symbol ++ t2),
      length-append s.symbol t2,
      length-append frame_bids t3,
      length-append (levels_text s.bids) t4,
      length-append frame_asks t5,
      length-append (levels_text s.asks) t6,
      length-append frame_checksum t7,
      length-append s.checksum t8,
      length-append frame_timestamp t9,
      length-append s.timestamp frame_tail,
      length-levels_text s.bids h.bids_written,
      length-levels_text s.asks h.asks_written,
      times_level (length s.bids) depth h.bids_few,
      times_level (length s.asks) depth h.asks_few,
      h.checksum_short,
      h.timestamp_short,
    )

-- At every depth that Kraken streams there is a bound, and no snapshot frame as Kraken writes it,
-- of that many levels a side at most, whose numbers are shortest texts of doubles, whose checksum
-- has 10 digits at most and whose time 27 characters, is longer.
pub snapshot_fits :
    (depth : ℕ) (s : Snapshot)
    → any_of (λ d. d == depth) l2_depths ≡ true
    → IsSnapshot depth s
    → (bound : ℕ) × (max_l2_snapshot_length depth (length s.symbol) ≡ ok bound
        × length (snapshot_text s) ≤ bound)
unfolding max_l2_snapshot_length
snapshot_fits depth s accepted h = (
  max_snapshot_length_at depth + length s.symbol,
  (rw (accepted) refl, length-snapshot_text depth s h),
)
