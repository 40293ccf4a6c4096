-- ===== src/Coinbase/Levels/Updates.antt =====
-- data_feed/coinbase/l2_decoder.cc: the updates of an event, given as decimals, are decoded to
-- their exact levels, each on its side and in order.
use strategy_nodes.Common.{
  Option, none, some, value_or, ℕ, ◌≡◌, refl, sym, ap, ◌∙◌, pos, false, List, [], ◌∷◌, ◌++◌,
  append_assoc, append-nil, Text, codes, text_eq, All, le→ltb, ok, arith,
}
use strategy_nodes.L2.Message.{Level, PairPrecision}
use strategy_nodes.Core.Chars.{is_digit}
use strategy_nodes.Core.Chars.Laws.{AreDigits, trimmed}
use strategy_nodes.Core.Decimal.Texts.{
  Decimal, stop_text, decimal_text, value_at, Fits, scaled_value, fraction_digits-decimal_text,
}
use strategy_nodes.Core.Json.{
  Json, string, array, object, member, no_members, Elements, no_elements, element, elements,
  find_member, find_json_member, require_json_member, is_string, is_array, get_string, get_array,
  and_then, require_json_string, require_json_array,
}
use strategy_nodes.Coinbase.Levels.{
  starts_with_minus, scaled, require_scaled, Sides, Side, bid, offer, side_of, push_back,
  decode_update, decode_updates, no_levels, event_levels,
}

not_minus :
    (ip : Text) (fraction : Option Text)
    → AreDigits ip
    → starts_with_minus (ip ++ stop_text fraction) ≡ false
unfolding starts_with_minus is_digit
not_minus [] none h = refl
not_minus [] (some fp) h = refl
not_minus (c ∷ cs) fraction (hc, h) = ground arith

scaled_exact :
    (name : Text) (n : ℕ) (d : Decimal)
    → Fits n d
    → scaled name (decimal_text d) n ≡ ok (pos (value_at n d))
unfolding scaled
scaled_exact name n d h =
    rw
      (
        not_minus d.whole d.fraction h.decimal.whole_digits,
        fraction_digits-decimal_text n d h,
        le→ltb n (trimmed (value_or d.fraction [])) h.fine,
        scaled_value n d h.decimal,
      )
      refl

-- A change of one level as the venue writes it, with the time of the change.
pub record Update : Type 0 where
  pub side : Side
  pub event_time : Text
  pub price : Decimal
  pub quantity : Decimal

abbrev pub side_name : Side → Text
side_name bid = codes "bid"
side_name offer = codes "offer"

abbrev pub update_json : Update → Json
update_json u = object (
    member (codes "side") (string (side_name u.side)) (
      member (codes "event_time") (string u.event_time) (
        member (codes "price_level") (string (decimal_text u.price))
          (member (codes "new_quantity") (string (decimal_text u.quantity)) no_members))))

abbrev pub updates_json : List Update → Elements
updates_json [] = no_elements
updates_json (u ∷ us) = element (update_json u) (updates_json us)

abbrev pub level_of : PairPrecision → Update → Level
level_of p u = record {
  price = pos (value_at p.price_decimals u.price);
  quantity = pos (value_at p.qty_decimals u.quantity);
}

-- The levels of the updates of a side, in their order.
abbrev pub bids_of : PairPrecision → List Update → List Level
bids_of p [] = []
bids_of p (u ∷ us) = elim u.side [ bid ↦ level_of p u ∷ bids_of p us | offer ↦ bids_of p us ]

abbrev pub offers_of : PairPrecision → List Update → List Level
offers_of p [] = []
offers_of p (u ∷ us) = elim u.side [ bid ↦ offers_of p us | offer ↦ level_of p u ∷ offers_of p us ]

abbrev pub UpdateFits : PairPrecision → Update → Type 0
UpdateFits p u = Fits p.price_decimals u.price × Fits p.qty_decimals u.quantity

side_of_name : (s : Side) → side_of (side_name s) ≡ ok s
unfolding side_of text_eq
side_of_name bid = refl
side_of_name offer = refl

decode_update_exact :
    (p : PairPrecision) (sides : Sides) (u : Update)
    → UpdateFits p u
    → decode_update p sides (update_json u) ≡ ok (push_back sides u.side (level_of p u))
unfolding decode_update require_scaled require_json_string require_json_member find_json_member
    find_member text_eq is_string get_string and_then
decode_update_exact p sides u (hp, hq) =
    rw
      (
        side_of_name u.side,
        scaled_exact (codes "price_level") p.price_decimals u.price hp,
        scaled_exact (codes "new_quantity") p.qty_decimals u.quantity hq,
      )
      refl

abbrev joined : PairPrecision → Sides → List Update → Sides
joined p sides us = record {
  buys = sides.buys ++ bids_of p us;
  sells = sides.sells ++ offers_of p us;
}

-- A level pushed before the others are decoded is the first of its side's.
joined-push :
    (p : PairPrecision) (sides : Sides) (s : Side) (time : Text) (price quantity : Decimal)
    (us : List Update)
    → (let u : Update = record {
      side = s;
      event_time = time;
      price = price;
      quantity = quantity;
    } in
        joined p (push_back sides s (level_of p u)) us ≡ joined p sides (u ∷ us))
unfolding push_back
joined-push p sides bid time price quantity us =
    let u : Update = record { side = bid; event_time = time; price = price; quantity = quantity } in
    let e = append_assoc sides.buys (level_of p u ∷ []) (bids_of p us) in
    λ i. record { buys = e i; sells = sides.sells ++ offers_of p us }
joined-push p sides offer time price quantity us =
    let u : Update = record {
      side = offer;
      event_time = time;
      price = price;
      quantity = quantity;
    } in
    let e = append_assoc sides.sells (level_of p u ∷ []) (offers_of p us) in
    λ i. record { buys = sides.buys ++ bids_of p us; sells = e i }

pub decode_updates_exact :
    (p : PairPrecision) (sides : Sides) (us : List Update)
    → All (UpdateFits p) us
    → decode_updates p sides (elements (updates_json us)) ≡ ok (joined p sides us)
unfolding decode_updates elements and_then
decode_updates_exact p sides [] h =
    let b = sym (append-nil sides.buys) in
    let s = sym (append-nil sides.sells) in λ i. ok (record { buys = b i; sells = s i })
decode_updates_exact p sides (u ∷ us) (hu, h) = rw (decode_update_exact p sides u hu) (
    decode_updates_exact p (push_back sides u.side (level_of p u)) us h
    ∙ ap ok (joined-push p sides u.side u.event_time u.price u.quantity us))

-- An event whose updates are decimals no finer than the product's precision, in any number and on
-- any sides, decodes to exactly their levels: those of each side in the order of the updates.
pub event_levels_exact :
    (p : PairPrecision) (us : List Update)
    → All (UpdateFits p) us
    → event_levels (object (member (codes "updates") (array (updates_json us)) no_members)) p
      ≡ ok (record { buys = bids_of p us; sells = offers_of p us })
unfolding event_levels require_json_array require_json_member find_json_member find_member text_eq
    is_array get_array and_then
event_levels_exact p us h = decode_updates_exact p no_levels us h
