-- ===== src/Coinbase/Products.antt =====
-- data_feed/coinbase/products.h and products.cc: what Coinbase's REST answers say of its products.
-- An answer's body is the JSON tree that rapidjson parses it to, if it parses. The HTTP calls are
-- the environment: an answer is its status and its body, or none where the call throws.
pub mod Listed
pub mod Tests
use strategy_nodes.Common.{
  ℕ, Bool, true, false, not, ◌||◌, Option, none, some, List, [], ◌∷◌, Text, codes, text_eq,
  is_empty, value_or, ◌==◌, Result, ok, err, if◌then◌else◌,
}
use strategy_nodes.SortedMap.Orders.{text_lt}
use strategy_nodes.L2.Message.{PairPrecision}
use strategy_nodes.Core.Decimal.{fraction_digits}
use strategy_nodes.Core.Json.{
  Json, boolean, FrameError, and_then, find_json_member, require_json_string, require_json_array,
  find_json_string, is_object,
}
use strategy_nodes.Venue.Manager.{Fetched, fetched, unlisted, unreachable}

-- Why a product cannot be streamed; the text is left out.
pub data Why : Type 0 where
  not_online disabled aliased : Why

-- `UnknownProductError`, and a `std::runtime_error` of the body or of its layout.
pub data ProductError : Type 0 where
  unknown_product : Why → ProductError
  no_json_object : ProductError
  layout : FrameError → ProductError

unfoldable pub from_layout : {A : Type 0} → Result FrameError A → Result ProductError A
from_layout (ok a) = ok a
from_layout (err e) = err (layout e)

unfoldable pub parse_object : Option Json → Result ProductError Json
parse_object none = err no_json_object
parse_object (some document) = if is_object document then ok document else err no_json_object

unfoldable pub is_true : Json → Bool
is_true (boolean b) = b
is_true j = false

unfoldable pub is_set : Json → Text → Bool
is_set product name = elim (find_json_member product name) [ none ↦ false | some v ↦ is_true v ]

-- The end of `WhyUnstreamable`: the alias.
unfoldable pub why_aliased : Json → Result FrameError (Option Why)
why_aliased product =
    and_then (find_json_string product (codes "alias"))
      (λ alias. ok (if is_empty (value_or alias []) then none else some aliased))

unfoldable pub why_unstreamable : Json → Result FrameError (Option Why)
why_unstreamable product = and_then (require_json_string product (codes "product_id")) (λ id.
    and_then (find_json_string product (codes "status")) (λ status.
      if not (text_eq (value_or status []) (codes "online"))
      then ok (some not_online)
      else if is_set product (codes "is_disabled") || is_set product (codes "trading_disabled")
      then ok (some disabled)
      else why_aliased product))

-- The price step, or what stands in for it.
unfoldable pub price_step : Json → Result FrameError Text
price_step product = and_then (find_json_string product (codes "price_increment")) (λ increment.
    if is_empty (value_or increment [])
    then require_json_string product (codes "quote_increment")
    else ok (value_or increment []))

unfoldable pub precision_of : Json → Result FrameError PairPrecision
precision_of product = and_then (price_step product) (λ step.
    and_then (require_json_string product (codes "base_increment")) (λ base.
      ok (record { price_decimals = fraction_digits step; qty_decimals = fraction_digits base })))

unfoldable pub parse_streamable : Json → Option Why → Result ProductError PairPrecision
parse_streamable product (some why) = err (unknown_product why)
parse_streamable product none = from_layout (precision_of product)

unfoldable pub parse_product_precision : Option Json → Result ProductError PairPrecision
parse_product_precision body =
    and_then (parse_object body)
      (λ product. and_then (from_layout (why_unstreamable product)) (parse_streamable product))

-- The id of a product of the list that can be streamed.
unfoldable pub id_unless : Json → Option Why → Result FrameError (Option Text)
id_unless product (some why) = ok none
id_unless product none =
    and_then (require_json_string product (codes "product_id")) (λ id. ok (some id))

unfoldable pub listed_id : Json → Result FrameError (Option Text)
listed_id product = and_then (why_unstreamable product) (id_unless product)

unfoldable pub prepend : Option Text → List Text → List Text
prepend none ids = ids
prepend (some id) ids = id ∷ ids

-- The products that pass the filter, one by one.
unfoldable pub listed_ids : List Json → Result FrameError (List Text)
listed_ids [] = ok []
listed_ids (product ∷ products) =
    and_then (listed_id product) (λ id. and_then (listed_ids products) (λ ids. ok (prepend id ids)))

-- `std::ranges::sort`.
unfoldable pub insert : Text → List Text → List Text
insert t [] = t ∷ []
insert t (u ∷ us) = let rest = insert t us in if text_lt u t then u ∷ rest else t ∷ u ∷ us

unfoldable pub sort : List Text → List Text
sort [] = []
sort (t ∷ ts) = insert t (sort ts)

unfoldable pub sorted_ids : Json → Result FrameError (List Text)
sorted_ids document =
    and_then (require_json_array document (codes "products"))
      (λ products. and_then (listed_ids products) (λ ids. ok (sort ids)))

unfoldable pub parse_tradable_products : Option Json → Result ProductError (List Text)
parse_tradable_products body =
    and_then (parse_object body) (λ document. from_layout (sorted_ids document))

-- What `CallVenue` sees of a call that throws.
unfoldable pub to_fetched : {A : Type 0} → Result ProductError A → Fetched A
to_fetched (ok a) = fetched a
to_fetched (err (unknown_product why)) = unlisted
to_fetched (err no_json_object) = unreachable
to_fetched (err (layout e)) = unreachable

pub record Response : Type 0 where
  pub status : ℕ
  pub body : Option Json

unfoldable pub fetch_product_precision : Option Response → Fetched PairPrecision
fetch_product_precision none = unreachable
fetch_product_precision (some response) =
    if response.status == 404 || response.status == 400
    then unlisted
    else if response.status == 200
    then to_fetched (parse_product_precision response.body)
    else unreachable

unfoldable pub fetch_tradable_products : Option Response → Fetched (List Text)
fetch_tradable_products none = unreachable
fetch_tradable_products (some response) =
    if response.status == 200
    then to_fetched (parse_tradable_products response.body)
    else unreachable
