-- ===== src/Coinbase/Products/Tests.antt =====
-- data_feed/coinbase/products.cc: answers that list three products, two of which can be streamed.
use strategy_nodes.Common.{◌≡◌, refl, ◌↔◌, some, List, [], ◌∷◌, Text, codes, text_eq}
use strategy_nodes.SortedMap.Orders.{text_lt}
use strategy_nodes.Venue.Manager.{fetched, unlisted}
use strategy_nodes.Core.Chars.{find_char, last_before, find_last_not_of}
use strategy_nodes.Core.Decimal.{position_or_npos, fraction_digits}
use strategy_nodes.Core.Json.{
  Json, string, array, object, member, no_members, element, no_elements, and_then, find_member,
  find_json_member, require_json_member, is_string, is_array, is_object, get_string, get_array,
  elements, require_json_string, require_json_array, find_json_string, string_or_throw,
}
use strategy_nodes.Coinbase.Products.{
  parse_tradable_products, fetch_product_precision, from_layout, parse_object, is_true, is_set,
  why_aliased, why_unstreamable, price_step, precision_of, parse_streamable,
  parse_product_precision, id_unless, listed_id, prepend, listed_ids, insert, sort, sorted_ids,
  to_fetched,
}
use strategy_nodes.Coinbase.Products.Listed.{Any, IsAscending, Streams, tradable_listed}

abbrev online : Text → Text → Json
online id alias = object (
    member (codes "product_id") (string id) (
      member (codes "status") (string (codes "online"))
        (member (codes "alias") (string alias) no_members)))

abbrev products : List Json
products =
    online (codes "ETH-USD") []
    ∷ online (codes "BTC-USDC") (codes "BTC-USD")
    ∷ online (codes "BTC-USD") []
    ∷ []

abbrev document : Json
document = object (
    member (codes "products")
      (array (
        element (online (codes "ETH-USD") []) (
          element (online (codes "BTC-USDC") (codes "BTC-USD"))
            (element (online (codes "BTC-USD") []) no_elements))))
      no_members)

abbrev ids : List Text
ids = codes "BTC-USD" ∷ codes "ETH-USD" ∷ []

tradable_listed_example :
    IsAscending ids
    × ((id : Text) → Any (λ t. t ≡ id) ids ↔ Any (λ product. Streams product id) products)
unfolding find_member find_json_member require_json_member is_array get_array elements and_then
    require_json_array text_eq is_string get_string require_json_string find_json_string
    string_or_throw is_object parse_object is_true is_set why_aliased why_unstreamable id_unless
    listed_id prepend listed_ids insert sort sorted_ids text_lt from_layout parse_tradable_products
tradable_listed_example = tradable_listed document products ids refl refl

abbrev bitcoin : Json
bitcoin = object (
    member (codes "product_id") (string (codes "BTC-USD")) (
      member (codes "status") (string (codes "online")) (
        member (codes "quote_increment") (string (codes "0.01"))
          (member (codes "base_increment") (string (codes "0.00010000")) no_members))))

precision_fetched :
    fetch_product_precision (some (record { status = 200; body = some bitcoin }))
    ≡ fetched (record { price_decimals = 2; qty_decimals = 4 })
unfolding find_member find_json_member require_json_member is_array get_array elements and_then
    text_eq is_string get_string require_json_string find_json_string string_or_throw is_object
    parse_object is_true is_set why_aliased why_unstreamable from_layout price_step precision_of
    parse_streamable parse_product_precision to_fetched fetch_product_precision find_char
    last_before find_last_not_of position_or_npos fraction_digits
precision_fetched = refl

alias_unlisted :
    fetch_product_precision
      (some (record { status = 200; body = some (online (codes "BTC-USDC") (codes "BTC-USD")) }))
    ≡ unlisted
unfolding find_member find_json_member require_json_member is_array get_array elements and_then
    text_eq is_string get_string require_json_string find_json_string string_or_throw is_object
    parse_object is_true is_set why_aliased why_unstreamable from_layout parse_product_precision
    parse_streamable to_fetched fetch_product_precision
alias_unlisted = refl
