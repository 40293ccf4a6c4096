-- ===== src/Coinbase/Adapter.antt =====
-- data_feed/coinbase/adapter.h and adapter.cc: what the manager asks of Coinbase without a round
-- trip. The endpoints and the REST calls are not modelled.
pub mod Requests
use strategy_nodes.Common.{
  ℕ, none, [], List, ◌∷◌, ◌++◌, ◌&&◌, not, Text, codes, any_of, Result, ok, err, if◌then◌else◌,
}
use strategy_nodes.L2.Message.{BookSpec, full_depth}
use strategy_nodes.Venue.Ids.{Error, failure, unknown_symbol}
use strategy_nodes.Venue.Manager.{Adapter, BookRequest, subscribe_request, unsubscribe_request}
use strategy_nodes.Venue.Symbols.{is_lower, is_well_formed_symbol}

abbrev pub depths : List ℕ
depths = full_depth ∷ []

abbrev pub punctuation : Text
punctuation = codes "-"

-- A product's letters are capital.
unfoldable pub check_symbol : Text → Result Error (Unit {0})
check_symbol symbol =
    if is_well_formed_symbol symbol punctuation && not (any_of is_lower symbol)
    then ok tt
    else err (failure unknown_symbol)

unfoldable pub connect_requests : List Text
connect_requests = codes "{\"type\":\"subscribe\",\"channel\":\"heartbeats\"}" ∷ []

unfoldable pub request_type : BookRequest → Text
request_type subscribe_request = codes "subscribe"
request_type unsubscribe_request = codes "unsubscribe"

-- A request up to the symbol, and after it.
unfoldable pub request_head : BookRequest → Text
request_head request =
    codes "{\"type\":\""
    ++ (request_type request ++ codes "\",\"channel\":\"level2\",\"product_ids\":[\"")

abbrev pub request_tail : Text
request_tail = codes "\"]}"

unfoldable pub make_book_request : BookRequest → BookSpec → Text
make_book_request request book = request_head request ++ (book.symbol ++ request_tail)

abbrev pub adapter : Adapter
adapter = record { depths = depths; book_checksum = none; check_symbol = check_symbol }
