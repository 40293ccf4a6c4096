-- ===== src/Kraken/Adapter.antt =====
-- data_feed/kraken/adapter.h and adapter.cc: what the manager asks of Kraken without a round trip.
-- The credentials, the endpoints and the REST calls are not modelled.
pub mod Requests
use strategy_nodes.Common.{ℕ, some, [], List, ◌++◌, Text, codes, Result, ok, err, if◌then◌else◌}
use strategy_nodes.L2.Message.{BookSpec}
use strategy_nodes.Core.Format.{format_ℕ}
use strategy_nodes.Venue.Ids.{Error, failure, unknown_symbol}
use strategy_nodes.Venue.Manager.{Adapter, BookRequest, subscribe_request, unsubscribe_request}
use strategy_nodes.Venue.Symbols.{is_well_formed_symbol}
use strategy_nodes.Kraken.Checksum.{book_checksum}
use strategy_nodes.Kraken.MessageSize.{l2_depths}

abbrev pub punctuation : Text
punctuation = codes "/.-_"

unfoldable pub check_symbol : Text → Result Error (Unit {0})
check_symbol symbol =
    if is_well_formed_symbol symbol punctuation then ok tt else err (failure unknown_symbol)

unfoldable pub method_name : BookRequest → Text
method_name subscribe_request = codes "subscribe"
method_name unsubscribe_request = codes "unsubscribe"

-- A request up to the symbol, and after it.
unfoldable pub request_head : BookRequest → ℕ → Text
request_head request depth =
    codes "{\"method\":\""
    ++ (method_name request
        ++ (codes "\",\"params\":{\"channel\":\"book\",\"depth\":"
            ++ (format_ℕ depth ++ codes ",\"symbol\":[\"")))

abbrev pub request_tail : Text
request_tail = codes "\"]}}"

unfoldable pub make_book_request : BookRequest → BookSpec → Text
make_book_request request book = request_head request book.depth ++ (book.symbol ++ request_tail)

unfoldable pub connect_requests : List Text
connect_requests = []

abbrev pub adapter : Adapter
adapter = record {
  depths = l2_depths;
  book_checksum = some book_checksum;
  check_symbol = check_symbol;
}
