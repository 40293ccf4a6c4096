-- ===== src/Coinbase/Adapter/Requests.antt =====
-- data_feed/coinbase/adapter.cc: a request names the symbol and nothing of it is anything else.
use strategy_nodes.Common.{
  ◌≡◌, refl, ap, ◌∙◌, true, ◌&&◌, not, some, ◌++◌, Text, codes, drop, length, drop-append, any_of,
  arith, is_ok,
}
use strategy_nodes.L2.Message.{BookSpec}
use strategy_nodes.Venue.Ids.{failure, unknown_symbol}
use strategy_nodes.Venue.Manager.{BookRequest}
use strategy_nodes.Venue.Symbols.{is_lower, is_well_formed_symbol}
use strategy_nodes.Venue.Symbols.Plain.{
  test_of_ok, well_formed-IsPlain, scan_string, scan_string-plain,
}
use strategy_nodes.Coinbase.Adapter.{
  punctuation, check_symbol, request_head, request_tail, make_book_request,
}

check_symbol_passes :
    (symbol : Text)
    → is_ok (check_symbol symbol) ≡ true
    → is_well_formed_symbol symbol punctuation ≡ true
unfolding check_symbol
check_symbol_passes symbol h =
    let both =
      test_of_ok (failure unknown_symbol)
        (is_well_formed_symbol symbol punctuation && not (any_of is_lower symbol)) h in
    ground (arith, both)

-- In a request for a symbol that `check_symbol` passes, the JSON string that stands where the
-- product does reads as exactly the symbol, and the request goes on with its fixed end: the symbol
-- cannot end the string, escape anything or add to the request.
pub request_names_product :
    (request : BookRequest) (book : BookSpec)
    → is_ok (check_symbol book.symbol) ≡ true
    → scan_string (drop (length (request_head request)) (make_book_request request book))
      ≡ some (book.symbol, codes "]}")
unfolding make_book_request
request_names_product request book h =
    ap scan_string (drop-append (request_head request) (book.symbol ++ request_tail))
    ∙ scan_string-plain book.symbol (codes "]}") (
        well_formed-IsPlain punctuation book.symbol ((omega arith, (refl, refl)), tt)
          (check_symbol_passes book.symbol h))
