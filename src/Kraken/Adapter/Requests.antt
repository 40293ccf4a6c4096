-- ===== src/Kraken/Adapter/Requests.antt =====
-- data_feed/kraken/adapter.cc: a request names the symbol and nothing of it is anything else.
use strategy_nodes.Common.{
  ◌≡◌, refl, ap, ◌∙◌, true, some, ◌++◌, Text, codes, drop, length, drop-append, All, arith, is_ok,
}
use strategy_nodes.L2.Message.{BookSpec}
use strategy_nodes.Venue.Ids.{failure, unknown_symbol}
use strategy_nodes.Venue.Manager.{BookRequest}
use strategy_nodes.Venue.Symbols.{is_well_formed_symbol}
use strategy_nodes.Venue.Symbols.Plain.{
  IsPlain, test_of_ok, well_formed-IsPlain, scan_string, scan_string-plain,
}
use strategy_nodes.Kraken.Adapter.{
  punctuation, check_symbol, request_head, request_tail, make_book_request,
}

punctuation-IsPlain : All IsPlain punctuation
punctuation-IsPlain = (
  (omega arith, (refl, refl)),
  ((omega arith, (refl, refl)), ((omega arith, (refl, refl)), ((omega arith, (refl, refl)), tt))),
)

check_symbol_passes :
    (symbol : Text)
    → is_ok (check_symbol symbol) ≡ true
    → is_well_formed_symbol symbol punctuation ≡ true
unfolding check_symbol
check_symbol_passes symbol h =
    test_of_ok (failure unknown_symbol) (is_well_formed_symbol symbol punctuation) h

-- In a request for a symbol that `check_symbol` passes, the JSON string that stands where the
-- symbol does reads as exactly the symbol, and the request goes on with its fixed end: the symbol
-- cannot end the string, escape anything or add to the request.
pub request_names_symbol :
    (request : BookRequest) (book : BookSpec)
    → is_ok (check_symbol book.symbol) ≡ true
    → scan_string (drop (length (request_head request book.depth)) (make_book_request request book))
      ≡ some (book.symbol, codes "]}}")
unfolding make_book_request
request_names_symbol request book h =
    ap scan_string (drop-append (request_head request book.depth) (book.symbol ++ request_tail))
    ∙ scan_string-plain book.symbol (codes "]}}") (
        well_formed-IsPlain punctuation book.symbol punctuation-IsPlain
          (check_symbol_passes book.symbol h))
