-- ===== src/Kraken/Tests.antt =====
-- data_feed/kraken: the worked example of Kraken's book guide, and the theorems on examples.
use strategy_nodes.Common.{◌≡◌, refl, ℤ, pos, some, List, [], ◌∷◌, codes, arith}
use strategy_nodes.L2.Message.{snapshot, Message, PairPrecision}
use strategy_nodes.Core.Chars.{is_digit, value_from, value_of}
use strategy_nodes.Kraken.Decoder.{decode}
use strategy_nodes.Kraken.Decoder.Books.{Change, frame_json, message_of, book_emitted}
use strategy_nodes.Venue.Decoder.{Output, returned}
use strategy_nodes.Common.{true, false, none, ℕ, ◌≤◌, ok, length, drop, List}
use strategy_nodes.L2.Message.{BookSpec}
use strategy_nodes.L2.Book.{Book, truncate}
use strategy_nodes.Core.Format.{digits_of, format_ℕ, format_ℤ}
use strategy_nodes.Crypto.Crc32.{
  crc_bit, crc_bits, entries_from, build_crc32_table, entry, crc_byte, crc_bytes, crc32,
}
use strategy_nodes.Venue.Manager.{subscribe_request}
use strategy_nodes.Venue.Symbols.{
  is_upper, is_lower, is_alnum, contains, is_symbol_character, is_well_formed_symbol,
}
use strategy_nodes.Venue.Symbols.Plain.{scan_string}
use strategy_nodes.Kraken.Checksum.{format_levels, append_side, book_checksum}
use strategy_nodes.Kraken.Checksum.Top.{book_checksum-truncate}
use strategy_nodes.Kraken.Adapter.{check_symbol, request_head, make_book_request}
use strategy_nodes.Kraken.Adapter.Requests.{request_names_symbol}
use strategy_nodes.Kraken.MessageSize.{max_l2_snapshot_length}
use strategy_nodes.Kraken.MessageSize.Bound.{
  plain, scientific, Snapshot, snapshot_text, snapshot_fits,
}

abbrev no_days : ℤ → ℤ → ℤ → ℤ
no_days y m d = pos 0

abbrev precision : PairPrecision
precision = record { price_decimals = 1; qty_decimals = 8 }

-- An output that wants everything at one precision, and keeps what it is handed.
abbrev collector : Output (List Message)
collector = record { find = λ o symbol type. some precision; emit = λ o m. m ∷ o }

abbrev change : Change
change = record {
  symbol = codes "BTC/USD";
  type = snapshot;
  bids =
      record {
        price = record { whole = codes "84888"; fraction = some (codes "7") };
        quantity = record { whole = codes "0"; fraction = some (codes "06980997") };
      }
      ∷ [];
  asks = [];
  checksum = codes "2520196449";
  timestamp = codes "2026-10-04T18:32:21.811584Z";
}

book_emitted_example :
    decode collector no_days []
      (record { json = some (frame_json change); capture_time_ns = pos 3 })
    ≡ returned (message_of no_days (pos 3) precision change ∷ [])
unfolding is_digit value_of value_from
book_emitted_example =
    book_emitted collector no_days (pos 3) [] change precision refl
      (
        (
          record {
            whole_digits = (refl, (refl, (refl, (refl, (refl, tt)))));
            fraction_only_digits = (refl, tt);
            scale_small = omega arith;
            value_small = omega arith;
          },
          record {
            whole_digits = (refl, tt);
            fraction_only_digits =
                (refl, (refl, (refl, (refl, (refl, (refl, (refl, (refl, tt))))))));
            scale_small = omega arith;
            value_small = omega arith;
          },
        ),
        tt,
      )
      tt

abbrev guide_book : Book
guide_book = record {
  depth = 10;
  asks =
      (pos 452852, pos 100000)
      ∷ (pos 452864, pos 154571953)
      ∷ (pos 452866, pos 154571109)
      ∷ (pos 452896, pos 154560911)
      ∷ (pos 452902, pos 15890660)
      ∷ (pos 452918, pos 154553491)
      ∷ (pos 452947, pos 4454749)
      ∷ (pos 452961, pos 35380000)
      ∷ (pos 452975, pos 9945542)
      ∷ (pos 452995, pos 18772827)
      ∷ [];
  bids =
      (pos 452835, pos 10000000)
      ∷ (pos 452834, pos 154582015)
      ∷ (pos 452821, pos 10000000)
      ∷ (pos 452810, pos 10000000)
      ∷ (pos 452803, pos 154592586)
      ∷ (pos 452790, pos 7990000)
      ∷ (pos 452776, pos 3310103)
      ∷ (pos 452775, pos 30000000)
      ∷ (pos 452773, pos 154602737)
      ∷ (pos 452766, pos 15445238)
      ∷ [];
}

guide_checksum : book_checksum guide_book ≡ 3310070434
unfolding book_checksum append_side format_levels format_ℤ format_ℕ digits_of crc_bit crc_bits
    entries_from build_crc32_table entry crc_byte crc_bytes crc32
guide_checksum = refl

book_checksum-truncate_example :
    book_checksum
      (record guide_book { bids = truncate 25 guide_book.bids; asks = truncate 25 guide_book.asks })
    ≡ book_checksum guide_book
book_checksum-truncate_example = book_checksum-truncate guide_book 25 refl

abbrev spec : BookSpec
spec = record { symbol = codes "ETH2.S/ETH"; depth = 10 }

request_names_symbol_example :
    scan_string
      (drop (length (request_head subscribe_request 10)) (make_book_request subscribe_request spec))
    ≡ some (codes "ETH2.S/ETH", codes "]}}")
unfolding check_symbol is_well_formed_symbol is_symbol_character contains is_alnum is_upper is_lower
request_names_symbol_example = request_names_symbol subscribe_request spec refl

abbrev snapshot_of_two : Snapshot
snapshot_of_two = record {
  symbol = codes "BTC/USD";
  bids =
      (
        plain false (codes "84888") (some (codes "7")),
        plain false (codes "0") (some (codes "06980997")),
      )
      ∷ [];
  asks =
      (
        plain false (codes "84888") (some (codes "8")),
        scientific false (codes "1") none true (codes "08"),
      )
      ∷ [];
  checksum = codes "1162203035";
  timestamp = codes "2026-09-27T11:29:39.799080Z";
}

snapshot_fits_example :
    (bound : ℕ) × (max_l2_snapshot_length 10 7 ≡ ok bound
      × length (snapshot_text snapshot_of_two) ≤ bound)
snapshot_fits_example = snapshot_fits 10 snapshot_of_two refl (record {
  bids_few = omega arith;
  asks_few = omega arith;
  bids_written = ((omega arith, omega arith), tt);
  asks_written = ((omega arith, (omega arith, omega arith)), tt);
  checksum_short = omega arith;
  timestamp_short = omega arith;
})
