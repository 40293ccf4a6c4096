-- ===== src/Kraken/Checksum.antt =====
-- data_feed/kraken/checksum.h and checksum.cc: Kraken's checksum over the top of a book.
pub mod Top
use strategy_nodes.Common.{ℕ, ℤ, [], ◌∷◌, ◌++◌, Text, take}
use strategy_nodes.L2.Book.{Book, Side}
use strategy_nodes.Core.Format.{format_ℤ}
use strategy_nodes.Crypto.Crc32.{crc32}

abbrev pub checksum_depth : ℕ
checksum_depth = 10

-- The levels one after the other, each as its price and its quantity.
unfoldable pub format_levels : Side → Text
format_levels [] = []
format_levels ((price, quantity) ∷ levels) =
    format_ℤ price ++ (format_ℤ quantity ++ format_levels levels)

unfoldable pub append_side : Side → Text → Text
append_side side out = out ++ format_levels (take checksum_depth side)

unfoldable pub book_checksum : Book → ℕ
book_checksum b = crc32 (append_side b.bids (append_side b.asks []))
