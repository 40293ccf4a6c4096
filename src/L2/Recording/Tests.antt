-- ===== src/L2/Recording/Tests.antt =====
-- A recording with a gap in the middle.
use strategy_nodes.Common.{refl, ◌≡◌, ℤ, pos, true, none, some, ok, List, [], ◌∷◌, codes, length}
use strategy_nodes.L2.Message.{Message, MessageType, update, snapshot, BookSpec, PairPrecision}
use strategy_nodes.L2.Recording.{
  Entry, FileWriter, make_file_writer, close_file, to_fixed_text, text_size,
}
use strategy_nodes.L2.Recording.Stretches.{run, recorded, stretches, stretches-recorded}
use strategy_nodes.L2.Recording.Header.{text_of, to_fixed_text_lem}

abbrev spec : BookSpec
spec = record { symbol = codes "BTC/USD"; depth = 10 }

abbrev precision : PairPrecision
precision = record { price_decimals = 1; qty_decimals = 8 }

abbrev message : MessageType → Message
message type = record {
  type = type;
  checksum = 7;
  venue_time_ns = pos 1;
  capture_time_ns = pos 2;
  symbol = codes "BTC/USD";
  buys = [];
  sells = [];
}

abbrev entries : List (Entry × ℤ)
entries =
    (none, pos 1)
    ∷ (some (message snapshot), pos 2)
    ∷ (some (message update), pos 3)
    ∷ (none, pos 4)
    ∷ (none, pos 5)
    ∷ (some (message snapshot), pos 6)
    ∷ []

stretches-recorded_example :
    (opened : FileWriter) × (make_file_writer (codes "kraken") spec precision (pos 0) true
      ≡ ok opened)
    × (w : FileWriter) × (run opened entries ≡ ok w)
    × (recorded (close_file w).finished ≡ stretches [] entries)
stretches-recorded_example = stretches-recorded (codes "kraken") spec precision (pos 0) entries

to_fixed_text_lem_example :
    (length (to_fixed_text (codes "BTC/USD")) ≡ text_size)
    × (text_of (to_fixed_text (codes "BTC/USD")) ≡ codes "BTC/USD")
to_fixed_text_lem_example =
    to_fixed_text_lem (codes "BTC/USD") (refl, (refl, (refl, (refl, (refl, (refl, (refl, tt)))))))
