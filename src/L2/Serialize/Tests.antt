-- ===== src/L2/Serialize/Tests.antt =====
-- data_feed/l2/message.cc: the round trip on an update of one level, into a buffer with room left.
use strategy_nodes.Common.{
  ◌<◌, ◌≡◌, ◌⊎◌, pos, negsuc, [], ◌∷◌, Text, codes, length, drop, replicate, err, ok, arith,
}
use strategy_nodes.L2.Message.{update, Message}
use strategy_nodes.L2.Serialize.{get_byte_size, buffer_too_small, serialize}
use strategy_nodes.L2.Serialize.Reader.{read_message}
use strategy_nodes.L2.Serialize.RoundTrip.{serialize_reads_back}

abbrev message : Message
message = record {
  type = update;
  checksum = 2520196449;
  venue_time_ns = pos 1791138741811584000;
  capture_time_ns = negsuc 5;
  symbol = codes "BTC/USD";
  buys = record { price = pos 848887; quantity = pos 0 } ∷ [];
  sells = [];
}

abbrev buffer : Text
buffer = replicate 60 7

serialize_reads_back_example :
    (length buffer < get_byte_size message × serialize message buffer ≡ err buffer_too_small)
    ⊎ ((after : Text) × (serialize message buffer ≡ ok (after, get_byte_size message)
          × read_message (codes "BTC/USD") after ≡ (message, drop (get_byte_size message) buffer)))
serialize_reads_back_example = serialize_reads_back message buffer (record {
  checksum_small = omega arith;
  venue_time = omega arith;
  capture_time = omega arith;
  buys = ((omega arith, omega arith), tt);
  sells = tt;
  buys_small = omega arith;
  sells_small = omega arith;
})
