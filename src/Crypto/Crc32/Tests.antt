-- ===== src/Crypto/Crc32/Tests.antt =====
-- data_feed/crypto/crc32.cc: the standard check value, and the theorem on it.
use strategy_nodes.Common.{◌≡◌, refl, codes, arith}
use strategy_nodes.Crypto.Crc32.{
  crc_bit, crc_bits, entries_from, build_crc32_table, entry, crc_byte, crc_bytes, crc32,
}
use strategy_nodes.Crypto.Crc32.Bitwise.{bitwise_crc32, crc32_bits}

check_value : crc32 (codes "123456789") ≡ 0xCBF43926
unfolding crc_bit crc_bits entries_from build_crc32_table entry crc_byte crc_bytes crc32
check_value = refl

crc32_bits_example : crc32 (codes "45285") ≡ bitwise_crc32 (codes "45285")
crc32_bits_example =
    crc32_bits (codes "45285")
      (omega arith, (omega arith, (omega arith, (omega arith, (omega arith, tt)))))
