-- ===== src/Crypto/Crc32.antt =====
-- data_feed/crypto/crc32.cc: CRC-32 by a table of the 256 values of a byte.
-- A `u32` is a natural number; a shift and a mask are a division and a remainder.
pub mod Bitwise
pub mod Tests
use Prim.Native.Nat.{bit_xor}
use strategy_nodes.Common.{
  ℕ, zero, suc, ◌*◌, ◌/◌, ◌%◌, List, [], ◌∷◌, Text, drop, ◌==◌, if◌then◌else◌,
}

abbrev pub polynomial : ℕ
polynomial = 0xEDB88320

-- One turn of the loop over the bits of an entry.
unfoldable pub crc_bit : ℕ → ℕ
crc_bit crc = if crc % 2 == 0 then crc / 2 else bit_xor (crc / 2) polynomial

unfoldable pub crc_bits : ℕ → ℕ → ℕ
crc_bits zero crc = crc
crc_bits (suc n) crc = crc_bits n (crc_bit crc)

-- The entries of `count` values from `value` on.
unfoldable pub entries_from : ℕ → ℕ → List ℕ
entries_from zero value = []
entries_from (suc count) value = crc_bits 8 value ∷ entries_from count (suc value)

unfoldable pub build_crc32_table : List ℕ
build_crc32_table = entries_from 256 0

-- An entry of the table; the index is below 256.
unfoldable pub entry : List ℕ → ℕ → ℕ
entry table i = elim (drop i table) [ [] ↦ 0 | e ∷ es ↦ e ]

unfoldable pub crc_byte : ℕ → ℕ → ℕ
crc_byte crc byte = bit_xor (entry build_crc32_table (bit_xor crc byte % 256)) (crc / 256)

unfoldable pub crc_bytes : Text → ℕ → ℕ
crc_bytes [] crc = crc
crc_bytes (byte ∷ data_rest) crc = crc_bytes data_rest (crc_byte crc byte)

unfoldable pub crc32 : Text → ℕ
crc32 text = bit_xor (crc_bytes text 0xFFFFFFFF) 0xFFFFFFFF
