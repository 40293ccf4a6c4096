-- ===== src/Crypto/Crc32/Bitwise.antt =====
-- data_feed/crypto/crc32.cc: the table gives the CRC of the bits, one after the other.
use Prim.Native.Nat.{bit_xor}
use native.Mathlib.Numerals.{unary_clauses}
use strategy_nodes.Common.{
  ℕ, zero, suc, ◌+◌, ◌*◌, ◌/◌, ◌%◌, ◌^◌, ◌<◌, ◌≡◌, refl, sym, ap, ◌∙◌, ◌⊎◌, inl, inr, [], ◌∷◌, Text,
  All, arith,
}
use strategy_nodes.Crypto.Xor.{
  bit_xor_half, bit_xor_low, bit_xor_self, bit_xor_comm, bit_xor_assoc, zero-bit_xor,
  bit_xor_shifted, bit_xor-byte,
}
use strategy_nodes.Crypto.Crc32.{
  polynomial, crc_bit, crc_bits, entries_from, build_crc32_table, entry, crc_byte, crc_bytes, crc32,
}

-- The reference: a byte is fed in bit by bit, without a table.
abbrev pub bitwise_bytes : Text → ℕ → ℕ
bitwise_bytes [] crc = crc
bitwise_bytes (byte ∷ rest) crc = bitwise_bytes rest (crc_bits 8 (bit_xor crc byte))

abbrev pub bitwise_crc32 : Text → ℕ
bitwise_crc32 text = bit_xor (bitwise_bytes text 0xFFFFFFFF) 0xFFFFFFFF

even_bit : (a : ℕ) → a % 2 ≡ 0 → crc_bit a ≡ a / 2
unfolding crc_bit
even_bit a h = rw (h) refl

odd_bit : (a : ℕ) → a % 2 ≡ 1 → crc_bit a ≡ bit_xor (a / 2) polynomial
unfolding crc_bit
odd_bit a h = rw (h) refl

-- Exclusive or in the middle of three.
swap_last : (a b c : ℕ) → bit_xor (bit_xor a b) c ≡ bit_xor (bit_xor a c) b
swap_last a b c =
    bit_xor_assoc a b c ∙ ap (bit_xor a) (bit_xor_comm b c) ∙ sym (bit_xor_assoc a c b)

cancel : (a b c : ℕ) → bit_xor (bit_xor a c) (bit_xor b c) ≡ bit_xor a b
cancel a b c =
    bit_xor_assoc a c (bit_xor b c)
    ∙ ap (λ t. bit_xor a (bit_xor c t)) (bit_xor_comm b c)
    ∙ ap (bit_xor a) (sym (bit_xor_assoc c c b) ∙ ap (λ t. bit_xor t b) (bit_xor_self c))
    ∙ ap (bit_xor a) (zero-bit_xor b)

both : {c d e f : ℕ} → c ≡ d → e ≡ f → bit_xor c e ≡ bit_xor d f
both p q = λ i. bit_xor (p i) (q i)

parity : (a : ℕ) → (a % 2 ≡ 0) ⊎ (a % 2 ≡ 1)
parity a = ground arith

-- A bit's turn is linear.
crc_bit_linear : (a b : ℕ) → crc_bit (bit_xor a b) ≡ bit_xor (crc_bit a) (crc_bit b)
crc_bit_linear a b = cases (parity a) (parity b)
  where
    low : (c d : ℕ) → a % 2 ≡ c → b % 2 ≡ d → bit_xor a b % 2 ≡ (c + d) % 2
    low c d p q = bit_xor_low a b ∙ (λ i. (p i + q i) % 2)

    halves : bit_xor (bit_xor a b / 2) polynomial ≡ bit_xor (bit_xor (a / 2) (b / 2)) polynomial
    halves = ap (λ t. bit_xor t polynomial) (bit_xor_half a b)

    cases :
        (a % 2 ≡ 0) ⊎ (a % 2 ≡ 1)
        → (b % 2 ≡ 0) ⊎ (b % 2 ≡ 1)
        → crc_bit (bit_xor a b) ≡ bit_xor (crc_bit a) (crc_bit b)
    cases (inl p) (inl q) =
        even_bit (bit_xor a b) (low 0 0 p q)
        ∙ bit_xor_half a b
        ∙ sym (both (even_bit a p) (even_bit b q))
    cases (inl p) (inr q) =
        odd_bit (bit_xor a b) (low 0 1 p q)
        ∙ halves
        ∙ bit_xor_assoc (a / 2) (b / 2) polynomial
        ∙ sym (both (even_bit a p) (odd_bit b q))
    cases (inr p) (inl q) =
        odd_bit (bit_xor a b) (low 1 0 p q)
        ∙ halves
        ∙ swap_last (a / 2) (b / 2) polynomial
        ∙ sym (both (odd_bit a p) (even_bit b q))
    cases (inr p) (inr q) =
        even_bit (bit_xor a b) (low 1 1 p q)
        ∙ bit_xor_half a b
        ∙ sym (cancel (a / 2) (b / 2) polynomial)
        ∙ sym (both (odd_bit a p) (odd_bit b q))

crc_bits_linear : (n a b : ℕ) → crc_bits n (bit_xor a b) ≡ bit_xor (crc_bits n a) (crc_bits n b)
unfolding crc_bits
crc_bits_linear zero a b = refl
crc_bits_linear (suc n) a b =
    ap (crc_bits n) (crc_bit_linear a b) ∙ crc_bits_linear n (crc_bit a) (crc_bit b)

crc_bits_shifted : (n hi : ℕ) → crc_bits n (hi * 2 ^ n) ≡ hi
unfolding crc_bits
crc_bits_shifted zero hi = omega arith
crc_bits_shifted (suc n) hi = ap (crc_bits n) (bit_shifted) ∙ crc_bits_shifted n hi
  where
    shifted : hi * 2 ^ suc n ≡ hi * 2 ^ n * 2
    shifted = simp unary_clauses (omega arith)

    bit_shifted : crc_bit (hi * 2 ^ suc n) ≡ hi * 2 ^ n
    bit_shifted = even_bit (hi * 2 ^ suc n) (omega (arith, shifted)) ∙ omega (arith, shifted)

-- Eight turns move the low byte out, by the entry of that byte.
crc_bits_byte : (a : ℕ) → crc_bits 8 a ≡ bit_xor (crc_bits 8 (a % 256)) (a / 256)
crc_bits_byte a =
    let split : bit_xor (a / 256 * 256) (a % 256) ≡ a =
      bit_xor_shifted 8 (a / 256) (a % 256) (omega arith) ∙ omega arith in
    ap (crc_bits 8) (sym split)
    ∙ crc_bits_linear 8 (a / 256 * 256) (a % 256)
    ∙ ap (λ t. bit_xor t (crc_bits 8 (a % 256))) (crc_bits_shifted 8 (a / 256))
    ∙ bit_xor_comm (a / 256) (crc_bits 8 (a % 256))

entry-entries_from :
    (count value i : ℕ) → i < count → entry (entries_from count value) i ≡ crc_bits 8 (value + i)
unfolding entry entries_from
entry-entries_from zero value i h = absurd (omega arith)
entry-entries_from (suc count) value zero h = ap (crc_bits 8) (omega arith)
entry-entries_from (suc count) value (suc i) h =
    entry-entries_from count (suc value) i (omega arith) ∙ ap (crc_bits 8) (omega arith)

crc_byte_bits : (crc byte : ℕ) → byte < 256 → crc_byte crc byte ≡ crc_bits 8 (bit_xor crc byte)
unfolding crc_byte build_crc32_table
crc_byte_bits crc byte h =
    both
      (entry-entries_from 256 0 (bit_xor crc byte % 256) (omega arith)
        ∙ ap (crc_bits 8) (omega arith))
      (sym (bit_xor-byte crc byte h))
    ∙ sym (crc_bits_byte (bit_xor crc byte))

crc_bytes_bits :
    (text : Text) (crc : ℕ) → All (λ c. c < 256) text → crc_bytes text crc ≡ bitwise_bytes text crc
unfolding crc_bytes
crc_bytes_bits [] crc h = refl
crc_bytes_bits (byte ∷ rest) crc (hb, h) =
    ap (crc_bytes rest) (crc_byte_bits crc byte hb)
    ∙ crc_bytes_bits rest (crc_bits 8 (bit_xor crc byte)) h

-- On every text of bytes the table gives the CRC that feeding in the text bit by bit gives.
pub crc32_bits : (text : Text) → All (λ c. c < 256) text → crc32 text ≡ bitwise_crc32 text
unfolding crc32
crc32_bits text h = ap (λ crc. bit_xor crc 0xFFFFFFFF) (crc_bytes_bits text 0xFFFFFFFF h)
