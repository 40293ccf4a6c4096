-- ===== src/Core/Bytes/Laws.antt =====
-- Integers come back from their bytes.
use native.Mathlib.Numerals.{unary_clauses}
use strategy_nodes.Common.{
  ℕ, zero, suc, ◌*◌, ◌/◌, ◌^◌, ◌<◌, ◌≡◌, refl, ap, ℤ, pos, negsuc, length, arith,
}
use strategy_nodes.Core.Bytes.{to_bytes, from_bytes, to_u64, to_i64, wrap_i64}

pub length-to_bytes : (width n : ℕ) → length (to_bytes width n) ≡ width
unfolding to_bytes
length-to_bytes zero n = refl
length-to_bytes (suc width) n = ap suc (length-to_bytes width (n / 256))

quotient_small : (p n : ℕ) → n < 256 * p → n / 256 < p
quotient_small p n h = omega (arith, h)

pub from_bytes-to_bytes : (width n : ℕ) → n < 256 ^ width → from_bytes (to_bytes width n) ≡ n
unfolding to_bytes from_bytes
from_bytes-to_bytes zero n h = omega (arith, h)
from_bytes-to_bytes (suc width) n h =
    let small : n < 256 ^ width * 256 = simp unary_clauses at h in
    omega (
      arith,
      from_bytes-to_bytes width (n / 256) (quotient_small (256 ^ width) n (omega (arith, small))),
    )

-- The range of an `i64`.
abbrev pub IsI64 : ℤ → Type 0
IsI64 (pos n) = n < 2 ^ 63
IsI64 (negsuc n) = n < 2 ^ 63

pub to_i64-to_u64 : (z : ℤ) → IsI64 z → to_i64 (to_u64 z) ≡ z
unfolding to_i64 to_u64
to_i64-to_u64 (pos n) h = ground arith
to_i64-to_u64 (negsuc n) h = ground arith

pub to_u64_bound : (z : ℤ) → to_u64 z < 2 ^ 64
unfolding to_u64
to_u64_bound (pos n) = omega arith
to_u64_bound (negsuc n) = omega arith

pub wrap_i64_small : (n : ℕ) → n < 2 ^ 63 → wrap_i64 (pos n) ≡ pos n
unfolding wrap_i64
wrap_i64_small n h = to_i64-to_u64 (pos n) h
