-- ===== src/Core/Bytes.antt =====
-- data_feed/core/aliasing.h: integers of a fixed width as the bytes that hold them, lowest first,
-- which is the native order of the machines that the program is built for.
pub mod Laws
use strategy_nodes.Common.{
  ℕ, zero, suc, ◌+◌, ◌-◌, ◌*◌, ◌/◌, ◌%◌, ◌^◌, ℤ, pos, negsuc, List, [], ◌∷◌, Text, ltb,
  if◌then◌else◌,
}

unfoldable pub to_bytes : ℕ → ℕ → Text
to_bytes zero n = []
to_bytes (suc width) n = n % 256 ∷ to_bytes width (n / 256)

unfoldable pub from_bytes : Text → ℕ
from_bytes [] = 0
from_bytes (b ∷ bs) = b + 256 * from_bytes bs

-- `static_cast<u64>` of an `i64`, and back.
unfoldable pub to_u64 : ℤ → ℕ
to_u64 (pos n) = n % 2 ^ 64
to_u64 (negsuc n) = 2 ^ 64 - 1 - n % 2 ^ 64

unfoldable pub to_i64 : ℕ → ℤ
to_i64 n = if ltb n (2 ^ 63) then pos n else negsuc (2 ^ 64 - 1 - n)

-- The result of an `i64` operation. Where it does not fit, which C++ leaves undefined, it wraps
-- around, as the machines that the program is built for have it.
unfoldable pub wrap_i64 : ℤ → ℤ
wrap_i64 z = to_i64 (to_u64 z)
