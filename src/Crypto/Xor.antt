-- ===== src/Crypto/Xor.antt =====
-- The laws of exclusive or on natural numbers, from its definition by binary digits.
use Prim.Native.Nat.{bit_xor, digits, differ, bit_xor-bitwise}
use native.Mathlib.Numerals.{unary_clauses}
use strategy_nodes.Common.{
  ℕ, zero, suc, ◌+◌, ◌*◌, ◌/◌, ◌%◌, ◌^◌, ◌≤◌, ◌<◌, ◌≡◌, refl, sym, ap, ◌∙◌, arith,
}

differ_lem : (c d : ℕ) → c < 2 → d < 2 → differ c d ≡ (c + d) % 2
differ_lem zero d hc hd = omega arith
differ_lem (suc zero) zero hc hd = omega arith
differ_lem (suc zero) (suc zero) hc hd = omega arith
differ_lem (suc zero) (suc (suc d)) hc hd = absurd (omega arith)
differ_lem (suc (suc c)) d hc hd = absurd (omega arith)

-- The operation with a count of digits of its own.
abbrev counted_xor : ℕ → ℕ → ℕ → ℕ
counted_xor n a b = digits (λ c. c) differ n a b

counted_xor_any : (n m a b : ℕ) → a ≤ n → a ≤ m → counted_xor n a b ≡ counted_xor m a b
counted_xor_any zero zero a b hn hm = refl
counted_xor_any zero (suc m) zero b hn hm = refl
counted_xor_any (suc n) zero zero b hn hm = refl
counted_xor_any (suc n) (suc m) zero b hn hm = refl
counted_xor_any zero m (suc a) b hn hm = absurd (omega arith)
counted_xor_any (suc n) zero (suc a) b hn hm = absurd (omega arith)
counted_xor_any (suc n) (suc m) (suc a) b hn hm =
    let rest = counted_xor_any n m (suc a / 2) (b / 2) (omega arith) (omega arith) in
    ap (λ (t : ℕ). t * 2 + differ (suc a % 2) (b % 2)) rest

pub zero-bit_xor : (b : ℕ) → bit_xor 0 b ≡ b
zero-bit_xor b = bit_xor-bitwise 0 b

-- The lowest digit and the others.
pub bit_xor_digits : (a b : ℕ) → bit_xor a b ≡ bit_xor (a / 2) (b / 2) * 2 + (a % 2 + b % 2) % 2
bit_xor_digits zero b = omega (arith, zero-bit_xor b, zero-bit_xor (b / 2))
bit_xor_digits (suc a) b = omega (
  arith,
  bit_xor-bitwise (suc a) b,
  bit_xor-bitwise (suc a / 2) (b / 2),
  counted_xor_any a (suc a / 2) (suc a / 2) (b / 2) (omega arith) (omega arith),
  differ_lem (suc a % 2) (b % 2) (omega arith) (omega arith),
)

pub bit_xor_half : (a b : ℕ) → bit_xor a b / 2 ≡ bit_xor (a / 2) (b / 2)
bit_xor_half a b = omega (arith, bit_xor_digits a b)

pub bit_xor_low : (a b : ℕ) → bit_xor a b % 2 ≡ (a % 2 + b % 2) % 2
bit_xor_low a b = omega (arith, bit_xor_digits a b)

self_bound : (n a : ℕ) → a ≤ n → bit_xor a a ≡ 0
self_bound zero zero h = refl
self_bound zero (suc a) h = absurd (omega arith)
self_bound (suc n) zero h = refl
self_bound (suc n) (suc a) h =
    omega (arith, bit_xor_digits (suc a) (suc a), self_bound n (suc a / 2) (omega arith))

pub bit_xor_self : (a : ℕ) → bit_xor a a ≡ 0
bit_xor_self a = self_bound a a (omega arith)

comm_bound : (n a b : ℕ) → a ≤ n → b ≤ n → bit_xor a b ≡ bit_xor b a
comm_bound zero zero zero ha hb = refl
comm_bound zero (suc a) b ha hb = absurd (omega arith)
comm_bound zero zero (suc b) ha hb = absurd (omega arith)
comm_bound (suc n) a b ha hb = omega (
  arith,
  bit_xor_digits a b,
  bit_xor_digits b a,
  comm_bound n (a / 2) (b / 2) (omega arith) (omega arith),
)

pub bit_xor_comm : (a b : ℕ) → bit_xor a b ≡ bit_xor b a
bit_xor_comm a b = comm_bound (a + b) a b (omega arith) (omega arith)

pub bit_xor-zero : (a : ℕ) → bit_xor a 0 ≡ a
bit_xor-zero a = bit_xor_comm a 0 ∙ zero-bit_xor a

assoc_bound :
    (n a b c : ℕ) → a ≤ n → b ≤ n → c ≤ n → bit_xor (bit_xor a b) c ≡ bit_xor a (bit_xor b c)
assoc_bound zero zero zero zero ha hb hc = refl
assoc_bound zero (suc a) b c ha hb hc = absurd (omega arith)
assoc_bound zero zero (suc b) c ha hb hc = absurd (omega arith)
assoc_bound zero zero zero (suc c) ha hb hc = absurd (omega arith)
assoc_bound (suc n) a b c ha hb hc = omega (
  arith,
  bit_xor_digits (bit_xor a b) c,
  bit_xor_digits a (bit_xor b c),
  bit_xor_low a b,
  bit_xor_low b c,
  ap (λ t. bit_xor t (c / 2)) (bit_xor_half a b),
  ap (bit_xor (a / 2)) (bit_xor_half b c),
  assoc_bound n (a / 2) (b / 2) (c / 2) (omega arith) (omega arith) (omega arith),
)

pub bit_xor_assoc : (a b c : ℕ) → bit_xor (bit_xor a b) c ≡ bit_xor a (bit_xor b c)
bit_xor_assoc a b c = assoc_bound (a + b + c) a b c (omega arith) (omega arith) (omega arith)

bit_xor_twice : (a b : ℕ) → bit_xor (a * 2) b ≡ bit_xor a (b / 2) * 2 + b % 2
bit_xor_twice a b = omega (arith, bit_xor_digits (a * 2) b, ap (λ t. bit_xor t (b / 2)) (half a))
  where
    half : (n : ℕ) → n * 2 / 2 ≡ n
    half n = omega arith

shift_suc : (n hi : ℕ) → hi * 2 ^ suc n ≡ hi * 2 ^ n * 2
shift_suc n hi = simp unary_clauses (omega arith)

half_small : (n lo : ℕ) → lo < 2 ^ suc n → lo / 2 < 2 ^ n
half_small n lo h = omega (arith, shift_suc n 1, h)

-- Digits that do not overlap are added.
pub bit_xor_shifted : (n hi lo : ℕ) → lo < 2 ^ n → bit_xor (hi * 2 ^ n) lo ≡ hi * 2 ^ n + lo
bit_xor_shifted zero hi lo h =
    let none_left : lo ≡ 0 = omega (arith, h) in
    ap (bit_xor (hi * 1)) none_left ∙ bit_xor-zero (hi * 1) ∙ omega (arith, none_left)
bit_xor_shifted (suc n) hi lo h = omega (
  arith,
  shift_suc n hi,
  ap (λ t. bit_xor t lo) (shift_suc n hi),
  bit_xor_twice (hi * 2 ^ n) lo,
  bit_xor_shifted n hi (lo / 2) (half_small n lo h),
)

-- Halved so many times.
abbrev halve : ℕ → ℕ → ℕ
halve zero a = a
halve (suc n) a = halve n (a / 2)

halve-bit_xor : (n a b : ℕ) → halve n (bit_xor a b) ≡ bit_xor (halve n a) (halve n b)
halve-bit_xor zero a b = refl
halve-bit_xor (suc n) a b = ap (halve n) (bit_xor_half a b) ∙ halve-bit_xor n (a / 2) (b / 2)

halve_8 : (a : ℕ) → halve 8 a ≡ a / 256
halve_8 a = omega arith

-- A byte leaves what stands above it.
pub bit_xor-byte : (a b : ℕ) → b < 256 → bit_xor a b / 256 ≡ a / 256
bit_xor-byte a b h =
    let gone : halve 8 b ≡ 0 = omega (arith, halve_8 b, h) in
    sym (halve_8 (bit_xor a b))
    ∙ halve-bit_xor 8 a b
    ∙ ap (bit_xor (halve 8 a)) gone
    ∙ bit_xor-zero (halve 8 a)
    ∙ halve_8 a
