-- ===== src/Prelude/Bits/Words.antt =====
-- Masks and unions of numbers of any size, from the recursion on binary digits that the native
-- operations stand for.
use Prim.Native.Nat.{
  ℕ, zero, suc, ◌+◌, ◌*◌, ◌/◌, ◌%◌, ◌≤◌, ◌<◌, min, max, bit_and, bit_or, digits, bitwise,
  bit_and-bitwise, bit_or-bitwise,
}
use mathlib.Core.Path.{◌≡◌, refl, ap}
use native.Mathlib.Omega.{arith}

module _ (rest : ℕ → ℕ) (digit : ℕ → ℕ → ℕ) where
  -- Fuel beyond the number itself changes nothing.
  surplus : (n m a b : ℕ) → a ≤ n → n ≤ m → digits rest digit m a b ≡ digits rest digit n a b
  surplus zero zero zero b h k = refl
  surplus zero (suc m) zero b h k = refl
  surplus (suc n) zero zero b h k = absurd (omega arith)
  surplus (suc n) (suc m) zero b h k = refl
  surplus zero m (suc a) b h k = absurd (omega arith)
  surplus (suc n) zero (suc a) b h k = absurd (omega arith)
  surplus (suc n) (suc m) (suc a) b h k =
      ap (λ t. t * 2 + digit (suc a % 2) (b % 2))
        (surplus n m (suc a / 2) (b / 2) (omega arith) (omega arith))

  lowest_digit :
      (a b : ℕ)
      → bitwise rest digit (suc a) b
        ≡ bitwise rest digit (suc a / 2) (b / 2) * 2 + digit (suc a % 2) (b % 2)
  lowest_digit a b =
      ap (λ t. t * 2 + digit (suc a % 2) (b % 2))
        (surplus (suc a / 2) a (suc a / 2) (b / 2) (omega arith) (omega arith))

pub bit_and_step : (a b : ℕ) → bit_and a b ≡ bit_and (a / 2) (b / 2) * 2 + min (a % 2) (b % 2)
bit_and_step zero b = omega (arith, bit_and-bitwise 0 b, bit_and-bitwise 0 (b / 2))
bit_and_step (suc a) b = omega (
  arith,
  bit_and-bitwise (suc a) b,
  bit_and-bitwise (suc a / 2) (b / 2),
  lowest_digit (λ y. 0) min a b,
)

pub bit_or_step : (a b : ℕ) → bit_or a b ≡ bit_or (a / 2) (b / 2) * 2 + max (a % 2) (b % 2)
bit_or_step zero b = omega (arith, bit_or-bitwise 0 b, bit_or-bitwise 0 (b / 2))
bit_or_step (suc a) b = omega (
  arith,
  bit_or-bitwise (suc a) b,
  bit_or-bitwise (suc a / 2) (b / 2),
  lowest_digit (λ y. y) max a b,
)

bit_and-zero_below : (k a : ℕ) → a ≤ k → bit_and a 0 ≡ 0
bit_and-zero_below k zero h = refl
bit_and-zero_below zero (suc a) h = absurd (omega arith)
bit_and-zero_below (suc k) (suc a) h =
    omega (arith, bit_and_step (suc a) 0, bit_and-zero_below k (suc a / 2) (omega arith))

bit_or-zero_below : (k a : ℕ) → a ≤ k → bit_or a 0 ≡ a
bit_or-zero_below k zero h = refl
bit_or-zero_below zero (suc a) h = absurd (omega arith)
bit_or-zero_below (suc k) (suc a) h =
    omega (arith, bit_or_step (suc a) 0, bit_or-zero_below k (suc a / 2) (omega arith))

pub bit_and-zero : (a : ℕ) → bit_and a 0 ≡ 0
bit_and-zero a = bit_and-zero_below a a (omega arith)

pub bit_or-zero : (a : ℕ) → bit_or a 0 ≡ a
bit_or-zero a = bit_or-zero_below a a (omega arith)

-- The masks that rtp.py lays over an AudioSpecificConfig and a frame length.
pub bit_and-1 : (a : ℕ) → bit_and a 1 ≡ a % 2
bit_and-1 a = omega (arith, bit_and_step a 1, bit_and-zero (a / 2))

pub bit_and-3 : (a : ℕ) → bit_and a 3 ≡ a % 4
bit_and-3 a = omega (arith, bit_and_step a 3, bit_and-1 (a / 2))

pub bit_and-7 : (a : ℕ) → bit_and a 7 ≡ a % 8
bit_and-7 a = omega (arith, bit_and_step a 7, bit_and-3 (a / 2))

pub bit_and-15 : (a : ℕ) → bit_and a 15 ≡ a % 16
bit_and-15 a = omega (arith, bit_and_step a 15, bit_and-7 (a / 2))

pub bit_and-31 : (a : ℕ) → bit_and a 31 ≡ a % 32
bit_and-31 a = omega (arith, bit_and_step a 31, bit_and-15 (a / 2))

pub bit_and-63 : (a : ℕ) → bit_and a 63 ≡ a % 64
bit_and-63 a = omega (arith, bit_and_step a 63, bit_and-31 (a / 2))

pub bit_and-127 : (a : ℕ) → bit_and a 127 ≡ a % 128
bit_and-127 a = omega (arith, bit_and_step a 127, bit_and-63 (a / 2))

pub bit_and-255 : (a : ℕ) → bit_and a 255 ≡ a % 256
bit_and-255 a = omega (arith, bit_and_step a 255, bit_and-127 (a / 2))

-- Three bits from bit 3 on: `0x07 << 3`.
pub bit_and-56 : (a : ℕ) → bit_and a 56 ≡ a / 8 % 8 * 8
bit_and-56 a = omega (
  arith,
  bit_and_step a 56,
  bit_and_step (a / 2) 28,
  bit_and_step (a / 2 / 2) 14,
  bit_and-7 (a / 2 / 2 / 2),
)

-- A union with an even number, and one with an even number on the left.
bit_or_even_right : (a b : ℕ) → bit_or a (b * 2) ≡ bit_or (a / 2) b * 2 + a % 2
bit_or_even_right a b =
    let half : b * 2 / 2 ≡ b = omega arith in
    omega (arith, bit_or_step a (b * 2), ap (λ t. bit_or (a / 2) t) half)

bit_or_even_left : (a b : ℕ) → a % 2 ≡ 0 → bit_or a b ≡ bit_or (a / 2) (b / 2) * 2 + b % 2
bit_or_even_left a b even = omega (arith, bit_or_step a b)

bit_or_bit : (a b : ℕ) → a % 2 ≡ 0 → b < 2 → bit_or a b ≡ a + b
bit_or_bit a b clear small =
    let none_left : b / 2 ≡ 0 = omega arith in
    omega
      (arith, bit_or_even_left a b clear, ap (λ t. bit_or (a / 2) t) none_left, bit_or-zero (a / 2))

bit_or_two_bits : (a b : ℕ) → a % 4 ≡ 0 → b < 4 → bit_or a b ≡ a + b
bit_or_two_bits a b clear small = omega (
  arith,
  bit_or_even_left a b (omega arith),
  bit_or_bit (a / 2) (b / 2) (omega arith) (omega arith),
)

bit_or_three_bits : (a b : ℕ) → a % 8 ≡ 0 → b < 8 → bit_or a b ≡ a + b
bit_or_three_bits a b clear small = omega (
  arith,
  bit_or_even_left a b (omega arith),
  bit_or_two_bits (a / 2) (b / 2) (omega arith) (omega arith),
)

bit_or_shifted : (a b : ℕ) → a / 2 % 8 ≡ 0 → b < 8 → bit_or a (b * 2) ≡ a + b * 2
bit_or_shifted a b clear small =
    omega (arith, bit_or_even_right a b, bit_or_three_bits (a / 2) b clear small)

bit_or_shifted_twice : (a b : ℕ) → a / 4 % 8 ≡ 0 → b < 8 → bit_or a (b * 2 * 2) ≡ a + b * 4
bit_or_shifted_twice a b clear small =
    omega (arith, bit_or_even_right a (b * 2), bit_or_shifted (a / 2) b (omega arith) small)

-- A number with those three bits clear, and three bits to put there.
pub bit_or-56 : (a b : ℕ) → a / 8 % 8 ≡ 0 → b < 8 → bit_or a (b * 8) ≡ a + b * 8
bit_or-56 a b clear small =
    let same : b * 8 ≡ b * 2 * 2 * 2 = omega arith in
    omega (
      arith,
      ap (λ t. bit_or a t) same,
      bit_or_even_right a (b * 2 * 2),
      bit_or_shifted_twice (a / 2) b (omega arith) small,
    )
