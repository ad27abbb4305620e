-- ===== src/Prelude/Bits.antt =====
-- Masks on one byte as arithmetic. Each is a table of at most 256 entries, checked by evaluation.
pub mod Words
use Prim.Native.Nat.{ℕ, zero, suc, ◌+◌, ◌*◌, ◌/◌, ◌%◌, ◌<◌, bit_and, bit_or}
use mathlib.Core.Path.{◌≡◌, refl}
use mathlib.Core.Bool.{Bool, true, false}
use mathlib.Core.Logic.{ite}
use native.Mathlib.Decide.{ℕ_discrete}
use native.Mathlib.Omega.{arith}

module _ (f g : ℕ → ℕ) where
  agree_below : ℕ → Bool
  unfolding ℕ_discrete
  agree_below zero = true
  agree_below (suc n) = ite (ℕ_discrete (f n) (g n)) (agree_below n) false

  agree_below→eq : (n : ℕ) → agree_below n ≡ true → (i : ℕ) → i < n → f i ≡ g i
  unfolding agree_below
  agree_below→eq zero e i h = absurd (omega arith)
  agree_below→eq (suc n) e i h = ground (arith, agree_below→eq n (ground arith) i)

pub bit_and-0x80 : (b : ℕ) → b < 256 → bit_and b 0x80 ≡ b / 128 * 128
unfolding agree_below
bit_and-0x80 = agree_below→eq _ _ 256 refl

pub bit_and-0x40 : (b : ℕ) → b < 256 → bit_and b 0x40 ≡ b / 64 % 2 * 64
unfolding agree_below
bit_and-0x40 = agree_below→eq _ _ 256 refl

pub bit_and-0x1f : (b : ℕ) → b < 256 → bit_and b 0x1F ≡ b % 32
unfolding agree_below
bit_and-0x1f = agree_below→eq _ _ 256 refl

pub bit_and-0x3f : (b : ℕ) → b < 256 → bit_and b 0x3F ≡ b % 64
unfolding agree_below
bit_and-0x3f = agree_below→eq _ _ 256 refl

pub bit_and-0x01 : (b : ℕ) → b < 256 → bit_and b 0x01 ≡ b % 2
unfolding agree_below
bit_and-0x01 = agree_below→eq _ _ 256 refl

pub bit_and-0x07 : (b : ℕ) → b < 256 → bit_and b 0x07 ≡ b % 8
unfolding agree_below
bit_and-0x07 = agree_below→eq _ _ 256 refl

pub bit_and-0x7f : (b : ℕ) → b < 256 → bit_and b 0x7F ≡ b % 128
unfolding agree_below
bit_and-0x7f = agree_below→eq _ _ 256 refl

pub bit_and-0xe0 : (b : ℕ) → b < 256 → bit_and b 0xE0 ≡ b / 32 * 32
unfolding agree_below
bit_and-0xe0 = agree_below→eq _ _ 256 refl

pub bit_and-0x81 : (b : ℕ) → b < 256 → bit_and b 0x81 ≡ b / 128 * 128 + b % 2
unfolding agree_below
bit_and-0x81 = agree_below→eq _ _ 256 refl

-- The upper three bits of `n` joined with its lower five.
pub bit_or_h264_header : (n : ℕ) → n < 256 → bit_or (n / 32 * 32) (n % 32) ≡ n
unfolding agree_below
bit_or_h264_header = agree_below→eq _ _ 256 refl

-- The outer two bits of `n` joined with the six between them.
pub bit_or_hevc_header : (n : ℕ) → n < 256 → bit_or (n / 128 * 128 + n % 2) (n / 2 % 64 * 2) ≡ n
unfolding agree_below
bit_or_hevc_header = agree_below→eq _ _ 256 refl

-- The fields of the third, the fourth and the sixth byte of an ADTS header.
pub bit_or_adts_second :
    (n : ℕ) → n < 256 → bit_or (bit_or (n / 64 * 64) (n / 4 % 16 * 4)) (n % 2) ≡ n / 4 * 4 + n % 2
unfolding agree_below
bit_or_adts_second = agree_below→eq _ _ 256 refl

pub bit_or_adts_third : (n : ℕ) → n < 256 → bit_or (n / 64 * 64) (n % 4) ≡ n / 64 * 64 + n % 4
unfolding agree_below
bit_or_adts_third = agree_below→eq _ _ 256 refl

pub bit_or_adts_fifth : (n : ℕ) → n < 256 → bit_or (n / 32 * 32) 0x1F ≡ n / 32 * 32 + 31
unfolding agree_below
bit_or_adts_fifth = agree_below→eq _ _ 256 refl
