-- ===== src/Common/Bits.antt =====
-- Bits of native numbers, by the digit recursion that `bit_and` and `bit_or` stand for.
use Prim.Native.Nat.{
  ℕ, zero, suc, ◌+◌, ◌*◌, ◌/◌, ◌%◌, ◌^◌, ◌≤◌, ◌<◌, min, max, bit_and, bit_or, digits,
  bit_and-bitwise, bit_or-bitwise,
}
use mathlib.Core.Path.{◌≡◌, refl, ap}
use native.Mathlib.Nat.{le_refl, pow-suc}
use native.Mathlib.Omega.{arith}

-- Fuel beyond the number itself changes nothing.
more_fuel :
    (zeros : ℕ → ℕ) (op : ℕ → ℕ → ℕ) (a k l b : ℕ)
    → a ≤ k
    → a ≤ l
    → digits zeros op l a b ≡ digits zeros op k a b
more_fuel zeros op zero zero zero b _ _ = refl
more_fuel zeros op zero zero (suc l) b _ _ = refl
more_fuel zeros op zero (suc k) zero b _ _ = refl
more_fuel zeros op zero (suc k) (suc l) b _ _ = refl
more_fuel zeros op (suc a) zero l b h _ = absurd (omega arith)
more_fuel zeros op (suc a) (suc k) zero b _ h = absurd (omega arith)
more_fuel zeros op (suc a) (suc k) (suc l) b h h' =
    let rest = more_fuel zeros op (suc a / 2) k l (b / 2) (omega arith) (omega arith) in
    ap (λ t. t * 2 + op (suc a % 2) (b % 2)) rest

bit_or_step : (a b : ℕ) → bit_or a b ≡ max (a % 2) (b % 2) + bit_or (a / 2) (b / 2) * 2
bit_or_step zero b = simp bit_or-bitwise (omega arith)
bit_or_step (suc a) b =
    let low = suc a / 2 in
    let rest = more_fuel (λ y. y) max low low a (b / 2) (le_refl _) (omega arith) in
    simp bit_or-bitwise (omega (arith, rest))

bit_and_step : (a b : ℕ) → bit_and a b ≡ min (a % 2) (b % 2) + bit_and (a / 2) (b / 2) * 2
bit_and_step zero b = simp bit_and-bitwise (omega arith)
bit_and_step (suc a) b =
    let low = suc a / 2 in
    let rest = more_fuel (λ y. zero) min low low a (b / 2) (le_refl _) (omega arith) in
    simp bit_and-bitwise (omega (arith, rest))

bit_and-zero_below : (a n : ℕ) → a ≤ n → bit_and a 0 ≡ 0
bit_and-zero_below (suc a) zero h = absurd (omega arith)
bit_and-zero_below zero n h = simp bit_and-bitwise refl
bit_and-zero_below (suc a) (suc n) h =
    let rest = bit_and-zero_below (suc a / 2) n (omega arith) in
    omega (arith, bit_and_step (suc a) 0, rest)

pub bit_and-le : (n a b : ℕ) → b ≤ n → bit_and a b ≤ b
bit_and-le n a zero h = omega (arith, bit_and-zero_below a a (omega arith))
bit_and-le zero a (suc b) h = absurd (omega arith)
bit_and-le (suc n) a (suc b) h =
    let below = bit_and-le n (a / 2) (suc b / 2) (omega arith) in
    omega (arith, bit_and_step a (suc b))

-- The binary digit of `a` at position `k`.
unfoldable pub bit : ℕ → ℕ → ℕ
bit a zero = a % 2
bit a (suc k) = bit (a / 2) k

pub bit-lt-two : (a k : ℕ) → bit a k < 2
unfolding bit
bit-lt-two a zero = omega arith
bit-lt-two a (suc k) = bit-lt-two (a / 2) k

pub bit-zero : (k : ℕ) → bit 0 k ≡ 0
unfolding bit
bit-zero zero = refl
bit-zero (suc k) = bit-zero k

pub bit-bit_or : (a b k : ℕ) → bit (bit_or a b) k ≡ max (bit a k) (bit b k)
unfolding bit
bit-bit_or a b zero = omega (arith, bit_or_step a b)
bit-bit_or a b (suc k) =
    let half : bit_or a b / 2 ≡ bit_or (a / 2) (b / 2) = omega (arith, bit_or_step a b) in
    rw half (bit-bit_or (a / 2) (b / 2) k)

half-pow : (k : ℕ) → 2 ^ suc k / 2 ≡ 2 ^ k
half-pow k = omega (arith, pow-suc 2 k)

pub bit-pow_self : (k : ℕ) → bit (2 ^ k) k ≡ 1
unfolding bit
bit-pow_self zero = refl
bit-pow_self (suc k) = rw (half-pow k) (bit-pow_self k)

-- A mask with one bit picks that digit.
pub bit_and-pow : (a k : ℕ) → bit_and a (2 ^ k) ≡ bit a k * 2 ^ k
unfolding bit
bit_and-pow a zero = omega (arith, bit_and_step a 1, bit_and-zero_below (a / 2) (a / 2) (le_refl _))
bit_and-pow a (suc k) =
    let halves : bit_and (a / 2) (2 ^ suc k / 2) ≡ bit (a / 2) k * 2 ^ k =
      rw (half-pow k) (bit_and-pow (a / 2) k) in
    omega (
      arith,
      bit_and_step a (2 ^ suc k),
      pow-suc 2 k,
      ap (λ (t : ℕ). bit (a / 2) k * t) (pow-suc 2 k),
      halves,
    )
