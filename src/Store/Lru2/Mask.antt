-- ===== src/Store/Lru2/Mask.antt =====
-- lru2.go: `hashBKRD` and `maskOfNextPowOf2`.
use Prim.Native.Nat.{bit_and, bit_or}
use mathlib.Core.List.{foldl}
use go.Common.{
  ℕ, zero, suc, ◌+◌, ◌-◌, ◌*◌, ◌/◌, ◌%◌, ◌^◌, ◌≤◌, ◌<◌, ◌≡◌, refl, Bool, true, ◌&&◌, ◌||◌, arith,
  nat_beq, leb, ltb, if◌then◌else◌, Bytes,
}

-- An int32 as its bit pattern.
unfoldable pub hash_bkrd : Bytes → ℕ
hash_bkrd s = foldl (λ hash c. (hash * 131 + c) % 2 ^ 32) 0 s

-- `maskOfNextPowOf2`: shifts and ors of a uint16 stay below 2 ^ 16.
unfoldable pub mask_of_next_pow_of2 : ℕ → ℕ
mask_of_next_pow_of2 cap =
    let a = bit_or cap (cap / 2) in
    let b = bit_or a (a / 4) in
    let c = bit_or b (b / 16) in
    if ltb 0 cap && nat_beq (bit_and cap (cap - 1)) 0 then cap - 1 else bit_or c (c / 256)

-- A test that holds of every number up to a bound.
holds_to : (ℕ → Bool) → ℕ → Bool
holds_to test zero = true
holds_to test (suc bound) = holds_to test bound && test bound

holds_to_at :
    (test : ℕ → Bool) (bound i : ℕ) → i < bound → holds_to test bound ≡ true → test i ≡ true
unfolding holds_to
holds_to_at test zero i small all = absurd (omega arith)
holds_to_at test (suc bound) i small all = ground (arith, holds_to_at test bound i)

mask_test : ℕ → Bool
unfolding mask_of_next_pow_of2
mask_test cap =
    let mask = mask_of_next_pow_of2 cap in
    nat_beq (bit_and mask (mask + 1)) 0
    && (leb cap (mask + 1) && ((nat_beq cap 0 || ltb (mask + 1) (2 * cap)) && ltb mask (2 ^ 16)))

mask_table : holds_to mask_test (2 ^ 16) ≡ true
unfolding holds_to mask_test
mask_table = refl

overflow_test : ℕ → Bool
unfolding mask_of_next_pow_of2
overflow_test cap = leb cap (2 ^ 15) || nat_beq ((mask_of_next_pow_of2 cap + 1) % 2 ^ 16) 0

overflow_table : holds_to overflow_test (2 ^ 16) ≡ true
unfolding holds_to overflow_test
overflow_table = refl

-- For every capacity that fits 16 bits the mask is one less than a power of two, being disjoint in
-- bits from its successor; the number of buckets, one more than the mask, is at least the
-- capacity, and less than twice the capacity where that is not 0; and the mask fits 16 bits.
pub mask_bounds :
    (cap : ℕ)
    → cap < 2 ^ 16
    → (bit_and (mask_of_next_pow_of2 cap) (mask_of_next_pow_of2 cap + 1) ≡ 0)
      × (cap ≤ mask_of_next_pow_of2 cap + 1)
      × (0 < cap → mask_of_next_pow_of2 cap + 1 < 2 * cap)
      × (mask_of_next_pow_of2 cap < 2 ^ 16)
unfolding mask_test
mask_bounds cap small = ground (arith, holds_to_at mask_test (2 ^ 16) cap small mask_table)

-- Above 2 ^ 15 the mask is all ones, and the number of buckets, `mask+1` as a uint16, is 0.
pub mask_overflow :
    (cap : ℕ) → 2 ^ 15 < cap → cap < 2 ^ 16 → (mask_of_next_pow_of2 cap + 1) % 2 ^ 16 ≡ 0
unfolding overflow_test
mask_overflow cap large small =
    ground (arith, holds_to_at overflow_test (2 ^ 16) cap small overflow_table)
