-- ===== src/Bloom.antt =====
-- cache/bloomfilter/bloom.go: the filter's words, `Add`, `Contains`, `Reset`, `Count`.
-- The lock is not modelled: each method runs whole under `bf.mu`. `none` is a run-time panic
-- (division by zero, index out of range).
pub mod Marks
pub mod Membership
use Prim.Native.Nat.{bit_and, bit_or, bit_xor}
use mathlib.Core.List.{foldl}
use go.Common.{
  ℕ, zero, suc, ◌+◌, ◌*◌, ◌/◌, ◌%◌, ◌^◌, Bool, true, false, Option, none, some, List, [], ◌∷◌, ◌++◌,
  nat_beq, ltb, if◌then◌else◌, length, get_or, set, replicate, map, Bytes,
}

pub record BloomFilter : Type 0 where
  pub bits : List ℕ  -- uint64 words
  pub m : ℕ
  pub k : ℕ
  pub count : ℕ

-- `hash/fnv`: New64a, Write, Sum64
unfoldable pub fnv64 : Bytes → ℕ
fnv64 input = foldl (λ h b. bit_xor h b * 0x100000001b3 % 2 ^ 64) 0xcbf29ce484222325 input

unfoldable pub hash_pair : Bytes → ℕ × ℕ
hash_pair key = (fnv64 (key ++ 0 ∷ []), fnv64 (key ++ 1 ∷ []))

-- `New` from the values of its two floating-point formulas, already converted to uint64.
unfoldable pub new : (bit_count hash_count : ℕ) → BloomFilter
new bit_count hash_count = record {
  bits = replicate ((bit_count + 63) % 2 ^ 64 / 64) 0;
  m = bit_count;
  k = if nat_beq hash_count 0 then 1 else hash_count;
  count = 0;
}

-- `(h1 + i*h2) % bf.m`, with m ≠ 0
abbrev pub position : ℕ × ℕ → ℕ → ℕ → ℕ
position (h1, h2) m i = (h1 + i * h2 % 2 ^ 64) % 2 ^ 64 % m

-- `bf.bits[idx] |= 1 << bit`
unfoldable pub mark : ℕ → List ℕ → Option (List ℕ)
mark pos bits =
    if ltb (pos / 64) (length bits)
    then some (set bits (pos / 64) (bit_or (get_or bits (pos / 64) 0) (2 ^ (pos % 64))))
    else none

-- The loop of `add`, with `n` rounds left from round `i`.
unfoldable pub add_loop : ℕ × ℕ → ℕ → (n i : ℕ) → List ℕ → Option (List ℕ)
add_loop h m zero i bits = some bits
add_loop h m (suc n) i bits = if nat_beq m 0 then none else elim (mark (position h m i) bits) [
  | none ↦ none
  | some bits' ↦ add_loop h m n (i + 1) bits'
]

unfoldable pub add : Bytes → BloomFilter → Option BloomFilter
add key bf = elim (add_loop (hash_pair key) bf.m bf.k 0 bf.bits) [
  | none ↦ none
  | some bits ↦ some (record bf { bits = bits; count = (bf.count + 1) % 2 ^ 64 })
]

-- The loop of `Contains`.
unfoldable pub contains_loop : ℕ × ℕ → ℕ → (n i : ℕ) → List ℕ → Option Bool
contains_loop h m zero i bits = some true
contains_loop h m (suc n) i bits =
    if nat_beq m 0
    then none
    else (let pos = position h m i in
        let rest = contains_loop h m n (i + 1) bits in
        if ltb (pos / 64) (length bits)
        then (if nat_beq (bit_and (get_or bits (pos / 64) 0) (2 ^ (pos % 64))) 0
            then some false
            else rest)
        else none)

unfoldable pub may_contain : Bytes → BloomFilter → Option Bool
may_contain key bf = contains_loop (hash_pair key) bf.m bf.k 0 bf.bits

abbrev pub count_of : BloomFilter → ℕ
count_of bf = bf.count

unfoldable pub reset : BloomFilter → BloomFilter
reset bf = record bf { bits = map (λ (b : ℕ). zero) bf.bits; count = 0 }

-- `bits.OnesCount64`, over the digits from the lowest.
unfoldable pub ones_count : (digits x : ℕ) → ℕ
ones_count zero x = 0
ones_count (suc digits) x = x % 2 + ones_count digits (x / 2)

unfoldable pub popcount : ℕ → ℕ
popcount x = ones_count 64 x

-- The loop of `Stats`.
unfoldable pub ones_in : List ℕ → ℕ
ones_in [] = 0
ones_in (w ∷ ws) = (popcount w + ones_in ws) % 2 ^ 64

-- `Stats`, with the fill rate as the two numbers that are divided where `m` is not 0.
pub record Report : Type 0 where
  pub bits : ℕ
  pub hash_funcs : ℕ
  pub items : ℕ
  pub ones : ℕ

unfoldable pub stats : BloomFilter → Report
stats bf = record { bits = bf.m; hash_funcs = bf.k; items = bf.count; ones = ones_in bf.bits }

-- `Add` of several keys in turn.
unfoldable pub add_all : List Bytes → BloomFilter → Option BloomFilter
add_all [] bf = some bf
add_all (key ∷ ks) bf = elim (add key bf) [ none ↦ none | some bf' ↦ add_all ks bf' ]
