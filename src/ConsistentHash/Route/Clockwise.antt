-- ===== src/ConsistentHash/Route/Clockwise.antt =====
-- Where a lookup of con_hash.go lands: the clockwise successor of the key's hash.
use go.Common.{
  ℕ, ◌+◌, ◌≤◌, ◌<◌, ◌≡◌, ◌≢◌, ◌⊎◌, inl, inr, refl, true, false, [], arith, nat_beq, ltb, leb,
  length, get_or, Bytes, Bool-cases, bytes_beq, bytes_beq_iff,
}
use go.ConsistentHash.Ring.{Ring}
use go.ConsistentHash.Route.{start_index, node_at, get}
use go.ConsistentHash.Sorting.{IsSorted, search, search-Found, get_or_mono}

-- The first virtual node at or after the hash, or index 0 where all lie before it.
abbrev pub Successor : Ring → ℕ → ℕ → Type 0
Successor r hash i =
    ((hash ≤ get_or r.hashes i 0) × ((q : ℕ) → q < i → get_or r.hashes q 0 < hash))
    ⊎ ((i ≡ 0) × ((q : ℕ) → q < length r.hashes → get_or r.hashes q 0 < hash))

pub start_index-Successor :
    (key : Bytes) (r : Ring)
    → IsSorted r.hashes
    → 0 < length r.hashes
    → (start_index key r < length r.hashes)
      × Successor r (r.config.hash_func key) (start_index key r)
unfolding start_index
start_index-Successor key r sorted nonempty = split
  where
    hash : ℕ
    hash = r.config.hash_func key

    n : ℕ
    n = length r.hashes

    f : ℕ → go.Common.Bool
    f i = leb hash (get_or r.hashes i 0)

    idx : ℕ
    idx = search n f 0 n

    found : go.ConsistentHash.Sorting.Found f n idx
    found =
        search-Found f n (λ p q le lt t. ground (arith, get_or_mono r.hashes p q sorted le lt)) n 0
          n (omega arith) (omega arith) (omega arith) (λ q lt. absurd (omega arith))
          (λ lt. absurd (omega arith))

    split :
        (go.Common.if◌then◌else◌ (nat_beq idx n) 0 idx < n)
        × Successor r hash (go.Common.if◌then◌else◌ (nat_beq idx n) 0 idx)
    split = elim (Bool-cases (nat_beq idx n)) [
      | inl end ↦
          rw end (nonempty, inr (refl, λ q lt. ground (arith, found.below q (ground arith))))
      | inr inside ↦
          let lt : idx < n = ground (arith, found.within) in
          rw inside
            (lt, inl (ground (arith, found.at lt), λ q ql. ground (arith, found.below q ql)))
    ]

-- On a ring that is sorted and not empty, `Get` of a key that is not empty returns the owner of the
-- virtual node that succeeds the key's hash clockwise: the first one at or after the hash, and the
-- lowest one of all where every virtual node lies before the hash.
pub get-Successor :
    (key : Bytes) (r : Ring)
    → key ≢ []
    → IsSorted r.hashes
    → 0 < length r.hashes
    → (i : ℕ) × (i < length r.hashes)
      × Successor r (r.config.hash_func key) i
      × ((get key r).0 ≡ node_at r i)
unfolding get
get-Successor key r named sorted nonempty =
    let (lt, next) = start_index-Successor key r sorted nonempty in
    (start_index key r, lt, next, ground (arith, bytes_beq_iff key []))
