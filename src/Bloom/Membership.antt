-- ===== src/Bloom/Membership.antt =====
-- What `Add`, `Contains` and `Reset` of bloom.go promise on a well-formed filter.
use go.Common.{
  ℕ, ◌+◌, ◌*◌, ◌/◌, ◌%◌, ◌^◌, ◌≤◌, ◌<◌, ◌≡◌, refl, ap, true, false, some, List, [], ◌∷◌, ◌⊎◌, inl,
  inr, arith, length, get_or, map, length-replicate, Bytes, contains, bytes_beq, Bool-cases,
  bytes_beq_iff, bytes_eq,
}
use go.Common.Bits.{bit-zero}
use go.Bloom.{
  stats, ones_in, ones_count, popcount, BloomFilter, hash_pair, new, add, add_all, may_contain,
  reset, position, count_of,
}
use go.Bloom.Marks.{bit_at, add_loop-Filled, contains_loop-of_all, contains_loop-of_zero}

-- There is a position, a word for every position, and a round of hashing.
pub record IsValid (bf : BloomFilter) : Type 0 where
  pub some_bits : 0 < bf.m
  pub room : bf.m ≤ 64 * length bf.bits
  pub some_rounds : 0 < bf.k

-- A filter for at least one bit, of a size whose rounding up does not overflow, is well formed.
pub new-IsValid : (m k : ℕ) → 0 < m → m + 63 < 2 ^ 64 → IsValid (new m k)
unfolding new
new-IsValid m k some_bits fits = record {
  some_bits = some_bits;
  room = omega (arith, length-replicate {A = ℕ} ((m + 63) % 2 ^ 64 / 64) 0);
  some_rounds = ground arith;
}

-- All positions of the key are marked.
abbrev pub Holds : Bytes → BloomFilter → Type 0
Holds key bf = (j : ℕ) → j < bf.k → bit_at bf.bits (position (hash_pair key) bf.m j) ≡ 1

pub may_contain-of_Holds :
    (key : Bytes) (bf : BloomFilter) → IsValid bf → Holds key bf → may_contain key bf ≡ some true
unfolding may_contain
may_contain-of_Holds key bf v h =
    contains_loop-of_all (hash_pair key) bf.m v.some_bits bf.k 0 bf.bits v.room
      (λ j lo hi. h j (omega arith))

-- What one `Add` does.
pub record Added (key : Bytes) (bf bf' : BloomFilter) : Type 0 where
  pub valid : IsValid bf'
  pub counted : count_of bf' ≡ (count_of bf + 1) % 2 ^ 64
  pub holds : Holds key bf'
  pub keeps : (other : Bytes) → Holds other bf → Holds other bf'

pub add-Added :
    (key : Bytes) (bf : BloomFilter)
    → IsValid bf
    → (bf' : BloomFilter) × (add key bf ≡ some bf') × Added key bf bf'
unfolding add
add-Added key bf v =
    let (bits, done, f) = add_loop-Filled (hash_pair key) bf.m v.some_bits bf.k 0 bf.bits v.room in
    (
      record bf { bits = bits; count = (bf.count + 1) % 2 ^ 64 },
      rw (done, add),
      record {
        valid = record {
          some_bits = v.some_bits;
          room = omega (arith, v.room, f.same_length);
          some_rounds = v.some_rounds;
        };
        counted = refl;
        holds = λ j lt. f.all j (omega arith) (omega arith);
        keeps = λ other h j lt. f.keeps (position (hash_pair other) bf.m j) (h j lt);
      },
    )

pub add_all-keeps :
    (ks : List Bytes) (bf : BloomFilter)
    → IsValid bf
    → (bf' : BloomFilter) × (add_all ks bf ≡ some bf')
      × IsValid bf'
      × ((key : Bytes) → (Holds key bf ⊎ (contains ks key ≡ true)) → Holds key bf')
unfolding add_all contains
add_all-keeps [] bf v = (bf, refl, v, λ key o. elim o [ inl h ↦ h | inr e ↦ absurd (ground arith) ])
add_all-keeps (k ∷ ks) bf v =
    let (one, added, a) = add-Added k bf v in
    let (all, rest, v', keeps) = add_all-keeps ks one a.valid in
    (all, rw (added, add_all) rest, v', λ key o. keeps key (first key o))
  where
    one' : (bf' : BloomFilter) × (add k bf ≡ some bf') × Added k bf bf'
    one' = add-Added k bf v

    first :
        (key : Bytes)
        → (Holds key bf ⊎ (contains (k ∷ ks) key ≡ true))
        → Holds key one'.0 ⊎ (contains ks key ≡ true)
    first key (inl h) = inl (one'.2.keeps key h)
    first key (inr e) = elim (Bool-cases (bytes_beq k key)) [
      | inl same ↦ inl (rw (← (bytes_beq_iff k key).0 same) one'.2.holds)
      | inr other ↦ inr (ground arith)
    ]

-- No false negatives: after any sequence of `Add` calls on a well-formed filter, none of which
-- panics, `Contains` answers true for every key that was added.
pub contains-add_all :
    (ks : List Bytes) (key : Bytes) (bf : BloomFilter)
    → IsValid bf
    → contains ks key ≡ true
    → (bf' : BloomFilter) × (add_all ks bf ≡ some bf') × (may_contain key bf' ≡ some true)
contains-add_all ks key bf v member =
    let (bf', done, v', keeps) = add_all-keeps ks bf v in
    (bf', done, may_contain-of_Holds key bf' v' (keeps key (inr member)))

-- On a well-formed filter `Add` does not panic, keeps it well formed, adds one to the count modulo
-- 2 ^ 64, and every key whose lookup found all its bits marked still has them all.
pub add-Holds :
    (key : Bytes) (bf : BloomFilter)
    → IsValid bf
    → (bf' : BloomFilter) × (add key bf ≡ some bf')
      × IsValid bf'
      × (count_of bf' ≡ (count_of bf + 1) % 2 ^ 64)
      × ((other : Bytes) → Holds other bf → may_contain other bf' ≡ some true)
add-Holds key bf v =
    let (bf', done, a) = add-Added key bf v in
    (
      bf',
      done,
      a.valid,
      a.counted,
      λ other h. may_contain-of_Holds other bf' a.valid (a.keeps other h),
    )

get_or-map-zero : (bits : List ℕ) (i : ℕ) → get_or (map (λ (b : ℕ). ℕ.zero) bits) i 0 ≡ 0
get_or-map-zero [] i = refl
get_or-map-zero (b ∷ bits) ℕ.zero = refl
get_or-map-zero (b ∷ bits) (ℕ.suc i) = get_or-map-zero bits i

length-map-zero : (bits : List ℕ) → length (map (λ (b : ℕ). ℕ.zero) bits) ≡ length bits
length-map-zero [] = refl
length-map-zero (b ∷ bits) = ap ℕ.suc (length-map-zero bits)

ones_count-zero : (digits : ℕ) → ones_count digits 0 ≡ 0
unfolding ones_count
ones_count-zero ℕ.zero = refl
ones_count-zero (ℕ.suc digits) = omega (arith, ones_count-zero digits)

ones_in-zero : (bits : List ℕ) → ones_in (map (λ (b : ℕ). ℕ.zero) bits) ≡ 0
unfolding ones_in popcount
ones_in-zero [] = refl
ones_in-zero (b ∷ bits) = omega (arith, ones_in-zero bits, ones_count-zero 64)

-- After `Reset` a well-formed filter is still well formed, counts no items, answers false for every
-- key, and its `Stats` find no bit that is set and the sizes that it had before.
pub reset_lem :
    (bf : BloomFilter)
    → IsValid bf
    → IsValid (reset bf)
      × (count_of (reset bf) ≡ 0)
      × ((key : Bytes) → may_contain key (reset bf) ≡ some false)
      × (stats (reset bf) ≡ record { bits = bf.m; hash_funcs = bf.k; items = 0; ones = 0 })
unfolding reset may_contain stats
reset_lem bf v =
    let room : bf.m ≤ 64 * length (map (λ (b : ℕ). ℕ.zero) bf.bits) =
      omega (arith, v.room, length-map-zero bf.bits) in
    (
      record { some_bits = v.some_bits; room = room; some_rounds = v.some_rounds },
      refl,
      λ key.
          contains_loop-of_zero (hash_pair key) bf.m v.some_bits bf.k 0 _ room v.some_rounds
            (rw get_or-map-zero (bit-zero _)),
      ground (arith, ones_in-zero bf.bits),
    )
