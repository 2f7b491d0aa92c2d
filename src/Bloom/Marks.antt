-- ===== src/Bloom/Marks.antt =====
-- The loops of bloom.go over one pair of hashes: which positions are marked.
use Prim.Native.Nat.{bit_and, bit_or}
use native.Mathlib.Nat.{one-le-pow}
use go.Common.{
  ℕ, zero, suc, ◌∙◌, ◌+◌, ◌*◌, ◌/◌, ◌%◌, ◌^◌, ◌≤◌, ◌<◌, ◌≡◌, refl, true, false, some, List, inl,
  inr, arith, nat_beq, ltb, length, get_or, set, length-set, get_or-set_self, get_or-set_ne,
  Bool-cases, lt→ltb,
}
use go.Common.Bits.{bit, bit-lt-two, bit-bit_or, bit-pow_self, bit_and-pow}
use go.Bloom.{position, mark, add_loop, contains_loop}

-- The bit at a position of the filter.
abbrev pub bit_at : List ℕ → ℕ → ℕ
bit_at bits pos = bit (get_or bits (pos / 64) 0) (pos % 64)

-- Marking keeps every bit that is set, and sets its own.
pub record Marked (bits bits' : List ℕ) (pos : ℕ) : Type 0 where
  pub same_length : length bits' ≡ length bits
  pub own : bit_at bits' pos ≡ 1
  pub keeps : (q : ℕ) → bit_at bits q ≡ 1 → bit_at bits' q ≡ 1

bit-bit_or_left : (a b k : ℕ) → bit a k ≡ 1 → bit (bit_or a b) k ≡ 1
bit-bit_or_left a b k h = omega (arith, bit-bit_or a b k, bit-lt-two b k)

bit-bit_or_right : (a b k : ℕ) → bit b k ≡ 1 → bit (bit_or a b) k ≡ 1
bit-bit_or_right a b k h = omega (arith, bit-bit_or a b k, bit-lt-two a k)

set_keeps :
    (bits : List ℕ) (i b q : ℕ)
    → i < length bits
    → bit_at bits q ≡ 1
    → bit_at (set bits i (bit_or (get_or bits i 0) b)) q ≡ 1
set_keeps bits i b q h e = elim (Bool-cases (nat_beq i (q / 64))) [
  | inl same ↦
      let here : q / 64 ≡ i = ground arith in
      rw (here, get_or-set_self, h) (bit-bit_or_left (get_or bits i 0) b (q % 64) (rw here at e))
  | inr other ↦ rw (get_or-set_ne bits i (q / 64) _ 0 (ground arith)) e
]

pub mark-Marked :
    (pos : ℕ) (bits : List ℕ)
    → pos < 64 * length bits
    → (bits' : List ℕ) × (mark pos bits ≡ some bits') × Marked bits bits' pos
unfolding mark
mark-Marked pos bits h =
    let inside : pos / 64 < length bits = omega arith in
    let word = get_or bits (pos / 64) 0 in
    (
      set bits (pos / 64) (bit_or word (2 ^ (pos % 64))),
      rw (lt→ltb _ _ inside),
      record {
        same_length = length-set bits _ _;
        own =
            rw (get_or-set_self bits (pos / 64) (bit_or word (2 ^ (pos % 64))) 0 inside)
              (bit-bit_or_right word _ _ (bit-pow_self (pos % 64)));
        keeps = λ q e. set_keeps bits (pos / 64) _ q inside e;
      },
    )

module _ (h : ℕ × ℕ) (m : ℕ) (some_bits : 0 < m) where
  pub position-lt : (i : ℕ) → position h m i < m
  position-lt i = omega arith

  -- What `n` rounds of `add` from round `i` leave behind.
  pub record Filled (n i : ℕ) (bits bits' : List ℕ) : Type 0 where
    pub same_length : length bits' ≡ length bits
    pub all : (j : ℕ) → i ≤ j → j < i + n → bit_at bits' (position h m j) ≡ 1
    pub keeps : (q : ℕ) → bit_at bits q ≡ 1 → bit_at bits' q ≡ 1

  pub add_loop-Filled :
      (n i : ℕ) (bits : List ℕ)
      → m ≤ 64 * length bits
      → (bits' : List ℕ) × (add_loop h m n i bits ≡ some bits') × Filled n i bits bits'
  unfolding add_loop
  add_loop-Filled zero i bits room = (
    bits,
    refl,
    record { same_length = refl; all = λ j lo hi. absurd (omega arith); keeps = λ q e. e },
  )
  add_loop-Filled (suc n) i bits room =
      let (one, marked, o) = mark-Marked (position h m i) bits (omega (arith, position-lt i)) in
      let (rest, filled, f) = add_loop-Filled n (i + 1) one (omega (arith, o.same_length)) in
      let nonzero : nat_beq m 0 ≡ false = ground arith in
      (
        rest,
        rw (nonzero, marked) filled,
        record {
          same_length = f.same_length ∙ o.same_length;
          all = λ j lo hi. elim (Bool-cases (nat_beq i j)) [
            | inl here ↦ let same : j ≡ i = ground arith in rw same (f.keeps (position h m i) o.own)
            | inr later ↦ f.all j (ground arith) (omega arith)
          ];
          keeps = λ q e. f.keeps q (o.keeps q e);
        },
      )

  -- `Contains` answers yes where all its positions are marked.
  pub contains_loop-of_all :
      (n i : ℕ) (bits : List ℕ)
      → m ≤ 64 * length bits
      → ((j : ℕ) → i ≤ j → j < i + n → bit_at bits (position h m j) ≡ 1)
      → contains_loop h m n i bits ≡ some true
  unfolding contains_loop
  contains_loop-of_all zero i bits room all = refl
  contains_loop-of_all (suc n) i bits room all =
      let pos = position h m i in
      let inside : ltb (pos / 64) (length bits) ≡ true =
        lt→ltb _ _ (omega (arith, position-lt i)) in
      let nonzero : nat_beq m 0 ≡ false = ground arith in
      let set' : nat_beq (bit_and (get_or bits (pos / 64) 0) (2 ^ (pos % 64))) 0 ≡ false =
        rw (bit_and-pow, all i (omega arith) (omega arith))
          (ground (arith, one-le-pow (pos % 64) 2)) in
      rw (nonzero, inside, set')
        (contains_loop-of_all n (i + 1) bits room (λ j lo hi. all j (omega arith) (omega arith)))

  -- It answers no at the first position that is not marked.
  pub contains_loop-of_zero :
      (n i : ℕ) (bits : List ℕ)
      → m ≤ 64 * length bits
      → 0 < n
      → bit_at bits (position h m i) ≡ 0
      → contains_loop h m n i bits ≡ some false
  unfolding contains_loop
  contains_loop-of_zero zero i bits room some_round clear = absurd (omega arith)
  contains_loop-of_zero (suc n) i bits room some_round clear =
      let pos = position h m i in
      let inside : ltb (pos / 64) (length bits) ≡ true =
        lt→ltb _ _ (omega (arith, position-lt i)) in
      let nonzero : nat_beq m 0 ≡ false = ground arith in
      let clear' : nat_beq (bit_and (get_or bits (pos / 64) 0) (2 ^ (pos % 64))) 0 ≡ true =
        rw (bit_and-pow, clear) (ground arith) in
      rw (nonzero, inside, clear')
