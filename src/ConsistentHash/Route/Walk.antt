-- ===== src/ConsistentHash/Route/Walk.antt =====
-- The walk around the ring of `GetN` and `GetNHealthy` in con_hash.go.
use go.Common.{
  ℕ, zero, suc, ◌+◌, ◌-◌, ◌%◌, ◌≤◌, ◌<◌, ◌≡◌, inl, inr, refl, sym, Bool, true, false, not, ◌&&◌,
  List, [], ◌∷◌, ◌++◌, arith, nat_beq, ltb, length, Bytes, bytes_beq_iff, contains, All, bytes_eq,
  ◌||◌, All-append, Bool-cases, length-append,
}
use mathlib.Core.List.{append-nil, append_assoc}
use go.ConsistentHash.Ring.{Ring}
use go.ConsistentHash.Route.{node_at, get_n_loop}

-- No element occurs twice.
abbrev pub Distinct : List Bytes → Type 0
Distinct [] = Unit
Distinct (x ∷ xs) = (contains xs x ≡ false) × Distinct xs

pub contains-append :
    (xs ys : List Bytes) (x : Bytes) → contains (xs ++ ys) x ≡ (contains xs x || contains ys x)
unfolding contains
contains-append [] ys x = refl
contains-append (z ∷ xs) ys x = ground (arith, contains-append xs ys x)

Distinct-snoc :
    (xs : List Bytes) (x : Bytes) → Distinct xs → contains xs x ≡ false → Distinct (xs ++ x ∷ [])
unfolding contains
Distinct-snoc [] x d e = (refl, tt)
Distinct-snoc (z ∷ xs) x d e = (
  ground (arith, contains-append xs (x ∷ []) z, bytes_beq_iff z x, bytes_beq_iff x z),
  Distinct-snoc xs x d.1 (ground arith),
)

-- A node that passes the test and has a virtual node on the ring.
abbrev pub IsGood : (Bytes → Bool) → Ring → Bytes → Type 0
IsGood admit r x = (admit x ≡ true) × ((j : ℕ) × (j < length r.hashes) × (node_at r j ≡ x))

module _ (admit : Bytes → Bool) (r : Ring) (idx limit : ℕ) where
  -- The node that round `j` looks at.
  abbrev pub visited : ℕ → Bytes
  visited j = node_at r ((idx + j) % length r.hashes)

  -- What `n` rounds from round `i` make of the result so far.
  pub record Walked (n i : ℕ) (result out : List Bytes) : Type 0 where
    pub bounded : length result ≤ limit → length out ≤ limit
    pub distinct : Distinct out
    pub good : All (IsGood admit r) out
    pub more : List Bytes
    pub extends : out ≡ result ++ more
    pub complete :
        length out < limit
        → (j : ℕ) → i ≤ j
        → j < i + n
        → admit (visited j) ≡ true
        → contains out (visited j) ≡ true

  Walked-done :
      (n i : ℕ) (result : List Bytes)
      → Distinct result
      → All (IsGood admit r) result
      → ((length result < limit) → n ≡ 0)
      → Walked n i result result
  Walked-done n i result d g stop = record {
    bounded = λ b. b;
    distinct = d;
    good = g;
    more = [];
    extends = sym (append-nil result);
    complete = λ room j lo hi a. absurd (omega (arith, stop room));
  }

  -- A round that takes its node, and one that passes it over.
  Walked-take :
      (n i : ℕ) (result out : List Bytes)
      → length result < limit
      → Walked n (i + 1) (result ++ visited i ∷ []) out
      → Walked (suc n) i result out
  unfolding contains
  Walked-take n i result out room w = record {
    bounded = λ _. w.bounded (omega (arith, length-append result (visited i ∷ [])));
    distinct = w.distinct;
    good = w.good;
    more = visited i ∷ w.more;
    extends = rw (← append_assoc result (visited i ∷ []) w.more) w.extends;
    complete = λ short j lo hi a. elim (Bool-cases (nat_beq i j)) [
      | inl here ↦
          let same : j ≡ i = ground arith in
          rw (same, w.extends)
            (ground (
              arith,
              contains-append (result ++ visited i ∷ []) w.more (visited i),
              contains-append result (visited i ∷ []) (visited i),
              bytes_beq_iff (visited i) (visited i),
            ))
      | inr later ↦ w.complete short j (ground arith) (omega arith) a
    ];
  }

  Walked-skip :
      (n i : ℕ) (result out : List Bytes)
      → (admit (visited i) ≡ true → contains result (visited i) ≡ true)
      → Walked n (i + 1) result out
      → Walked (suc n) i result out
  Walked-skip n i result out old w = record {
    bounded = w.bounded;
    distinct = w.distinct;
    good = w.good;
    more = w.more;
    extends = w.extends;
    complete = λ short j lo hi a. elim (Bool-cases (nat_beq i j)) [
      | inl here ↦
          let same : j ≡ i = ground arith in
          let a' : admit (visited i) ≡ true = rw same at a in
          rw (same, w.extends) (ground (arith, contains-append result w.more (visited i), old a'))
      | inr later ↦ w.complete short j (ground arith) (omega arith) a
    ];
  }

  module _ (nonempty : 0 < length r.hashes) where
    pub get_n_loop-Walked :
        (n i : ℕ) (seen result : List Bytes)
        → ((x : Bytes) → contains seen x ≡ contains result x)
        → Distinct result
        → All (IsGood admit r) result
        → Walked n i result (get_n_loop admit r idx limit n i seen result)
    unfolding get_n_loop contains
    get_n_loop-Walked zero i seen result same d g = Walked-done zero i result d g (λ _. refl)
    get_n_loop-Walked (suc n) i seen result same d g =
        elim (Bool-cases (ltb (length result) limit)) [
          | inr full ↦ rw full (Walked-done (suc n) i result d g (λ room. absurd (ground arith)))
          | inl room ↦ elim (Bool-cases (not (contains seen (visited i)) && admit (visited i))) [
            | inl fresh ↦
                rw (room, fresh)
                  (Walked-take n i result _ (ground arith) (
                    get_n_loop-Walked n (i + 1) (visited i ∷ seen) (result ++ visited i ∷ [])
                      (λ x. ground (arith, same x, contains-append result (visited i ∷ []) x))
                      (Distinct-snoc result (visited i) d (ground (arith, same (visited i))))
                      (All-append (IsGood admit r) result (visited i ∷ []) g
                        ((ground arith, ((idx + i) % length r.hashes, omega arith, refl)), tt))))
            | inr stale ↦
                rw (room, stale)
                  (Walked-skip n i result _ (λ a. ground (arith, same (visited i)))
                    (get_n_loop-Walked n (i + 1) seen result same d g))
          ]
        ]

-- Every virtual node is visited within one turn.
pub turn : (idx j n : ℕ) → idx < n → j < n → (i : ℕ) × (i < n) × ((idx + i) % n ≡ j)
turn idx j n hi hj = elim (Bool-cases (ltb j idx)) [
  | inl before ↦ (j + n - idx, ground arith, wrapped (ground arith))
  | inr after ↦ (j - idx, ground arith, direct (ground arith))
]
  where
    wrapped : j < idx → (idx + (j + n - idx)) % n ≡ j
    wrapped lt = let e : idx + (j + n - idx) ≡ j + n = omega arith in rw e (grind arith)

    direct : idx ≤ j → (idx + (j - idx)) % n ≡ j
    direct le = let e : idx + (j - idx) ≡ j = omega arith in rw e (grind arith)

-- What a walk of one full turn returns, as a set of nodes.
pub record Picks (admit : Bytes → Bool) (r : Ring) (limit : ℕ) (out : List Bytes) : Type 0 where
  pub bounded : length out ≤ limit
  pub distinct : Distinct out
  pub good : All (IsGood admit r) out
  pub complete :
      length out < limit
      → (j : ℕ) → j < length r.hashes
      → admit (node_at r j) ≡ true
      → contains out (node_at r j) ≡ true
