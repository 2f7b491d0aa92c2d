-- ===== src/ConsistentHash/Ring/Removal.antt =====
-- What `Remove` of con_hash.go leaves on the ring.
use go.Common.{
  ℕ, zero, suc, ◌+◌, ◌-◌, ◌≤◌, ◌<◌, ◌≡◌, ◌≢◌, ◌⊎◌, inl, inr, refl, ◌∙◌, true, false, none, some,
  List, [], ◌∷◌, arith, nat_beq, Bytes, bytes_beq, bytes_beq_iff, bytes_eq, nat_eq, is_some,
  Bool-cases, Option-cases, if◌then◌else◌, All,
}
use go.Common.Map.{lookup, delete, lookup-delete}
use go.ConsistentHash.Ring.{
  Ring, virtual_hash, erase_first, remove_replicas, remove, replicas_of, has_node, not_found,
  invalid_node,
}
use go.ConsistentHash.Ring.Members.{IsValid}
use go.ConsistentHash.Sorting.{IsSorted, count}

All-erase_first :
    (b h : ℕ) (xs : List ℕ) → All (λ y. b ≤ y) xs → All (λ y. b ≤ y) (erase_first h xs)
unfolding erase_first
All-erase_first b h [] a = tt
All-erase_first b h (x ∷ xs) a = elim (Bool-cases (nat_beq x h)) [
  | inl e ↦ rw e a.1
  | inr e ↦ rw e (a.0, All-erase_first b h xs a.1)
]

erase_first-IsSorted : (h : ℕ) (xs : List ℕ) → IsSorted xs → IsSorted (erase_first h xs)
unfolding erase_first
erase_first-IsSorted h [] s = tt
erase_first-IsSorted h (x ∷ xs) s = elim (Bool-cases (nat_beq x h)) [
  | inl e ↦ rw e s.1
  | inr e ↦ rw e (All-erase_first x h xs s.0, erase_first-IsSorted h xs s.1)
]

pub count-erase_first :
    (a h : ℕ) (xs : List ℕ)
    → count a (erase_first h xs) ≡ (if nat_beq a h then count a xs - 1 else count a xs)
unfolding erase_first count
count-erase_first a h [] = ground arith
count-erase_first a h (x ∷ xs) = ground (arith, count-erase_first a h xs)

-- What `n` rounds of the loop from round `i` leave behind.
pub record Shrunk (node : Bytes) (n i : ℕ) (r r' : Ring) : Type 0 where
  pub config : r'.config ≡ r.config
  pub replicas : r'.node_replicas ≡ r.node_replicas
  pub sorted : IsSorted r.hashes → IsSorted r'.hashes
  pub fewer : (h : ℕ) → count h r'.hashes ≤ count h r.hashes
  pub gone :
      (j : ℕ)
      → i ≤ j
      → j < i + n
      → count (virtual_hash r.config node j) r.hashes ≤ 1
      → count (virtual_hash r.config node j) r'.hashes ≡ 0
  pub before : (h : ℕ) (x : Bytes) → lookup h r'.hash_map ≡ some x → lookup h r.hash_map ≡ some x
  pub spared :
      (h : ℕ)
      → ((j : ℕ) → i ≤ j → j < i + n → virtual_hash r.config node j ≢ h)
      → lookup h r'.hash_map ≡ lookup h r.hash_map

pub remove_replicas-Shrunk :
    (node : Bytes) (n i : ℕ) (r : Ring) → Shrunk node n i r (remove_replicas node n i r)
unfolding remove_replicas
remove_replicas-Shrunk node zero i r = record {
  config = refl;
  replicas = refl;
  sorted = λ s. s;
  fewer = λ h. omega arith;
  gone = λ j lo hi one. absurd (omega arith);
  before = λ h x e. e;
  spared = λ h apart. refl;
}
remove_replicas-Shrunk node (suc n) i r =
    let hash = virtual_hash r.config node i in
    let r1 = record r { hash_map = delete hash r.hash_map; hashes = erase_first hash r.hashes } in
    let e = remove_replicas-Shrunk node n (i + 1) r1 in
    record {
      config = e.config;
      replicas = e.replicas;
      sorted = λ s. e.sorted (erase_first-IsSorted hash r.hashes s);
      fewer = λ h. ground (arith, e.fewer h, count-erase_first h hash r.hashes);
      gone = λ j lo hi one. elim (Bool-cases (nat_beq i j)) [
        | inl here ↦
            let same : j ≡ i = ground arith in
            rw same
              (ground (arith, e.fewer hash, count-erase_first hash hash r.hashes, (rw same at one)))
        | inr later ↦
            e.gone j (ground arith) (omega arith)
              (ground (arith, count-erase_first (virtual_hash r.config node j) hash r.hashes))
      ];
      before = λ h x l. ground (arith, e.before h x l, lookup-delete hash h r.hash_map);
      spared = λ h apart.
          e.spared h (λ j lo hi. apart j (omega arith) (omega arith))
          ∙ ground (arith, lookup-delete hash h r.hash_map, apart i (omega arith) (omega arith));
    }

module _ (node : Bytes) (r : Ring) (v : IsValid r)
    (single : (j : ℕ)
      → j < replicas_of node r
      → count (virtual_hash r.config node j) r.hashes ≤ 1) where
  abbrev shrunk : Ring
  shrunk = remove_replicas node (replicas_of node r) 0 r

  facts : Shrunk node (replicas_of node r) 0 r shrunk
  facts = remove_replicas-Shrunk node (replicas_of node r) 0 r

  -- A hash that is left is none of the removed node's.
  apart :
      (h : ℕ)
      → 0 < count h shrunk.hashes
      → (j : ℕ) → j < replicas_of node r
      → virtual_hash r.config node j ≢ h
  apart h on j lt e =
      let none_left = facts.gone j (omega arith) (omega arith) (single j lt) in
      let none_left' : count h shrunk.hashes ≡ 0 = rw e at none_left in omega arith

  replicas-uniform : replicas_of node r ≢ 0 → replicas_of node r ≡ r.config.default_replicas
  replicas-uniform some_replicas = elim (Option-cases (lookup node r.node_replicas)) [
    | inl e ↦ absurd (some_replicas (rw e refl))
    | inr (n, e) ↦ rw e (v.linked.uniform node n e)
  ]

  -- The owner of a hash that is left: the one it had, and another than the removed node.
  left_owner :
      replicas_of node r ≢ 0
      → (h : ℕ) → 0 < count h shrunk.hashes
      → (x : Bytes) × (lookup h shrunk.hash_map ≡ some x) × (has_node r x ≡ true) × (x ≢ node)
  left_owner some_replicas h on =
      let (x, owner, known) = v.linked.owned h (omega (arith, facts.fewer h)) in
      let kept = facts.spared h (λ j lo hi. apart h on j (omega arith)) in
      (
        x,
        kept ∙ owner,
        known,
        λ same.
            let (i, lt, e) = v.linked.named h x owner in
            apart h on i (omega (arith, replicas-uniform some_replicas)) (rw same at e),
      )

  has_node-delete :
      (x : Bytes)
      → x ≢ node
      → has_node r x ≡ true
      → is_some (lookup x (delete node shrunk.node_replicas)) ≡ true
  unfolding has_node
  has_node-delete x other known =
      rw (lookup-delete, facts.replicas) (ground (arith, bytes_beq_iff node x))

  -- On a well-formed ring on which no virtual node of the node shares its hash, `Remove` of a
  -- registered node succeeds, keeps the ring well formed, unregisters the node, and leaves no hash
  -- on the ring that the node owns.
  pub remove-IsValid :
      node ≢ []
      → replicas_of node r ≢ 0
      → ((remove node r).0 ≡ none)
        × IsValid (remove node r).1
        × (has_node (remove node r).1 node ≡ false)
        × ((h : ℕ)
            → 0 < count h (remove node r).1.hashes
            → lookup h (remove node r).1.hash_map ≢ some node)
  unfolding remove has_node
  remove-IsValid named some_replicas =
      let open_guard : bytes_beq node [] ≡ false = ground (arith, bytes_beq_iff node []) in
      let registered : nat_beq (replicas_of node r) 0 ≡ false = ground arith in
      rw (open_guard, registered)
        (
          refl,
          record {
            sorted = facts.sorted v.sorted;
            linked = record {
              owned = λ h on.
                  let (x, owner, known, other) = left_owner some_replicas h on in
                  (x, owner, has_node-delete x other known);
              named = λ h x l. rw facts.config (v.linked.named h x (facts.before h x l));
              uniform = λ x n l. rw facts.config (
                  ground (
                    arith,
                    v.linked.uniform x n,
                    facts.replicas,
                    lookup-delete node x shrunk.node_replicas,
                  ));
            };
          },
          rw lookup-delete (ground (arith, bytes_beq_iff node node)),
          λ h on e.
              let (x, owner, known, other) = left_owner some_replicas h on in other (ground arith),
        )

-- `Remove` of the empty name or of a node with no replicas reports an error and changes nothing.
pub remove-error :
    (node : Bytes) (r : Ring)
    → (node ≡ []) ⊎ (replicas_of node r ≡ 0)
    → ((remove node r).1 ≡ r)
      × (((remove node r).0 ≡ some invalid_node) ⊎ ((remove node r).0 ≡ some not_found))
unfolding remove
remove-error node r why = ground (arith, bytes_beq_iff node [])
