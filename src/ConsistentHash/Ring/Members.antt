-- ===== src/ConsistentHash/Ring/Members.antt =====
-- The invariant of the ring of con_hash.go, and that `Add` keeps it.
use go.Common.{
  ℕ, zero, suc, ◌+◌, ◌<◌, ◌≡◌, ◌⊎◌, inl, inr, refl, true, Option, some, ◌∙◌, List, [], ◌∷◌, ◌++◌,
  arith, nat_beq, Bytes, bytes_beq, bytes_beq_iff, bytes_eq, nat_eq, Bool-cases,
}
use go.Common.Map.{lookup, insert, lookup-insert}
use go.ConsistentHash.Defaults.{Config}
use go.ConsistentHash.Ring.{
  Ring, new, virtual_hash, add_replicas, add_node, add_nodes, add, has_node,
}
use go.ConsistentHash.Sorting.{IsSorted, count, sort_ints-IsSorted, count-sort_ints}

pub count-append : (a : ℕ) (xs ys : List ℕ) → count a (xs ++ ys) ≡ count a xs + count a ys
unfolding count
count-append a [] ys = omega arith
count-append a (x ∷ xs) ys = omega (arith, count-append a xs ys)

-- Every virtual node on the ring has an owner, and the owner is registered.
abbrev pub Owned : Ring → Type 0
Owned r =
    (h : ℕ)
    → 0 < count h r.hashes
    → (node : Bytes) × (lookup h r.hash_map ≡ some node) × (has_node r node ≡ true)

-- A node owns only hashes of its own virtual nodes.
abbrev pub Named : Ring → Type 0
Named r =
    (h : ℕ) (node : Bytes)
    → lookup h r.hash_map ≡ some node
    → (i : ℕ) × (i < r.config.default_replicas) × (virtual_hash r.config node i ≡ h)

-- Every registered node has the configured number of virtual nodes.
abbrev pub Uniform : Ring → Type 0
Uniform r =
    (node : Bytes) (n : ℕ) → lookup node r.node_replicas ≡ some n → n ≡ r.config.default_replicas

pub record IsLinked (r : Ring) : Type 0 where
  pub owned : Owned r
  pub named : Named r
  pub uniform : Uniform r

pub record IsValid (r : Ring) : Type 0 where
  pub sorted : IsSorted r.hashes
  pub linked : IsLinked r

-- What `n` rounds of `addNode` from round `i` leave behind.
pub record Extended (node : Bytes) (n i : ℕ) (r r' : Ring) : Type 0 where
  pub config : r'.config ≡ r.config
  pub replicas : r'.node_replicas ≡ r.node_replicas
  pub owner :
      (h : ℕ)
      → 0 < count h r'.hashes
      → (lookup h r'.hash_map ≡ some node)
        ⊎ ((lookup h r'.hash_map ≡ lookup h r.hash_map) × (0 < count h r.hashes))
  pub named :
      (h : ℕ) (x : Bytes)
      → lookup h r'.hash_map ≡ some x
      → (lookup h r.hash_map ≡ some x)
        ⊎ ((x ≡ node) × ((j : ℕ) × (j < i + n) × (virtual_hash r.config node j ≡ h)))

module _ (node : Bytes) (i : ℕ) (r : Ring) (h : ℕ) where
  abbrev hash : ℕ
  hash = virtual_hash r.config node i

  -- The first round, on the way back from the later ones.
  first_owner :
      (l : Option Bytes)
      → l ≡ lookup h (insert hash node r.hash_map)
      → 0 < count h (r.hashes ++ hash ∷ [])
      → (l ≡ some node) ⊎ ((l ≡ lookup h r.hash_map) × (0 < count h r.hashes))
  unfolding count
  first_owner l same on = elim (Bool-cases (nat_beq hash h)) [
    | inl e ↦ inl (ground (arith, lookup-insert hash h node r.hash_map))
    | inr e ↦ inr (
      ground (arith, lookup-insert hash h node r.hash_map),
      ground (arith, count-append h r.hashes (hash ∷ [])),
    )
  ]

  first_named :
      (n : ℕ) (x : Bytes)
      → lookup h (insert hash node r.hash_map) ≡ some x
      → (lookup h r.hash_map ≡ some x)
        ⊎ ((x ≡ node) × ((j : ℕ) × (j < i + suc n) × (virtual_hash r.config node j ≡ h)))
  first_named n x l = elim (Bool-cases (nat_beq hash h)) [
    | inl e ↦
        inr (ground (arith, lookup-insert hash h node r.hash_map), (i, omega arith, ground arith))
    | inr e ↦ inl (ground (arith, lookup-insert hash h node r.hash_map))
  ]

pub add_replicas-Extended :
    (node : Bytes) (n i : ℕ) (r : Ring) → Extended node n i r (add_replicas node n i r)
unfolding add_replicas
add_replicas-Extended node zero i r = record {
  config = refl;
  replicas = refl;
  owner = λ h on. inr (refl, on);
  named = λ h x e. inl e;
}
add_replicas-Extended node (suc n) i r =
    let hash = virtual_hash r.config node i in
    let r1 = record r { hashes = r.hashes ++ hash ∷ []; hash_map = insert hash node r.hash_map } in
    let e = add_replicas-Extended node n (i + 1) r1 in
    record {
      config = e.config;
      replicas = e.replicas;
      owner = λ h on. elim (e.owner h on) [
        | inl mine ↦ inl mine
        | inr (same, before) ↦ first_owner node i r h _ same before
      ];
      named = λ h x l. elim (e.named h x l) [
        | inl before ↦ first_named node i r h n x before
        | inr (mine, (j, lt, v)) ↦ inr (mine, (j, omega arith, v))
      ];
    }

module _ (node : Bytes) (r : Ring) (v : IsLinked r) where
  abbrev grown : Ring
  grown = add_node node r.config.default_replicas r

  has_node-grown : (x : Bytes) → has_node r x ≡ true → has_node grown x ≡ true
  unfolding add_node has_node
  has_node-grown x old =
      let e = add_replicas-Extended node r.config.default_replicas 0 r in
      ground (
        arith,
        e.replicas,
        lookup-insert node x r.config.default_replicas
            (add_replicas node r.config.default_replicas 0 r).node_replicas,
      )

  has_node-grown_self : has_node grown node ≡ true
  unfolding add_node has_node
  has_node-grown_self = ground (
    arith,
    bytes_beq_iff node node,
    lookup-insert node node r.config.default_replicas
        (add_replicas node r.config.default_replicas 0 r).node_replicas,
  )

  grown-Owned : Owned grown
  unfolding add_node
  grown-Owned h on =
      let e = add_replicas-Extended node r.config.default_replicas 0 r in
      elim (e.owner h on) [
        | inl mine ↦ (node, mine, has_node-grown_self)
        | inr (same, before) ↦
            let (x, owner, known) = v.owned h before in (x, same ∙ owner, has_node-grown x known)
      ]

  grown-Named : Named grown
  unfolding add_node
  grown-Named h x l =
      let e = add_replicas-Extended node r.config.default_replicas 0 r in
      rw e.config (elim (e.named h x l) [
        | inl before ↦ v.named h x before
        | inr (mine, (j, lt, eq)) ↦ (j, omega arith, rw mine eq)
      ])

  grown-Uniform : Uniform grown
  unfolding add_node
  grown-Uniform x n l =
      let e = add_replicas-Extended node r.config.default_replicas 0 r in
      rw e.config (
        ground (
          arith,
          v.uniform x n,
          e.replicas,
          lookup-insert node x r.config.default_replicas
              (add_replicas node r.config.default_replicas 0 r).node_replicas,
        ))

  pub grown-IsLinked : IsLinked grown
  grown-IsLinked = record { owned = grown-Owned; named = grown-Named; uniform = grown-Uniform }

add_nodes-IsLinked : (nodes : List Bytes) (r : Ring) → IsLinked r → IsLinked (add_nodes nodes r)
unfolding add_nodes
add_nodes-IsLinked [] r v = v
add_nodes-IsLinked (node ∷ nodes) r v = elim (Bool-cases (bytes_beq node [])) [
  | inl blank ↦ rw blank (add_nodes-IsLinked nodes r v)
  | inr named ↦ rw named (
      add_nodes-IsLinked nodes (add_node node r.config.default_replicas r)
        (grown-IsLinked node r v))
]

-- `Add` of any nodes keeps the ring well formed: its hashes stay sorted, every hash on it has a
-- registered owner, and owners own hashes of their own virtual nodes only.
pub add-IsValid : (nodes : List Bytes) (r : Ring) → IsValid r → IsValid (add nodes r).1
unfolding add add_nodes has_node
add-IsValid [] r v = v
add-IsValid (node ∷ nodes) r v =
    let l = add_nodes-IsLinked (node ∷ nodes) r v.linked in
    let r' = add_nodes (node ∷ nodes) r in
    record {
      sorted = sort_ints-IsSorted r'.hashes;
      linked = record {
        owned = λ h on. l.owned h (rw (count-sort_ints h r'.hashes) at on);
        named = l.named;
        uniform = l.uniform;
      };
    }

pub new-IsValid : (config : Config) → IsValid (new config)
unfolding new count lookup
new-IsValid config = record {
  sorted = tt;
  linked = record {
    owned = λ h on. absurd (omega arith);
    named = λ h node l. absurd (ground arith);
    uniform = λ node n l. absurd (ground arith);
  };
}
