-- ===== src/ConsistentHash/Route/Stability.antt =====
-- Which keys change their node when con_hash.go adds a node to the ring.
use go.Common.{
  ℕ, zero, suc, ◌+◌, ◌-◌, ◌≤◌, ◌<◌, ◌≡◌, ◌≢◌, ◌⊎◌, ◌∙◌, sym, ap, inl, inr, refl, true, false,
  Option, none, some, Option-cases, List, [], ◌∷◌, ◌++◌, arith, nat_beq, nat_beq_iff, Bytes,
  bytes_beq, bytes_beq_iff, bytes_eq, nat_eq, Bool-cases, if◌then◌else◌, get_or, length,
}
use mathlib.Core.Option
use go.Common.Map.{lookup, lookup-delete}
use go.ConsistentHash.Defaults.{Config}
use go.ConsistentHash.Ring.{Ring, add, add_nodes, add_node, add_replicas, virtual_hash}
use go.ConsistentHash.Ring.Members.{count-append, add_replicas-Extended}
use go.ConsistentHash.Route.{get}
use go.ConsistentHash.Route.Clockwise.{get-Successor, Successor}
use go.ConsistentHash.Route.Owners.{count-get_or}
use go.ConsistentHash.Sorting.{IsSorted, count, get_or_mono, count-sort_ints, sort_ints-IsSorted}

-- The hash on the ring that follows a hash clockwise, whatever place it has in the list.
pub record IsNext (hashes : List ℕ) (hash s : ℕ) : Type 0 where
  pub on : 0 < count s hashes
  pub follows :
      ((hash ≤ s) × ((x : ℕ) → 0 < count x hashes → hash ≤ x → s ≤ x))
      ⊎ (((x : ℕ) → 0 < count x hashes → x < hash) × ((x : ℕ) → 0 < count x hashes → s ≤ x))

pub IsNext-unique :
    (hashes : List ℕ) (hash s t : ℕ) → IsNext hashes hash s → IsNext hashes hash t → s ≡ t
IsNext-unique hashes hash s t a b = elim a.follows [
  | inl (after, least) ↦ elim b.follows [
    | inl (after', least') ↦ omega (arith, least t b.on after', least' s a.on after)
    | inr (before', least') ↦ absurd (omega (arith, before' s a.on))
  ]
  | inr (before, least) ↦ elim b.follows [
    | inl (after', least') ↦ absurd (omega (arith, before t b.on))
    | inr (before', least') ↦ omega (arith, least t b.on, least' s a.on)
  ]
]

-- With fewer hashes, among them that one, it is still the next.
pub IsNext-fewer :
    (hashes more : List ℕ) (hash s : ℕ)
    → ((x : ℕ) → 0 < count x hashes → 0 < count x more)
    → 0 < count s hashes
    → IsNext more hash s
    → IsNext hashes hash s
IsNext-fewer hashes more hash s sub on a = record {
  on = on;
  follows = elim a.follows [
    | inl (after, least) ↦ inl (after, λ x here. least x (sub x here))
    | inr (before, least) ↦ inr (λ x here. before x (sub x here), λ x here. least x (sub x here))
  ];
}

-- Where in the list a hash of the ring is.
index_of : (xs : List ℕ) (x : ℕ) → 0 < count x xs → (j : ℕ) × (j < length xs) × (get_or xs j 0 ≡ x)
unfolding count
index_of [] x on = absurd (omega arith)
index_of (y ∷ xs) x on = elim (Bool-cases (nat_beq y x)) [
  | inl here ↦ (0, omega arith, ground (arith, nat_beq_iff y x))
  | inr later ↦ let (j, lt, e) = index_of xs x (ground arith) in (suc j, omega arith, e)
]

Successor-IsNext :
    (r : Ring) (hash i : ℕ)
    → IsSorted r.hashes
    → i < length r.hashes
    → Successor r hash i
    → IsNext r.hashes hash (get_or r.hashes i 0)
Successor-IsNext r hash i sorted lt next = record {
  on = count-get_or r.hashes i lt;
  follows = elim next [
    | inl (after, below) ↦ inl (
      after,
      λ x here later.
          let (j, inside, e) = index_of r.hashes x here in
          elim (Bool-cases (go.Common.ltb j i)) [
            | inl early ↦ absurd (omega (arith, below j (ground arith), e))
            | inr late ↦ omega (arith, get_or_mono r.hashes i j sorted (ground arith) inside, e)
          ],
    )
    | inr (first, below) ↦ inr (
      λ x here. let (j, inside, e) = index_of r.hashes x here in omega (arith, below j inside, e),
      λ x here.
          let (j, inside, e) = index_of r.hashes x here in
          omega (arith, get_or_mono r.hashes i j sorted (omega arith) inside, e),
    )
  ];
}

-- The node that the map of the ring has for a hash.
abbrev pub owner : Ring → ℕ → Bytes
owner r s = Option.get_or (lookup s r.hash_map) []

pub get-IsNext :
    (key : Bytes) (r : Ring)
    → key ≢ []
    → IsSorted r.hashes
    → 0 < length r.hashes
    → (s : ℕ) × IsNext r.hashes (r.config.hash_func key) s × ((get key r).0 ≡ owner r s)
get-IsNext key r named sorted nonempty =
    let (i, lt, next, e) = get-Successor key r named sorted nonempty in
    (get_or r.hashes i 0, Successor-IsNext r (r.config.hash_func key) i sorted lt next, e)

-- What adding a node leaves of the ring that was there.
record Grown (node : Bytes) (r r' : Ring) : Type 0 where
  config : r'.config ≡ r.config
  sorted : IsSorted r'.hashes
  keeps : (h : ℕ) → 0 < count h r.hashes → 0 < count h r'.hashes
  owners :
      (h : ℕ)
      → 0 < count h r'.hashes
      → (owner r' h ≡ node) ⊎ ((owner r' h ≡ owner r h) × (0 < count h r.hashes))

add_replicas-keeps :
    (node : Bytes) (n i : ℕ) (r : Ring) (h : ℕ)
    → count h r.hashes ≤ count h (add_replicas node n i r).hashes
unfolding add_replicas
add_replicas-keeps node zero i r h = omega arith
add_replicas-keeps node (suc n) i r h =
    let hash = virtual_hash r.config node i in
    omega (
      arith,
      add_replicas-keeps node n (i + 1)
          (record r {
            hashes = r.hashes ++ hash ∷ [];
            hash_map = go.Common.Map.insert hash node r.hash_map;
          })
          h,
      count-append h r.hashes (hash ∷ []),
    )

add-Grown : (node : Bytes) (r : Ring) → Grown node r (add (node ∷ []) r).1
unfolding add add_nodes add_node
add-Grown node r = elim (Bool-cases (bytes_beq node [])) [
  | inl blank ↦ rw blank (record {
    config = refl;
    sorted = sort_ints-IsSorted r.hashes;
    keeps = λ h on. omega (arith, count-sort_ints h r.hashes);
    owners = λ h on. inr (refl, omega (arith, count-sort_ints h r.hashes));
  })
  | inr named ↦
      let n = r.config.default_replicas in
      let g = add_replicas node n 0 r in
      let e = add_replicas-Extended node n 0 r in
      rw named (record {
        config = e.config;
        sorted = sort_ints-IsSorted g.hashes;
        keeps = λ h on. omega (arith, count-sort_ints h g.hashes, add_replicas-keeps node n 0 r h);
        owners = λ h on. elim (e.owner h (omega (arith, count-sort_ints h g.hashes))) [
          | inl mine ↦ inl (ap (λ o. Option.get_or o []) mine)
          | inr (same, before) ↦ inr (ap (λ o. Option.get_or o []) same, before)
        ];
      })
]

pub some_length : (xs : List ℕ) (x : ℕ) → 0 < count x xs → 0 < length xs
unfolding count
some_length [] x on = absurd (omega arith)
some_length (y ∷ xs) x on = omega arith

-- A node that joins takes keys over from others, and no key moves between two nodes that were there
-- before: after `Add` of one node to a sorted ring that is not empty, `Get` of a key that is not
-- empty returns the new node or the node that it returned before, even where hashes collide.
pub get-add :
    (node key : Bytes) (r : Ring)
    → key ≢ []
    → IsSorted r.hashes
    → 0 < length r.hashes
    → ((get key (add (node ∷ []) r).1).0 ≡ node)
      ⊎ ((get key (add (node ∷ []) r).1).0 ≡ (get key r).0)
get-add node key r named sorted nonempty =
    let r' = (add (node ∷ []) r).1 in
    let g = add-Grown node r in
    let (s, next, was) = get-IsNext key r named sorted nonempty in
    let nonempty' = some_length r'.hashes s (g.keeps s next.on) in
    let (s', next', now) = get-IsNext key r' named g.sorted nonempty' in
    elim (g.owners s' next'.on) [
      | inl mine ↦ inl (now ∙ mine)
      | inr (same, before) ↦
          let hash = r.config.hash_func key in
          let next'' : IsNext r'.hashes hash s' =
            rw (ap (λ (c : Config). c.hash_func key) (sym g.config)) next' in
          let still = IsNext-fewer r.hashes r'.hashes hash s' g.keeps before next'' in
          let one = IsNext-unique r.hashes hash s' s still next in
          inr (now ∙ same ∙ ap (owner r) one ∙ sym was)
    ]
