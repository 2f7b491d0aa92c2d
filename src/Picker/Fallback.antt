-- ===== src/Picker/Fallback.antt =====
-- What `PickPeerWithFallback` of peers.go returns.
use go.Common.{
  take, Option, is_some, ℕ, ◌<◌, ◌≡◌, ◌≢◌, refl, true, false, none, some, List, [], ◌∷◌, Bytes,
  bytes_eq, bytes_beq_iff, arith, contains, length, All,
}
use mathlib.Core.Path.{subst}
use go.Common.Map.{lookup}
use go.ConsistentHash.Route.Clockwise.{Successor}
use go.ConsistentHash.Route.Order.{get_n-take, firsts, keep_if, owners_from}
use go.ConsistentHash.Sorting.{IsSorted}
use go.ConsistentHash.Ring.{is_healthy}
use go.ConsistentHash.Route.{get_n_healthy}
use go.ConsistentHash.Route.Walk.{Distinct, IsGood}
use go.ConsistentHash.Route.Nodes.{get_n_healthy-Picks}
use go.Picker.{Picker, Pick, pick_nodes, pick_peer_with_fallback}

module _ {P : Type 0} where
  -- The client of a healthy node that is not this one.
  abbrev pub IsRemote : Picker P → P → Type 0
  IsRemote p client =
      (addr : Bytes) × (lookup addr p.clients ≡ some client)
      × (addr ≢ p.self_addr)
      × (is_healthy p.cons_hash addr ≡ true)

  -- The replica, where these are the healthy nodes after the first one.
  abbrev pub IsReplica : Picker P → List Bytes → Option P → Type 0
  IsReplica p [] replica = replica ≡ none
  IsReplica p (second ∷ _) replica =
      (second ≡ p.self_addr → replica ≡ none)
      × (second ≢ p.self_addr → replica ≡ lookup second p.clients)

  -- The pick, where these are the healthy nodes in the order of the ring.
  abbrev pub IsPick : Picker P → List Bytes → Pick P → Type 0
  IsPick p [] out =
      (out.ok ≡ false) × (out.is_self ≡ false) × (out.primary ≡ none) × (out.replica ≡ none)
  IsPick p (first ∷ rest) out =
      (first ≡ p.self_addr → (out.ok ≡ true) × (out.is_self ≡ true) × (out.primary ≡ none))
      × (first ≢ p.self_addr
          → (out.ok ≡ is_some (lookup first p.clients))
            × (out.is_self ≡ false)
            × (out.primary ≡ lookup first p.clients))
      × IsReplica p rest out.replica

  -- Both clients are of healthy nodes other than this one.
  abbrev pub AreRemote : Picker P → Pick P → Type 0
  AreRemote p out =
      ((client : P) → out.primary ≡ some client → IsRemote p client)
      × ((client : P) → out.replica ≡ some client → IsRemote p client)

  pick_nodes-AreRemote :
      (nodes : List Bytes) (p : Picker P)
      → Distinct nodes
      → All (IsGood (is_healthy p.cons_hash) p.cons_hash) nodes
      → AreRemote p (pick_nodes nodes p)
  unfolding pick_nodes contains
  pick_nodes-AreRemote [] p d g = (λ c e. absurd (ground arith), λ c e. absurd (ground arith))
  pick_nodes-AreRemote (x ∷ []) p d g = (
    λ c e. (x, ground arith, ground (arith, bytes_beq_iff x p.self_addr), g.0.0),
    λ c e. absurd (ground arith),
  )
  pick_nodes-AreRemote (x ∷ y ∷ more) p d g = (
    λ c e. (x, ground arith, ground (arith, bytes_beq_iff x p.self_addr), g.0.0),
    λ c e. (
      y,
      ground arith,
      ground
          (arith, d.0, bytes_beq_iff x p.self_addr, bytes_beq_iff y p.self_addr, bytes_beq_iff y x),
      g.1.0.0,
    ),
  )

  pick_nodes-IsPick :
      (order : List Bytes) (p : Picker P)
      → Distinct (take 2 order)
      → IsPick p order (pick_nodes (take 2 order) p)
  unfolding pick_nodes contains
  pick_nodes-IsPick [] p d = (refl, refl, refl, refl)
  pick_nodes-IsPick (x ∷ []) p d = (
    λ own. ground (arith, bytes_beq_iff x p.self_addr),
    λ other. ground (arith, bytes_beq_iff x p.self_addr),
    ground arith,
  )
  pick_nodes-IsPick (x ∷ y ∷ more) p d = (
    λ own. ground (arith, bytes_beq_iff x p.self_addr),
    λ other. ground (arith, bytes_beq_iff x p.self_addr),
    (
      λ own.
          ground (
            arith,
            d.0,
            bytes_beq_iff x p.self_addr,
            bytes_beq_iff y p.self_addr,
            bytes_beq_iff y x,
          ),
      λ other. ground (arith, bytes_beq_iff x p.self_addr, bytes_beq_iff y p.self_addr),
    ),
  )

  -- On a sorted ring that is not empty, for a key that is not empty, take the healthy nodes in their
  -- order clockwise from the virtual node that succeeds the key's hash. `PickPeerWithFallback` reports
  -- this node and no primary where it is the first of them; else the primary is the client of the
  -- first, and a peer is reported just where there is that client. The replica is the client of the
  -- second, unless that is this node. Where no node is healthy nothing is picked. Both clients are of
  -- healthy nodes other than this one.
  pub pick_peer_with_fallback-IsPick :
      (key : Bytes) (p : Picker P)
      → IsSorted p.cons_hash.hashes
      → 0 < length p.cons_hash.hashes
      → key ≢ []
      → let r = p.cons_hash in
        let out = pick_peer_with_fallback key p in
        (i : ℕ) × (i < length r.hashes)
        × Successor r (r.config.hash_func key) i
        × IsPick p (firsts (keep_if (is_healthy r) (owners_from r i (length r.hashes) 0))) out
        × AreRemote p out
  unfolding pick_peer_with_fallback
  pick_peer_with_fallback-IsPick key p sorted nonempty named =
      let r = p.cons_hash in
      let w = get_n_healthy-Picks key 2 r sorted nonempty named (omega arith) in
      let (i, inside, next, _, healthy) = get_n-take key 2 r sorted nonempty named (omega arith) in
      let order = firsts (keep_if (is_healthy r) (owners_from r i (length r.hashes) 0)) in
      (
        i,
        inside,
        next,
        rw healthy (pick_nodes-IsPick order p (subst Distinct healthy w.distinct)),
        pick_nodes-AreRemote (get_n_healthy key 2 r) p w.distinct w.good,
      )
