-- ===== src/ConsistentHash/Rebalance.antt =====
-- con_hash.go: `checkAndRebalance` and `rebalanceNodes`.
-- The two floating-point formulas are parameters: whether the load is out of balance, and the number
-- of replicas for a node before it is bounded. Whether the lock of `m.mu` is
-- held is an argument of `Remove`.
use go.Common.{
  ◌++◌, ap, ◌∙◌, nat_beq_iff, ◌≢◌, ◌⊎◌, inl, inr, Bool-cases, bytes_beq_iff, All, ℕ, zero, suc, ◌+◌,
  ◌≤◌, ◌<◌, ◌≡◌, refl, Bool, true, false, Option, none, some, List, [], ◌∷◌, arith, nat_beq, ltb,
  Bytes, bytes_beq, if◌then◌else◌,
}
use mathlib.Core.List.{foldl}
use go.Common.Map.{Map}
use go.ConsistentHash.Ring.{Ring, replicas_of, remove, add_node, Error}
use go.ConsistentHash.Sorting.{sort_ints}

-- A call that returns, or one that waits for a lock that its own goroutine holds.
pub data Outcome (R : Type 0) : Type 0 where
  returns : R → Outcome R
  deadlock : Outcome R

-- `Remove` of a caller that holds the lock of `m.mu` or not: it refuses the empty name, and then
-- comes to its own `m.mu.Lock`, which Go does not grant to the holder again.
unfoldable pub remove_locked : (held : Bool) → Bytes → Ring → Outcome (Option Error × Ring)
remove_locked held node r =
    if bytes_beq node []
    then returns (remove node r)
    else (if held then deadlock else returns (remove node r))

-- With the lock free `Remove` returns.
remove_locked-free :
    (node : Bytes) (r : Ring) → remove_locked false node r ≡ returns (remove node r)
unfolding remove_locked
remove_locked-free node r = ground arith

-- `GetStats`: the numbers that are divided for each node, none of them where the total is 0.
unfoldable pub get_stats : Ring → List (Bytes × ℕ × ℕ)
get_stats r =
    if nat_beq r.total_requests 0
    then []
    else go.Common.map (λ (c : Bytes × ℕ). (c.0, c.1, r.total_requests)) r.node_counts

module _ (scaled : (count total nodes replicas : ℕ) → ℕ)
    (unbalanced : (total nodes : ℕ) → Map Bytes ℕ → Bool) where
  -- The new number of replicas, within the bounds of the configuration.
  unfoldable pub new_replicas : Ring → (count current : ℕ) → ℕ
  new_replicas r count current =
      let wanted = scaled count r.total_requests (go.Common.length r.node_replicas) current in
      let capped = if ltb r.config.max_replicas wanted then r.config.max_replicas else wanted in
      if ltb capped r.config.min_replicas then r.config.min_replicas else capped

  -- What the loop does to one node.
  unfoldable pub rebalance_node : Bytes → (count : ℕ) → Ring → Outcome Ring
  rebalance_node node count r =
      let current = replicas_of node r in
      let wanted = new_replicas r count current in
      if nat_beq wanted current then returns r else elim (remove_locked true node r) [
        | deadlock ↦ deadlock
        | returns (some failed, r') ↦ returns r'
        | returns (none, r') ↦ returns (add_node node wanted r')
      ]

  -- The loop over `m.nodeCounts`, in the order of the range.
  unfoldable pub rebalance_loop : Map Bytes ℕ → Ring → Outcome Ring
  rebalance_loop [] r = returns r
  rebalance_loop ((node, count) ∷ rest) r = elim (rebalance_node node count r) [
    | returns r' ↦ rebalance_loop rest r'
    | deadlock ↦ deadlock
  ]

  abbrev pub reset_counts : Map Bytes ℕ → Map Bytes ℕ
  reset_counts [] = []
  reset_counts ((node, _) ∷ rest) = (node, 0) ∷ reset_counts rest

  -- `rebalanceNodes`, which takes the write lock of `m.mu` for all that it does.
  unfoldable pub rebalance_nodes : Ring → Outcome Ring
  rebalance_nodes r = elim (rebalance_loop r.node_counts r) [
    | returns r' ↦ returns (record r' {
      node_counts = reset_counts r'.node_counts;
      total_requests = 0;
      hashes = sort_ints r'.hashes;
    })
    | deadlock ↦ deadlock
  ]

  unfoldable pub check_and_rebalance : Ring → Outcome Ring
  check_and_rebalance r =
      if ltb r.total_requests 1000
      then returns r
      else (if unbalanced r.total_requests (go.Common.length r.node_replicas) r.node_counts
          then rebalance_nodes r
          else returns r)

  -- The goroutine of `startBalancer`, one entry for each tick of its clock: what the callers did to
  -- the ring since the tick before. A check that waits for ever ends it.
  unfoldable pub balancer : List (Ring → Ring) → Ring → Outcome Ring
  balancer [] r = returns r
  balancer (calls ∷ ticks) r = elim (check_and_rebalance (calls r)) [
    | returns r' ↦ balancer ticks r'
    | deadlock ↦ deadlock
  ]

  -- Within a configuration whose bounds are in order the new number of replicas is within them.
  pub new_replicas_bounds :
      (r : Ring) (count current : ℕ)
      → r.config.min_replicas ≤ r.config.max_replicas
      → (r.config.min_replicas ≤ new_replicas r count current)
        × (new_replicas r count current ≤ r.config.max_replicas)
  unfolding new_replicas
  new_replicas_bounds r count current ordered = ground arith

  -- A counted node that the loop would remove and add anew.
  abbrev pub Changes : Ring → Bytes × ℕ → Type 0
  Changes r (node, count) =
      (node ≢ []) × (new_replicas r count (replicas_of node r) ≢ replicas_of node r)

  abbrev pub Stays : Ring → Bytes × ℕ → Type 0
  Stays r (node, count) =
      (node ≡ []) ⊎ (new_replicas r count (replicas_of node r) ≡ replicas_of node r)

  changed_node :
      (r : Ring) (node : Bytes) (count : ℕ)
      → Changes r (node, count)
      → rebalance_node node count r ≡ deadlock
  unfolding rebalance_node remove_locked
  changed_node r node count (named, changed) =
      let differs : nat_beq (new_replicas r count (replicas_of node r)) (replicas_of node r)
          ≡ false =
        ground
          (arith, nat_beq_iff (new_replicas r count (replicas_of node r)) (replicas_of node r)) in
      let named' : bytes_beq node [] ≡ false = ground (arith, bytes_beq_iff node []) in
      rw (differs, named') refl

  kept_node :
      (r : Ring) (node : Bytes) (count : ℕ)
      → Stays r (node, count)
      → rebalance_node node count r ≡ returns r
  unfolding rebalance_node remove_locked remove bytes_beq
  kept_node r node count (inr same) =
      let equal : nat_beq (new_replicas r count (replicas_of node r)) (replicas_of node r) ≡ true =
        ground
          (arith, nat_beq_iff (new_replicas r count (replicas_of node r)) (replicas_of node r)) in
      rw equal refl
  kept_node r node count (inl empty) =
      elim (Bool-cases (nat_beq (new_replicas r count (replicas_of node r)) (replicas_of node r))) [
        | inl equal ↦ rw equal refl
        | inr differs ↦ rw differs (rw empty refl)
      ]

  node_cases :
      (r : Ring) (node : Bytes) (count : ℕ) → Stays r (node, count) ⊎ Changes r (node, count)
  node_cases r node count = elim (Bool-cases (bytes_beq node [])) [
    | inl empty ↦ inl (inl ((bytes_beq_iff node []).0 empty))
    | inr named ↦
        let new = new_replicas r count (replicas_of node r) in
        elim (Bool-cases (nat_beq new (replicas_of node r))) [
          | inl equal ↦ inl (inr ((nat_beq_iff new (replicas_of node r)).0 equal))
          | inr differs ↦ inr (
            λ e. ground (arith, bytes_beq_iff node []),
            λ e. ground (arith, nat_beq_iff new (replicas_of node r)),
          )
        ]
  ]

  loop_changed :
      (r : Ring) (before after : Map Bytes ℕ) (node : Bytes) (count : ℕ)
      → Changes r (node, count)
      → rebalance_loop (before ++ (node, count) ∷ after) r ≡ deadlock
  unfolding rebalance_loop
  loop_changed r [] after node count h = rw (changed_node r node count h, rebalance_loop) refl
  loop_changed r ((other, n) ∷ before) after node count h = elim (node_cases r other n) [
    | inr changes ↦ rw (changed_node r other n changes, rebalance_loop) refl
    | inl stays ↦
        rw (kept_node r other n stays, rebalance_loop) (loop_changed r before after node count h)
  ]

  loop_kept :
      (r : Ring) (counts : Map Bytes ℕ) → All (Stays r) counts → rebalance_loop counts r ≡ returns r
  unfolding rebalance_loop
  loop_kept r [] all = refl
  loop_kept r ((node, count) ∷ rest) all =
      rw (kept_node r node count all.0, rebalance_loop) (loop_kept r rest all.1)

  -- `rebalanceNodes` never returns where some counted node is to have another number of replicas than
  -- it has, wherever the range comes to it; where every counted node keeps its number it returns, with
  -- the counters at 0, the hashes sorted, and the ring as it was otherwise.
  pub rebalance_nodes_lem :
      (r : Ring)
      → ((before after : Map Bytes ℕ) (node : Bytes) (count : ℕ)
          → r.node_counts ≡ before ++ (node, count) ∷ after
          → Changes r (node, count)
          → rebalance_nodes r ≡ deadlock)
        × (All (Stays r) r.node_counts
            → rebalance_nodes r
              ≡ returns (record r {
                node_counts = reset_counts r.node_counts;
                total_requests = 0;
                hashes = sort_ints r.hashes;
              }))
  unfolding rebalance_nodes
  rebalance_nodes_lem r = (
    λ before after node count split h.
        let stuck : rebalance_loop r.node_counts r ≡ deadlock =
          ap (λ l. rebalance_loop l r) split ∙ loop_changed r before after node count h in
        rw (stuck, rebalance_nodes) refl,
    λ all. let done = loop_kept r r.node_counts all in rw (done, rebalance_nodes) refl,
  )

  check_few : (r : Ring) → r.total_requests < 1000 → check_and_rebalance r ≡ returns r
  unfolding check_and_rebalance
  check_few r few = ground arith

  -- Calls that leave fewer than 1000 requests counted at every tick never stop the balancer, and the
  -- ring is what the calls make of it.
  pub balancer-quiet :
      (ticks : List (Ring → Ring)) (r : Ring)
      → All (λ calls. (x : Ring) → (calls x).total_requests < 1000) ticks
      → balancer ticks r ≡ returns (foldl (λ x calls. calls x) r ticks)
  unfolding balancer
  balancer-quiet [] r quiet = refl
  balancer-quiet (calls ∷ ticks) r quiet =
      rw (check_few (calls r) (quiet.0 r), balancer) (balancer-quiet ticks (calls r) quiet.1)
