-- ===== src/Tests/Rings.antt =====
-- A ring of two nodes with two virtual nodes each.
use mathlib.Core.List.{foldl}
use go.Common.{
  take, ℕ, ◌+◌, ◌*◌, ◌%◌, ◌^◌, ◌≤◌, ◌<◌, ◌≡◌, ◌≢◌, ◌⊎◌, inl, inr, refl, false, none, some, [], ◌∷◌,
  Bytes, arith, length, bytes_beq, nat_eq, contains, ◌++◌, All, Bool, true,
}
use go.ConsistentHash.Defaults.{Config}
use go.ConsistentHash.Sorting.{count, sort_ints, insert_sorted, decimal, decimal_fuel, search}
use go.ConsistentHash.Ring.{
  Ring, new, add, add_node, add_nodes, add_replicas, virtual_hash, remove, replicas_of, has_node,
  is_healthy,
}
use go.ConsistentHash.Ring.Members.{IsValid, new-IsValid, add-IsValid}
use go.ConsistentHash.Ring.Removal.{remove-IsValid}
use go.ConsistentHash.Rebalance.{
  new_replicas, rebalance_nodes, rebalance_nodes_lem, deadlock, returns, Changes, Stays,
  reset_counts,
}
use go.ConsistentHash.Route.{
  get, get_n, get_n_healthy, get_replica, node_at, start_index, get_n_loop,
}
use go.ConsistentHash.Route.Clockwise.{Successor, get-Successor}
use go.ConsistentHash.Route.Order.{get_n-take, firsts, owners_from, keep_if}
use go.ConsistentHash.Route.Stability.{get-add}
use go.ConsistentHash.Route.Leaving.{get-remove_others, OwnsItsHashes}
use go.Common.Map.{Map, lookup, insert}

abbrev pub config : Config
config = record {
  default_replicas = 2;
  min_replicas = 1;
  max_replicas = 4;
  hash_func = λ s. foldl (λ h c. (h * 131 + c) % 2 ^ 32) 0 s;
}

abbrev pub alpha : Bytes
alpha = b'a' ∷ []

abbrev pub beta : Bytes
beta = b'b' ∷ []

abbrev pub two : Ring
two = (add (alpha ∷ beta ∷ []) (new config)).1

pub two-IsValid : IsValid two
two-IsValid = add-IsValid (alpha ∷ beta ∷ []) (new config) (new-IsValid config)

add-IsValid_example : IsValid (add (beta ∷ alpha ∷ []) two).1
add-IsValid_example = add-IsValid (beta ∷ alpha ∷ []) two two-IsValid

program : Unit {0}
unfolding new add add_nodes add_node add_replicas virtual_hash decimal decimal_fuel sort_ints
    insert_sorted insert lookup count remove has_node is_healthy
program = tt

four : length two.hashes ≡ 4
unfolding program bytes_beq
four = refl

pub some_hashes : 0 < length two.hashes
some_hashes = let e = four in omega arith

replicas_of-alpha : replicas_of alpha two ≡ 2
unfolding program bytes_beq
replicas_of-alpha = refl

below_two : (j : ℕ) → j < 2 → (j ≡ 0) ⊎ (j ≡ 1)
below_two j lt = ground arith

single_0 : count (virtual_hash two.config alpha 0) two.hashes ≡ 1
unfolding program bytes_beq
single_0 = refl

single_1 : count (virtual_hash two.config alpha 1) two.hashes ≡ 1
unfolding program bytes_beq
single_1 = refl

single :
    (j : ℕ) → j < replicas_of alpha two → count (virtual_hash two.config alpha j) two.hashes ≤ 1
single j lt =
    let e = replicas_of-alpha in
    elim (below_two j (omega arith)) [
      | inl is ↦ rw is (let one = single_0 in omega arith)
      | inr is ↦ rw is (let one = single_1 in omega arith)
    ]

pub named_beta : beta ≢ []
named_beta = λ e. ground (arith, e)

named : alpha ≢ []
named = λ e. ground (arith, e)

registered : replicas_of alpha two ≢ 0
registered = λ e. let e' = replicas_of-alpha in omega arith

remove-IsValid_example :
    ((remove alpha two).0 ≡ none)
    × IsValid (remove alpha two).1
    × (has_node (remove alpha two).1 alpha ≡ false)
    × ((h : ℕ)
        → 0 < count h (remove alpha two).1.hashes
        → lookup h (remove alpha two).1.hash_map ≢ some alpha)
remove-IsValid_example = remove-IsValid alpha two two-IsValid single named registered

get-Successor_example :
    (i : ℕ) × (i < length two.hashes)
    × Successor two (two.config.hash_func beta) i
    × ((get beta two).0 ≡ node_at two i)
get-Successor_example = get-Successor beta two named_beta two-IsValid.sorted some_hashes

get_n-take_example :
    (i : ℕ) × (i < length two.hashes)
    × Successor two (two.config.hash_func beta) i
    × (get_n beta 2 two ≡ take 2 (firsts (owners_from two i (length two.hashes) 0)))
    × (get_n_healthy beta 2 two
        ≡ take 2 (firsts (keep_if (is_healthy two) (owners_from two i (length two.hashes) 0))))
get_n-take_example = get_n-take beta 2 two two-IsValid.sorted some_hashes named_beta (omega arith)

some_replica : get_replica beta two ≢ []
unfolding get_replica get_n get_n_loop start_index search program bytes_beq contains
some_replica = λ e. ground (arith, e)

abbrev gamma : Bytes
gamma = b'g' ∷ []

get-add_example :
    ((get beta (add (gamma ∷ []) two).1).0 ≡ gamma)
    ⊎ ((get beta (add (gamma ∷ []) two).1).0 ≡ (get beta two).0)
get-add_example = get-add gamma beta two named_beta two-IsValid.sorted some_hashes

own_0 : lookup (virtual_hash two.config alpha 0) two.hash_map ≡ some alpha
unfolding program bytes_beq
own_0 = refl

own_1 : lookup (virtual_hash two.config alpha 1) two.hash_map ≡ some alpha
unfolding program bytes_beq
own_1 = refl

alpha-OwnsItsHashes : OwnsItsHashes alpha two
alpha-OwnsItsHashes j lt =
    let e = replicas_of-alpha in
    elim (below_two j (omega arith)) [ inl is ↦ rw is own_0 | inr is ↦ rw is own_1 ]

abbrev fruit : Bytes
fruit = b'a' ∷ b'a' ∷ b'a' ∷ []

named_fruit : fruit ≢ []
named_fruit = λ e. ground (arith, e)

other_owner : (get fruit two).0 ≢ alpha
unfolding get start_index search program bytes_beq
other_owner = λ e. ground (arith, e)

get-remove_others_example : (get fruit (remove alpha two).1).0 ≡ (get fruit two).0
get-remove_others_example =
    get-remove_others alpha fruit two named_fruit two-IsValid.sorted some_hashes alpha-OwnsItsHashes
      other_owner

-- The ring counted three requests, all for one node.
abbrev busy : Ring
busy = record two { node_counts = (alpha, 3) ∷ []; total_requests = 3 }

abbrev scaled : (n total nodes replicas : ℕ) → ℕ
scaled n total nodes replicas = n * replicas

abbrev unbalanced : (total nodes : ℕ) → Map Bytes ℕ → Bool
unbalanced total nodes counts = true

rebalance_nodes_lem_example :
    ((before after : Map Bytes ℕ) (node : Bytes) (count : ℕ)
      → busy.node_counts ≡ before ++ (node, count) ∷ after
      → Changes scaled unbalanced busy (node, count)
      → rebalance_nodes scaled unbalanced busy ≡ deadlock)
    × (All (Stays scaled unbalanced busy) busy.node_counts
        → rebalance_nodes scaled unbalanced busy
          ≡ returns (record busy {
            node_counts = reset_counts scaled unbalanced busy.node_counts;
            total_requests = 0;
            hashes = sort_ints busy.hashes;
          }))
rebalance_nodes_lem_example = rebalance_nodes_lem scaled unbalanced busy

-- Three times the two replicas of the node are wanted, and four are allowed.
changed : new_replicas scaled unbalanced busy 3 (replicas_of alpha busy) ≢ replicas_of alpha busy
unfolding program bytes_beq new_replicas
changed = λ e. ground (arith, e)

stuck : rebalance_nodes scaled unbalanced busy ≡ deadlock
stuck = (rebalance_nodes_lem scaled unbalanced busy).0 [] [] alpha 3 refl (named, changed)
