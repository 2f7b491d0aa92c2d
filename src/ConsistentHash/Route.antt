-- ===== src/ConsistentHash/Route.antt =====
-- con_hash.go: the lookups on the ring. A method that finds nothing returns `[]`, the empty string.
pub mod Clockwise
pub mod Walk
pub mod Nodes
pub mod Order
pub mod Owners
pub mod Stability
pub mod Leaving
use go.Common.{
  ℕ, zero, suc, ◌+◌, ◌-◌, ◌%◌, Bool, true, not, ◌&&◌, ◌||◌, Option, none, some, List, [], ◌∷◌, ◌++◌,
  nat_beq, ltb, leb, if◌then◌else◌, length, get_or, Bytes, ◌==◌, bytes_eq, nat_eq, contains,
}
use go.Common.Map.{lookup, keys}
use mathlib.Core.Option
use go.ConsistentHash.Ring.{Ring, count_request, is_healthy}
use go.ConsistentHash.Sorting.{search}

-- `m.hashMap[m.keys[i]]`
abbrev pub node_at : Ring → ℕ → Bytes
node_at r i = Option.get_or (lookup (get_or r.hashes i 0) r.hash_map) []

-- The index at which every lookup starts: `sort.Search`, and the turn to 0 at the end.
unfoldable pub start_index : Bytes → Ring → ℕ
start_index key r =
    let n = length r.hashes in
    let idx = search n (λ i. leb (r.config.hash_func key) (get_or r.hashes i 0)) 0 n in
    if nat_beq idx n then 0 else idx

unfoldable pub get : Bytes → Ring → Bytes × Ring
get key r =
    let node = node_at r (start_index key r) in
    if key == [] || nat_beq (length r.hashes) 0 then ([], r) else (node, count_request node r)

unfoldable pub get_node_for_key : Bytes → Ring → Bytes × Ring
get_node_for_key = get

-- The loop of `GetHealthy`, with `n` rounds left from round `i`.
unfoldable pub get_healthy_loop : Ring → (idx n i : ℕ) → List Bytes → Bytes × Ring
get_healthy_loop r idx zero i seen = ([], r)
get_healthy_loop r idx (suc n) i seen =
    let node = node_at r ((idx + i) % length r.hashes) in
    let seen' = if contains seen node then seen else node ∷ seen in
    let more = get_healthy_loop r idx n (i + 1) seen' in
    if is_healthy r node
    then (node, count_request node r)
    else (if leb (length r.node_replicas) (length seen') then (node, r) else more)

unfoldable pub get_healthy : Bytes → Ring → Bytes × Ring
get_healthy key r =
    if key == [] || nat_beq (length r.hashes) 0
    then ([], r)
    else get_healthy_loop r (start_index key r) (length r.hashes) 0 []

-- The loop shared by `GetN` and `GetNHealthy`, which differ in the test `admit`.
unfoldable pub get_n_loop :
    (Bytes → Bool) → Ring → (idx limit n i : ℕ) → (seen result : List Bytes) → List Bytes
get_n_loop admit r idx limit zero i seen result = result
get_n_loop admit r idx limit (suc n) i seen result =
    let node = node_at r ((idx + i) % length r.hashes) in
    let fresh = not (contains seen node) && admit node in
    let more =
      get_n_loop admit r idx limit n (i + 1) (if fresh then node ∷ seen else seen)
        (if fresh then result ++ node ∷ [] else result) in
    if ltb (length result) limit then more else result

-- For an n that `make` has room for; `get_n_healthy` likewise.
unfoldable pub get_n : Bytes → ℕ → Ring → List Bytes
get_n key n r =
    if key == [] || nat_beq n 0 || nat_beq (length r.hashes) 0
    then []
    else get_n_loop (λ _. true) r (start_index key r) n (length r.hashes) 0 [] []

unfoldable pub get_n_healthy : Bytes → ℕ → Ring → List Bytes
get_n_healthy key n r =
    if key == [] || nat_beq n 0 || nat_beq (length r.hashes) 0
    then []
    else get_n_loop (is_healthy r) r (start_index key r) n (length r.hashes) 0 [] []

abbrev pub second_or : Bytes → List Bytes → Bytes
second_or d (_ ∷ x ∷ _) = x
second_or d _ = d

unfoldable pub get_replica : Bytes → Ring → Bytes
get_replica key r = second_or [] (get_n key 2 r)

unfoldable pub get_replica_healthy : Bytes → Ring → Bytes
get_replica_healthy key r = elim (get_n_healthy key 2 r) [
  | [] ↦ []
  | x ∷ rest ↦ second_or x (x ∷ rest)
]

abbrev pub get_all_nodes : Ring → List Bytes
get_all_nodes r = keys r.node_replicas

unfoldable pub get_node_unlocked : Ring → Bytes → Bytes
get_node_unlocked r key = if nat_beq (length r.hashes) 0 then [] else node_at r (start_index key r)

-- `result = append(result, node)` as the source has it: the node and not the key.
unfoldable pub keys_belong_to_node : List Bytes → Bytes → Ring → List Bytes
keys_belong_to_node [] target r = []
keys_belong_to_node (key ∷ ks) target r =
    let node = get_node_unlocked r key in
    let rest = keys_belong_to_node ks target r in
    if nat_beq (length r.hashes) 0 then [] else (if node == target then node ∷ rest else rest)

-- The first index that holds a virtual node of `node`; `targetIdx`, with `none` for -1.
unfoldable pub target_index : Ring → Bytes → (n i : ℕ) → Option ℕ
target_index r node zero i = none
target_index r node (suc n) i =
    let rest = target_index r node n (i + 1) in if node_at r i == node then some i else rest

-- The loops of `GetPredecessor` and `GetSuccessor`; `at` gives the index of round `i`.
unfoldable pub neighbour_loop : Ring → (ℕ → ℕ) → (n i : ℕ) → List Bytes → Bytes
neighbour_loop r at zero i seen = []
neighbour_loop r at (suc n) i seen =
    let candidate = node_at r (at i) in
    let rest = neighbour_loop r at n (i + 1) (candidate ∷ seen) in
    if contains seen candidate then rest else candidate

unfoldable pub get_predecessor : Bytes → Ring → Bytes
get_predecessor node r =
    let n = length r.hashes in
    elim (target_index r node n 0) [
      | none ↦ []
      | some t ↦ neighbour_loop r (λ i. (t + n - i) % n) (n - 1) 1 (node ∷ [])
    ]

unfoldable pub get_successor : Bytes → Ring → Bytes
get_successor node r =
    let n = length r.hashes in
    elim (target_index r node n 0) [
      | none ↦ []
      | some t ↦ neighbour_loop r (λ i. (t + i) % n) (n - 1) 1 (node ∷ [])
    ]
