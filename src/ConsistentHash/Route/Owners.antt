-- ===== src/ConsistentHash/Route/Owners.antt =====
-- Lookups of con_hash.go on a well-formed ring name registered nodes; `KeysBelongToNode`.
use go.Common.{
  ℕ, zero, suc, ◌+◌, ◌-◌, ◌%◌, ◌≤◌, ◌<◌, ◌≡◌, ◌≢◌, ◌⊎◌, inl, inr, refl, true, false, Option-cases,
  List, [], ◌∷◌, arith, nat_beq, Bytes, bytes_beq, bytes_beq_iff, bytes_eq, nat_eq, Bool-cases,
  if◌then◌else◌, get_or, length, replicate, contains,
}
use go.ConsistentHash.Ring.{Ring, has_node, remove, replicas_of, virtual_hash}
use go.ConsistentHash.Ring.Members.{IsValid}
use go.ConsistentHash.Ring.Removal.{remove-IsValid}
use go.ConsistentHash.Route.{
  node_at, get, get_node_unlocked, keys_belong_to_node, neighbour_loop, get_successor,
  get_predecessor, target_index,
}
use go.ConsistentHash.Route.Clockwise.{get-Successor}
use go.ConsistentHash.Sorting.{count}

pub count-get_or : (xs : List ℕ) (i : ℕ) → i < length xs → 0 < count (get_or xs i 0) xs
unfolding count
count-get_or [] i lt = absurd (omega arith)
count-get_or (x ∷ xs) zero lt = ground arith
count-get_or (x ∷ xs) (suc i) lt = omega (arith, count-get_or xs i (omega arith))

-- On a well-formed ring that is not empty, `Get` of a key that is not empty returns a registered
-- node.
pub get-has_node :
    (key : Bytes) (r : Ring)
    → IsValid r
    → key ≢ []
    → 0 < length r.hashes
    → has_node r (get key r).0 ≡ true
get-has_node key r v named nonempty =
    let (i, lt, _, e) = get-Successor key r named v.sorted nonempty in
    let (x, owner, known) = v.linked.owned (get_or r.hashes i 0) (count-get_or r.hashes i lt) in
    rw (e, owner) known

-- After a `Remove` as in `remove-IsValid`, no key that is not empty is routed to the node any more.
pub get-remove :
    (node key : Bytes) (r : Ring)
    → IsValid r
    → ((j : ℕ) → j < replicas_of node r → count (virtual_hash r.config node j) r.hashes ≤ 1)
    → node ≢ []
    → replicas_of node r ≢ 0
    → key ≢ []
    → (get key (remove node r).1).0 ≢ node
unfolding get
get-remove node key r v single named some_replicas key_named =
    let (_, v', gone, _) = remove-IsValid node r v single named some_replicas in
    let r' = (remove node r).1 in
    elim (Bool-cases (nat_beq (length r'.hashes) 0)) [
      | inl empty ↦ ground (arith, bytes_beq_iff key [])
      | inr more ↦ λ e.
          let known = get-has_node key r' v' key_named (ground arith) in ground (arith, known, gone)
    ]

-- How many of the keys the ring routes to the node.
unfoldable pub routed_to : List Bytes → Bytes → Ring → ℕ
routed_to [] target r = 0
routed_to (key ∷ ks) target r =
    let rest = routed_to ks target r in
    if bytes_beq (get_node_unlocked r key) target then suc rest else rest

-- On a ring that is not empty `KeysBelongToNode` returns the target's own name, once for each key
-- that the ring routes to it, and never the keys.
pub keys_belong_to_node-replicate :
    (ks : List Bytes) (target : Bytes) (r : Ring)
    → 0 < length r.hashes
    → keys_belong_to_node ks target r ≡ replicate (routed_to ks target r) target
unfolding keys_belong_to_node routed_to
keys_belong_to_node-replicate [] target r nonempty = refl
keys_belong_to_node-replicate (key ∷ ks) target r nonempty =
    let open_guard : nat_beq (length r.hashes) 0 ≡ false = ground arith in
    let rest = keys_belong_to_node-replicate ks target r nonempty in
    elim (Bool-cases (bytes_beq (get_node_unlocked r key) target)) [
      | inl here ↦
          let same = (bytes_beq_iff (get_node_unlocked r key) target).0 here in
          rw (open_guard, here, same, rest)
      | inr other ↦ rw (open_guard, other, rest)
    ]

neighbour_loop-not-seen :
    (r : Ring) (at : ℕ → ℕ) (n i : ℕ) (seen : List Bytes)
    → (neighbour_loop r at n i seen ≡ []) ⊎ (contains seen (neighbour_loop r at n i seen) ≡ false)
unfolding neighbour_loop contains
neighbour_loop-not-seen r at zero i seen = inl refl
neighbour_loop-not-seen r at (suc n) i seen =
    ground (arith, neighbour_loop-not-seen r at n (i + 1) (node_at r (at i) ∷ seen))

-- A neighbour that `GetSuccessor` or `GetPredecessor` finds for a node is another node.
pub neighbour-ne :
    (node : Bytes) (r : Ring)
    → ((get_successor node r ≡ []) ⊎ (get_successor node r ≢ node))
      × ((get_predecessor node r ≡ []) ⊎ (get_predecessor node r ≢ node))
unfolding get_successor get_predecessor contains
neighbour-ne node r = elim (Option-cases (target_index r node (length r.hashes) 0)) [
  | inl missing ↦ rw (missing, get_successor, get_predecessor) (inl refl, inl refl)
  | inr (t, found) ↦
      let n = length r.hashes in
      rw (found, get_successor, get_predecessor)
        (
          other (neighbour_loop-not-seen r (λ i. (t + i) % n) (n - 1) 1 (node ∷ [])),
          other (neighbour_loop-not-seen r (λ i. (t + n - i) % n) (n - 1) 1 (node ∷ [])),
        )
]
  where
    other : {x : Bytes} → (x ≡ []) ⊎ (contains (node ∷ []) x ≡ false) → (x ≡ []) ⊎ (x ≢ node)
    other (inl e) = inl e
    other {x} (inr e) = inr (ground (arith, bytes_beq_iff node x))
