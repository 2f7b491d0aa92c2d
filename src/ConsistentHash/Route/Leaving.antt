-- ===== src/ConsistentHash/Route/Leaving.antt =====
-- Which keys change their node when con_hash.go removes a node from the ring.
use go.Common.{
  ℕ, zero, suc, ◌+◌, ◌≤◌, ◌<◌, ◌≡◌, ◌≢◌, ◌∙◌, sym, ap, inl, inr, refl, some, [], arith, nat_beq,
  Bytes, bytes_beq, bytes_eq, nat_eq, Bool-cases, length,
}
use mathlib.Core.Option
use go.Common.Map.{lookup}
use go.ConsistentHash.Defaults.{Config}
use go.ConsistentHash.Ring.{Ring, remove, remove_replicas, replicas_of, virtual_hash}
use go.ConsistentHash.Ring.Removal.{count-erase_first, remove_replicas-Shrunk}
use go.ConsistentHash.Route.{get}
use go.ConsistentHash.Sorting.{IsSorted, count}
use go.ConsistentHash.Route.Stability.{
  IsNext, IsNext-unique, IsNext-fewer, owner, get-IsNext, some_length,
}

remove_replicas-spares :
    (node : Bytes) (n i : ℕ) (r : Ring) (h : ℕ)
    → ((j : ℕ) → i ≤ j → j < i + n → virtual_hash r.config node j ≢ h)
    → count h (remove_replicas node n i r).hashes ≡ count h r.hashes
unfolding remove_replicas
remove_replicas-spares node zero i r h apart = refl
remove_replicas-spares node (suc n) i r h apart =
    let hash = virtual_hash r.config node i in
    let other : hash ≢ h = apart i (omega arith) (omega arith) in
    remove_replicas-spares node n (i + 1) _ h (λ j lo hi. apart j (omega arith) (omega arith))
    ∙ ground (arith, count-erase_first h hash r.hashes)

-- What removing a node leaves of the ring that was there.
record Left (node : Bytes) (r r' : Ring) : Type 0 where
  config : r'.config ≡ r.config
  sorted : IsSorted r'.hashes
  fewer : (h : ℕ) → 0 < count h r'.hashes → 0 < count h r.hashes
  spares :
      (h : ℕ)
      → owner r h ≢ node
      → 0 < count h r.hashes
      → (0 < count h r'.hashes) × (owner r' h ≡ owner r h)

-- The node owns the hashes of all its virtual nodes, so that none collides with another node's.
abbrev pub OwnsItsHashes : Bytes → Ring → Type 0
OwnsItsHashes node r =
    (j : ℕ) → j < replicas_of node r → lookup (virtual_hash r.config node j) r.hash_map ≡ some node

remove-Left :
    (node : Bytes) (r : Ring)
    → IsSorted r.hashes
    → OwnsItsHashes node r
    → Left node r (remove node r).1
unfolding remove
remove-Left node r sorted own =
    let unchanged : Left node r r = record {
      config = refl;
      sorted = sorted;
      fewer = λ h on. on;
      spares = λ h other on. (on, refl);
    } in
    elim (Bool-cases (bytes_beq node [])) [
      | inl blank ↦ rw blank unchanged
      | inr named ↦ elim (Bool-cases (nat_beq (replicas_of node r) 0)) [
        | inl unknown ↦ rw (named, unknown) unchanged
        | inr known ↦
            let n = replicas_of node r in
            let e = remove_replicas-Shrunk node n 0 r in
            let apart : (h : ℕ)
                → owner r h ≢ node
                → (j : ℕ) → 0 ≤ j
                → j < 0 + n
                → virtual_hash r.config node j ≢ h =
              λ h other j lo hi same. other (
                ap (λ o. Option.get_or o [])
                  (ap (λ g. lookup g r.hash_map) (sym same) ∙ own j (omega arith))) in
            rw (named, known)
              (record {
                config = e.config;
                sorted = e.sorted sorted;
                fewer = λ h on. omega (arith, e.fewer h);
                spares = λ h other on. (
                  omega (arith, remove_replicas-spares node n 0 r h (apart h other)),
                  ap (λ o. Option.get_or o []) (e.spared h (apart h other)),
                );
              })
      ]
    ]

-- A node that leaves gives up its own keys only: on a sorted ring that is not empty, after `Remove`
-- of a node whose virtual nodes' hashes are all its own, every key that is not empty and was
-- another node's is still that node's.
pub get-remove_others :
    (node key : Bytes) (r : Ring)
    → key ≢ []
    → IsSorted r.hashes
    → 0 < length r.hashes
    → OwnsItsHashes node r
    → (get key r).0 ≢ node
    → (get key (remove node r).1).0 ≡ (get key r).0
get-remove_others node key r named sorted nonempty own other =
    let r' = (remove node r).1 in
    let l = remove-Left node r sorted own in
    let (s, next, was) = get-IsNext key r named sorted nonempty in
    let (on, same) = l.spares s (λ e. other (was ∙ e)) next.on in
    let (s', next', now) = get-IsNext key r' named l.sorted (some_length r'.hashes s on) in
    let hash = r.config.hash_func key in
    let next'' : IsNext r'.hashes hash s' =
      rw (ap (λ (c : Config). c.hash_func key) (sym l.config)) next' in
    let still = IsNext-fewer r'.hashes r.hashes hash s l.fewer on next in
    let one = IsNext-unique r'.hashes hash s' s next'' still in
    now ∙ ap (owner r') one ∙ same ∙ sym was
