-- ===== src/Picker/Outsider/Absent.antt =====
-- A node that owns no hash of a ring of con_hash.go, over the changes and the lookups that peers.go makes.
use go.Common.{
  ℕ, zero, suc, ◌+◌, ◌%◌, ◌≡◌, ◌≢◌, ◌⊎◌, refl, sym, Bool, true, false, not, ◌&&◌, Option, none,
  some, List, [], ◌∷◌, ◌++◌, Bytes, bytes_eq, nat_eq, bytes_beq, bytes_beq_iff, nat_beq, ltb,
  Bool-cases, Option-cases, inl, inr, arith, is_some, ◌||◌, All, All-append, length, if◌then◌else◌,
  contains,
}
use go.Common.Map.{lookup, lookup-insert, lookup-delete}
use go.ConsistentHash.Ring.{
  Ring, add_replicas, add_node, add_nodes, add, remove_replicas, remove as remove_node, replicas_of,
  virtual_hash,
}
use go.ConsistentHash.Route.{node_at, get_n_loop}

-- The node owns no hash of the ring.
abbrev pub IsAbsent : Bytes → Ring → Type 0
IsAbsent node r = (h : ℕ) → lookup h r.hash_map ≢ some node

module _ (self : Bytes) where
  add_replicas-IsAbsent :
      (node : Bytes) (n i : ℕ) (r : Ring)
      → node ≢ self
      → IsAbsent self r
      → IsAbsent self (add_replicas node n i r)
  unfolding add_replicas
  add_replicas-IsAbsent node zero i r other a = a
  add_replicas-IsAbsent node (suc n) i r other a =
      let hash = virtual_hash r.config node i in
      add_replicas-IsAbsent node n (i + 1) _ other
        (λ h e. ground (arith, lookup-insert hash h node r.hash_map, a h))

  pub add-IsAbsent :
      (node : Bytes) (r : Ring)
      → node ≢ self
      → IsAbsent self r
      → IsAbsent self (add (node ∷ []) r).1
  unfolding add add_nodes add_node
  add-IsAbsent node r other a = elim (Bool-cases (bytes_beq node [])) [
    | inl blank ↦ rw blank a
    | inr named ↦ rw named (add_replicas-IsAbsent node r.config.default_replicas 0 r other a)
  ]

  remove_replicas-IsAbsent :
      (node : Bytes) (n i : ℕ) (r : Ring)
      → IsAbsent self r
      → IsAbsent self (remove_replicas node n i r)
  unfolding remove_replicas
  remove_replicas-IsAbsent node zero i r a = a
  remove_replicas-IsAbsent node (suc n) i r a =
      let hash = virtual_hash r.config node i in
      remove_replicas-IsAbsent node n (i + 1) _
        (λ h e. ground (arith, lookup-delete hash h r.hash_map, a h))

  pub remove-IsAbsent :
      (node : Bytes) (r : Ring) → IsAbsent self r → IsAbsent self (remove_node node r).1
  unfolding remove_node
  remove-IsAbsent node r a = elim (Bool-cases (bytes_beq node [])) [
    | inl blank ↦ rw blank a
    | inr named ↦ elim (Bool-cases (nat_beq (replicas_of node r) 0)) [
      | inl unknown ↦ rw (named, unknown) a
      | inr known ↦ rw (named, known) (remove_replicas-IsAbsent node (replicas_of node r) 0 r a)
    ]
  ]

  node_at-IsAbsent : (r : Ring) (i : ℕ) → self ≢ [] → IsAbsent self r → node_at r i ≢ self
  node_at-IsAbsent r i named a =
      let h = go.Common.get_or r.hashes i 0 in
      elim (Option-cases (lookup h r.hash_map)) [
        | inl free ↦ λ e. ground (arith, free)
        | inr (x, owned) ↦ λ e. ground (arith, a h)
      ]

  pub get_n_loop-IsAbsent :
      (admit : Bytes → Bool) (r : Ring) (idx limit n i : ℕ) (seen result : List Bytes)
      → self ≢ []
      → IsAbsent self r
      → All (λ x. x ≢ self) result
      → All (λ x. x ≢ self) (get_n_loop admit r idx limit n i seen result)
  unfolding get_n_loop
  get_n_loop-IsAbsent admit r idx limit zero i seen result named a all = all
  get_n_loop-IsAbsent admit r idx limit (suc n) i seen result named a all =
      let node = node_at r ((idx + i) % length r.hashes) in
      let other = node_at-IsAbsent r ((idx + i) % length r.hashes) named a in
      elim (Bool-cases (ltb (length result) limit)) [
        | inr full ↦ rw full all
        | inl room ↦ elim (Bool-cases (not (contains seen node) && admit node)) [
          | inl fresh ↦
              rw (room, fresh)
                (get_n_loop-IsAbsent admit r idx limit n (i + 1) _ _ named a
                  (All-append (λ x. x ≢ self) result (node ∷ []) all (other, tt)))
          | inr stale ↦
              rw (room, stale) (get_n_loop-IsAbsent admit r idx limit n (i + 1) _ _ named a all)
        ]
      ]
