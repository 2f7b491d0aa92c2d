-- ===== src/Picker/Migration/Batches.antt =====
-- What the batches of `migrateDataToNewNode` of cache/peers.go come to.
use go.Common.{
  ℕ, ◌+◌, ◌≡◌, refl, Bool, true, false, none, some, List, [], ◌∷◌, ◌++◌, if◌then◌else◌, Bytes,
  Bool-cases, Option-cases, inl, inr, arith, map, contains, bytes_eq, bytes_beq_iff,
}
use mathlib.Core.List.{append-nil, append_assoc}
use go.Common.Map.{lookup}
use go.Client.{Request, set_request}
use go.ConsistentHash.Ring.{is_healthy, mark_healthy, without}
use go.Picker.{Picker, should_key_be_on_node, finish_migration}
use go.Picker.Migration.{
  Local, Sent, both, migration_marks, send_migrate_batch, migrate_loop, migrate_groups,
  migrate_data_to_new_node,
}

module _ {P : Type 0} (addr : Bytes) (p : Picker P) (g : Local) where
  -- The entries of a group that belong on the node and are still there, in the order of the keys.
  pub wanted : List Bytes → List (Bytes × Bytes)
  wanted [] = []
  wanted (key ∷ ks) =
      let rest = wanted ks in
      elim (g.value_of key) [
        | none ↦ rest
        | some val ↦ if should_key_be_on_node key addr p then (key, val) ∷ rest else rest
      ]

module _ {P : Type 0} (accepts : P → Request → Bool) (client : P) where
  send_migrate_batch-append :
      (group : Bytes) (xs ys : List (Bytes × Bytes))
      → send_migrate_batch accepts client group (xs ++ ys)
        ≡ both
            (send_migrate_batch accepts client group xs)
            (send_migrate_batch accepts client group ys)
  unfolding send_migrate_batch
  send_migrate_batch-append group [] ys = ground arith
  send_migrate_batch-append group ((key, val) ∷ xs) ys =
      ground (arith, send_migrate_batch-append group xs ys)

  migrate_loop-wanted :
      (addr : Bytes) (p : Picker P) (g : Local) (ks : List Bytes) (batch : List (Bytes × Bytes))
      → migrate_loop accepts client addr p g ks batch
        ≡ send_migrate_batch accepts client g.name (batch ++ wanted addr p g ks)
  unfolding migrate_loop wanted send_migrate_batch
  migrate_loop-wanted addr p g [] [] = refl
  migrate_loop-wanted addr p g [] (x ∷ batch) = ground (arith, append-nil batch)
  migrate_loop-wanted addr p g (key ∷ ks) batch = elim (Option-cases (g.value_of key)) [
    | inl gone ↦ ground (arith, migrate_loop-wanted addr p g ks batch)
    | inr (val, there) ↦ elim (Bool-cases (should_key_be_on_node key addr p)) [
      | inr elsewhere ↦ ground (arith, migrate_loop-wanted addr p g ks batch)
      | inl here ↦
          let batch' = batch ++ (key, val) ∷ [] in
          ground (
            arith,
            migrate_loop-wanted addr p g ks batch',
            migrate_loop-wanted addr p g ks [],
            send_migrate_batch-append g.name batch' (wanted addr p g ks),
            append_assoc batch ((key, val) ∷ []) (wanted addr p g ks),
          )
    ]
  ]

  -- The request for one entry.
  pub entry_request : Bytes → Bytes × Bytes → Request
  entry_request group (key, val) = set_request migration_marks group key val

  -- How many of the requests are accepted.
  pub accepted : List Request → ℕ
  accepted [] = 0
  accepted (r ∷ rs) = let n = accepted rs in if accepts client r then n + 1 else n

  -- What one group's entries come to, sent one by one with no batches.
  pub sent_singly : Bytes → Picker P → Local → Sent
  sent_singly addr p g =
      let requests = map (entry_request g.name) (wanted addr p g g.keys) in
      record { requests = requests; success = accepted requests }

  send_migrate_batch-singly :
      (group : Bytes) (batch : List (Bytes × Bytes))
      → let requests = map (entry_request group) batch in
        send_migrate_batch accepts client group batch
        ≡ record { requests = requests; success = accepted requests }
  unfolding send_migrate_batch accepted entry_request
  send_migrate_batch-singly group [] = refl
  send_migrate_batch-singly group ((key, val) ∷ batch) =
      ground (arith, send_migrate_batch-singly group batch)

  migrate_groups-singly :
      (addr : Bytes) (p : Picker P) (groups : List Local)
      → migrate_groups accepts client addr p groups ≡ map (sent_singly addr p) groups
  unfolding migrate_groups sent_singly
  migrate_groups-singly addr p [] = refl
  migrate_groups-singly addr p (g ∷ gs) = ground (
    arith,
    migrate_loop-wanted addr p g g.keys [],
    send_migrate_batch-singly g.name (wanted addr p g g.keys),
    migrate_groups-singly addr p gs,
  )

contains-without : (node : Bytes) (nodes : List Bytes) → contains (without node nodes) node ≡ false
unfolding contains
contains-without node [] = refl
contains-without node (x ∷ nodes) =
    ground (arith, contains-without node nodes, bytes_beq_iff x node)

-- Where the picker has a client for the new node, the batches of at most a hundred entries come to
-- the same as sending one by one, of each group in its order, the entries whose key belongs on the
-- new node and whose value is still there: none is left out at the turn of a batch or sent twice, and
-- what is counted as a success is what the client accepted. Afterwards the new node is healthy.
pub migrate_data_to_new_node-singly :
    {P : Type 0} (accepts : P → Request → Bool) (client : P) (addr : Bytes) (groups : List Local)
    (p : Picker P)
    → lookup addr p.clients ≡ some client
    → ((migrate_data_to_new_node accepts addr groups p).0
        ≡ map (sent_singly accepts client addr p) groups)
      × (is_healthy (migrate_data_to_new_node accepts addr groups p).1.cons_hash addr ≡ true)
unfolding migrate_data_to_new_node finish_migration mark_healthy is_healthy
migrate_data_to_new_node-singly accepts client addr groups p known =
    rw (known, migrate_data_to_new_node)
      (
        migrate_groups-singly accepts client addr p groups,
        ground (arith, contains-without addr p.cons_hash.unhealthy_nodes),
      )
