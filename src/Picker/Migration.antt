-- ===== src/Picker/Migration.antt =====
-- cache/peers.go: moving the entries of this node to others, when a service appears, goes, or when
-- this node shuts down. The table of groups is read as its local views, in the order of the range
-- over the map; what a `Set` of a client reports is a parameter, and the requests that are sent are
-- listed in their order. A batch is one list of keys with their values for the source's two slices.
pub mod Batches
pub mod Destinations
use go.Common.{
  ℕ, ◌+◌, Bool, true, false, not, ◌&&◌, ◌||◌, Option, none, some, List, [], ◌∷◌, ◌++◌,
  if◌then◌else◌, Bytes, ◌==◌, bytes_eq, contains, leb, ltb, length, is_some,
}
use go.Common.Map.{Map, lookup, insert}
use mathlib.Core.Option
use go.ConsistentHash.Route.{get_n}
use go.ByteView.{ByteView}
use go.Store.Backend.{Backend, Times}
use go.Metadata.{Marks}
use go.Client.{Request, set_request}
use go.Group.{Group}
use go.Group.Methods
use go.Picker.{Picker, should_key_be_on_node, finish_migration}

-- A group as the migrations see it: its name, `GetAllLocalKeys` and `GetLocalKeyValue`.
pub record Local : Type 0 where
  pub name : Bytes
  pub keys : List Bytes
  pub value_of : Bytes → Option Bytes

abbrev pub local_view :
    {V P : Type 0}
    → (backend : Backend V) → (as_view : V → Option ByteView) → (of_view : ByteView → V)
    → (peer_get : P → Bytes → Option Bytes) → (getter : Bytes → Option Bytes) → Times
    → Group backend.State P
    → Local
local_view backend as_view of_view peer_get getter t g = record {
  name = g.name;
  keys = Methods.get_all_local_keys backend as_view of_view peer_get getter g;
  value_of = λ key. Methods.get_local_key_value backend as_view of_view peer_get getter t key g;
}

-- The context of a migration's requests.
abbrev pub migration_marks : Marks
migration_marks = record { from_peer = false; from_migration = true }

abbrev pub migrate_batch_size : ℕ
migrate_batch_size = 100

-- What was sent, and how often without an error.
pub record Sent : Type 0 where
  pub requests : List Request
  pub success : ℕ

-- One after the other.
abbrev pub both : Sent → Sent → Sent
both a b = record { requests = a.requests ++ b.requests; success = a.success + b.success }

-- `wasKeyOnNode`
unfoldable pub was_key_on_node : {P : Type 0} → Bytes → Bytes → Picker P → Bool
was_key_on_node key node p = should_key_be_on_node key node p

-- `destKeys[dest] = append(destKeys[dest], key)` for the nodes of one key.
unfoldable pub note_dests :
    (self key : Bytes) → (nodes : List Bytes) → Map Bytes (List Bytes) → Map Bytes (List Bytes)
note_dests self key [] m = m
note_dests self key (dest ∷ nodes) m = note_dests self key nodes (
    if not (dest == []) && not (dest == self)
    then insert dest (Option.get_or (lookup dest m) [] ++ key ∷ []) m
    else m)

unfoldable pub dest_keys :
    {P : Type 0}
    → (p : Picker P) → (keys : List Bytes) → Map Bytes (List Bytes)
    → Map Bytes (List Bytes)
dest_keys p [] m = m
dest_keys p (key ∷ ks) m = dest_keys p ks (note_dests p.self_addr key (get_n key 2 p.cons_hash) m)

module _ {P : Type 0} (accepts : P → Request → Bool) where
  unfoldable pub send_migrate_batch : P → Bytes → List (Bytes × Bytes) → Sent
  send_migrate_batch client group [] = record { requests = []; success = 0 }
  send_migrate_batch client group ((key, val) ∷ batch) =
      let r = set_request migration_marks group key val in
      let rest = send_migrate_batch client group batch in
      record {
        requests = r ∷ rest.requests;
        success = if accepts client r then rest.success + 1 else rest.success;
      }

  -- The loop over the keys of one group, with the batch so far.
  unfoldable pub migrate_loop :
      P → Bytes → Picker P → Local → List Bytes → (batch : List (Bytes × Bytes)) → Sent
  migrate_loop client addr p g [] batch =
      if ltb 0 (length batch)
      then send_migrate_batch client g.name batch
      else record { requests = []; success = 0 }
  migrate_loop client addr p g (key ∷ ks) batch =
      let skipped = migrate_loop client addr p g ks batch in
      if not (should_key_be_on_node key addr p) then skipped else elim (g.value_of key) [
        | none ↦ skipped
        | some val ↦
            let batch' = batch ++ (key, val) ∷ [] in
            let kept = migrate_loop client addr p g ks batch' in
            let emptied = migrate_loop client addr p g ks [] in
            if leb migrate_batch_size (length batch')
            then both (send_migrate_batch client g.name batch') emptied
            else kept
      ]

  unfoldable pub migrate_groups : P → Bytes → Picker P → List Local → List Sent
  migrate_groups client addr p [] = []
  migrate_groups client addr p (g ∷ gs) =
      migrate_loop client addr p g g.keys [] ∷ migrate_groups client addr p gs

  unfoldable pub migrate_data_to_new_node : Bytes → List Local → Picker P → List Sent × Picker P
  migrate_data_to_new_node addr groups p = elim (lookup addr p.clients) [
    | none ↦ ([], p)
    | some client ↦ (migrate_groups client addr p groups, finish_migration addr p)
  ]

  -- The loop over the keys for one destination.
  unfoldable pub send_keys : P → Local → (keys : List Bytes) → Sent
  send_keys client g [] = record { requests = []; success = 0 }
  send_keys client g (key ∷ ks) =
      let rest = send_keys client g ks in
      elim (g.value_of key) [
        | none ↦ rest
        | some val ↦
            let r = set_request migration_marks g.name key val in
            record {
              requests = r ∷ rest.requests;
              success = if accepts client r then rest.success + 1 else rest.success;
            }
      ]

  -- The loop over `destKeys`: what is sent to which destination.
  unfoldable pub send_dests :
      Picker P → Local → (dests : Map Bytes (List Bytes)) → List (Bytes × Sent)
  send_dests p g [] = []
  send_dests p g ((dest, batch_keys) ∷ dests) =
      let rest = send_dests p g dests in
      elim (lookup dest p.clients) [
        | none ↦ rest
        | some client ↦ (dest, send_keys client g batch_keys) ∷ rest
      ]

  unfoldable pub migrate_data_away : Picker P → List Local → List (List (Bytes × Sent))
  migrate_data_away p [] = []
  migrate_data_away p (g ∷ gs) = send_dests p g (dest_keys p g.keys []) ∷ migrate_data_away p gs

-- The keys that `migrateDataFromLeavingNode` collects for one group, and does no more than log.
unfoldable pub keys_to_republish :
    {P : Type 0} → (leaving : Bytes) → Picker P → List Bytes → List Bytes
keys_to_republish leaving p [] = []
keys_to_republish leaving p (key ∷ ks) =
    let rest = keys_to_republish leaving p ks in
    if was_key_on_node key leaving p && should_key_be_on_node key p.self_addr p
    then key ∷ rest
    else rest

-- `migrateDataFromLeavingNode`: the groups with keys that this node now answers for, and the keys. It
-- sends nothing.
unfoldable pub migrate_data_from_leaving_node :
    {P : Type 0} → (leaving : Bytes) → Picker P → List Local → List (Bytes × List Bytes)
migrate_data_from_leaving_node leaving p [] = []
migrate_data_from_leaving_node leaving p (g ∷ gs) =
    let rest = migrate_data_from_leaving_node leaving p gs in
    elim (keys_to_republish leaving p g.keys) [
      | [] ↦ rest
      | key ∷ more ↦ (g.name, key ∷ more) ∷ rest
    ]
