-- ===== src/Picker.antt =====
-- cache/peers.go: `ClientPicker`, which picks the peers for a key on the ring, and follows the
-- services that etcd reports. A method runs whole under `p.mu`. A client is any type; `dial` is what
-- `NewClient` makes for an address, `none` being an error.
pub mod Fallback
pub mod Watch
pub mod Watching
pub mod Outsider
pub mod Migration
pub mod Lifecycle
use go.Common.{
  ℕ, Bool, true, false, not, ◌&&◌, ◌||◌, Option, none, some, List, [], ◌∷◌, ◌++◌, if◌then◌else◌,
  is_some, Bytes, ◌==◌, bytes_eq, contains, leb, length, ◌+◌, drop, bytes_beq, take,
}
use go.Common.Map.{Map, lookup, insert, delete, keys}
use go.ConsistentHash.Defaults.{Config}
use go.ConsistentHash.Ring.{Ring, new, add, remove as remove_node, mark_unhealthy, mark_healthy}
use go.ConsistentHash.Route.{get, get_n, get_n_healthy}

pub record Picker (P : Type 0) : Type 0 where
  pub self_addr : Bytes
  pub cons_hash : Ring
  pub clients : Map Bytes P

-- The picker that `NewClientPicker` starts from, before services are looked for.
unfoldable pub new_picker : {P : Type 0} → (addr : Bytes) → Config → Picker P
new_picker addr config = record { self_addr = addr; cons_hash = new config; clients = [] }

-- The results of `PickPeerWithFallback`.
pub record Pick (P : Type 0) : Type 0 where
  pub primary : Option P
  pub replica : Option P
  pub ok : Bool
  pub is_self : Bool

pub data EventType : Type 0 where
  put delete_event : EventType

-- What `handleWatchEvents` collects, beside the picker.
pub record Watched (P : Type 0) : Type 0 where
  pub picker : Picker P
  pub new_nodes : List Bytes
  pub leaving_nodes : List Bytes

module _ {P : Type 0} where
  -- `PickPeer`: the peer, whether there is one, and whether it is this node.
  unfoldable pub pick_peer : Bytes → Picker P → (Option P × Bool × Bool) × Picker P
  pick_peer key p =
      let (addr, ring) = get key p.cons_hash in
      let p' = record p { cons_hash = ring } in
      if addr == [] then ((none, false, false), p') else elim (lookup addr p.clients) [
        | some client ↦ ((some client, true, addr == p.self_addr), p')
        | none ↦ ((none, false, false), p')
      ]

  -- The client of the second node, if there is one.
  abbrev pub second_client : List Bytes → Picker P → Option P
  second_client [] p = none
  second_client (addr ∷ _) p = lookup addr p.clients

  unfoldable pub pick_nodes : List Bytes → Picker P → Pick P
  pick_nodes [] p = record { primary = none; replica = none; ok = false; is_self = false }
  pick_nodes (first ∷ rest) p =
      if first == p.self_addr
      then record { primary = none; replica = second_client rest p; ok = true; is_self = true }
      else record {
        primary = lookup first p.clients;
        replica = elim rest [
          | [] ↦ none
          | second ∷ _ ↦ if second == p.self_addr then none else lookup second p.clients
        ];
        ok = is_some (lookup first p.clients);
        is_self = false;
      }

  unfoldable pub pick_peer_with_fallback : Bytes → Picker P → Pick P
  pick_peer_with_fallback key p = pick_nodes (get_n_healthy key 2 p.cons_hash) p

  abbrev others : Bytes → Map Bytes P → List P
  others self [] = []
  others self ((addr, client) ∷ m) = if addr == self then others self m else client ∷ others self m

  unfoldable pub get_all_peers : Picker P → List P
  get_all_peers p = others p.self_addr p.clients

  unfoldable pub remove : Bytes → Picker P → Picker P
  remove addr p = record p {
    cons_hash = (remove_node addr p.cons_hash).1;
    clients = delete addr p.clients;
  }

  -- What is done 30 seconds after a service has gone.
  unfoldable pub drop_leaving : Bytes → Picker P → Picker P
  drop_leaving addr p = if is_some (lookup addr p.clients) then remove addr p else p

  -- The end of `migrateDataToNewNode`.
  unfoldable pub finish_migration : Bytes → Picker P → Picker P
  finish_migration addr p =
      if is_some (lookup addr p.clients)
      then record p { cons_hash = mark_healthy addr p.cons_hash }
      else p

  unfoldable pub should_key_be_on_node : Bytes → Bytes → Picker P → Bool
  should_key_be_on_node key node p = contains (get_n key 2 p.cons_hash) node

  module _ (dial : Bytes → Option P) where
    unfoldable pub set : Bytes → Picker P → Picker P
    set addr p = elim (dial addr) [
      | none ↦ p
      | some client ↦ record p {
        cons_hash = (add (addr ∷ []) p.cons_hash).1;
        clients = insert addr client p.clients;
      }
    ]

    -- One event of `handleWatchEvents`.
    unfoldable pub handle_event : EventType → Bytes → Watched P → Watched P
    handle_event put addr w =
        let p = set addr w.picker in
        if addr == w.picker.self_addr || is_some (lookup addr w.picker.clients)
        then w
        else record w {
          picker = record p { cons_hash = mark_unhealthy addr p.cons_hash };
          new_nodes = w.new_nodes ++ addr ∷ [];
        }
    handle_event delete_event addr w =
        let p = w.picker in
        if addr == p.self_addr || not (is_some (lookup addr p.clients)) then w else record w {
          picker = record p { cons_hash = mark_unhealthy addr p.cons_hash };
          leaving_nodes = w.leaving_nodes ++ addr ∷ [];
        }

    unfoldable pub handle_events : List (EventType × Bytes) → Watched P → Watched P
    handle_events [] w = w
    handle_events ((kind, addr) ∷ events) w = handle_events events (handle_event kind addr w)

    unfoldable pub handle_watch_events : List (EventType × Bytes) → Picker P → Watched P
    handle_watch_events events p =
        handle_events events (record { picker = p; new_nodes = []; leaving_nodes = [] })

    -- The loop of `fetchAllServices` over the addresses that etcd returned.
    unfoldable pub fetch_all_services : List Bytes → Picker P → Picker P
    fetch_all_services [] p = p
    fetch_all_services (addr ∷ addrs) p =
        let p' = set addr p in
        fetch_all_services addrs (
          if addr == [] || addr == p.self_addr
          then p
          else record p' { cons_hash = mark_healthy addr p'.cons_hash })

-- `parseAddrFromKey`, with the prefix written out.
unfoldable pub parse_addr_from_key : (key svc_name : Bytes) → Bytes
parse_addr_from_key key svc_name =
    let prefix =
      (b'/' ∷ b's' ∷ b'e' ∷ b'r' ∷ b'v' ∷ b'i' ∷ b'c' ∷ b'e' ∷ b's' ∷ b'/' ∷ [])
      ++ svc_name
      ++ b'/' ∷ [] in
    if bytes_beq (take (length prefix) key) prefix then drop (length prefix) key else []
