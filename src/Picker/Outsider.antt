-- ===== src/Picker/Outsider.antt =====
-- The place of the address that a picker is made with on its ring, over everything that peers.go does to a picker.
pub mod Absent
use go.Common.{
  ℕ, zero, suc, ◌+◌, ◌%◌, ◌≡◌, ◌≢◌, ◌⊎◌, refl, sym, Bool, true, false, not, ◌&&◌, Option, none,
  some, List, [], ◌∷◌, ◌++◌, Bytes, bytes_eq, nat_eq, bytes_beq, bytes_beq_iff, nat_beq, ltb,
  Bool-cases, Option-cases, inl, inr, arith, is_some, ◌||◌, All, All-append, length, if◌then◌else◌,
  contains,
}
use go.Common.Map.{lookup, lookup-insert, lookup-delete}
use go.ConsistentHash.Defaults.{Config}
use go.ConsistentHash.Ring.{
  Ring, new, add_replicas, add_node, add_nodes, add, remove_replicas, remove as remove_node,
  replicas_of, mark_unhealthy, mark_healthy, is_healthy, virtual_hash, count_request,
}
use go.ConsistentHash.Route.{node_at, get_n_loop, get_n, get, get_n_healthy, start_index}
use go.Picker.{
  Picker, new_picker, Watched, EventType, put, delete_event, set, handle_event, handle_events,
  handle_watch_events, should_key_be_on_node, remove, drop_leaving, finish_migration,
  fetch_all_services, pick_nodes, pick_peer, pick_peer_with_fallback,
}
use go.Picker.Migration.{keys_to_republish}
use go.Picker.Outsider.Absent.{IsAbsent, add-IsAbsent, remove-IsAbsent, get_n_loop-IsAbsent}

-- What a picker goes through: the first fetch, the watch events, and what is done some time after
-- a service was found or has gone.
pub data Step {P : Type 0} (dial : Bytes → Option P) : Picker P → Picker P → Type 0 where
  fetched : (addrs : List Bytes) (p : Picker P) → Step dial p (fetch_all_services dial addrs p)
  watched :
      (events : List (EventType × Bytes)) (p : Picker P)
      → Step dial p (handle_watch_events dial events p).picker
  finished : (addr : Bytes) (p : Picker P) → Step dial p (finish_migration addr p)
  dropped : (addr : Bytes) (p : Picker P) → Step dial p (drop_leaving addr p)
  asked : (key : Bytes) (p : Picker P) → Step dial p (pick_peer key p).1

pub data Reaches {P : Type 0} (dial : Bytes → Option P) : Picker P → Picker P → Type 0 where
  start : (p : Picker P) → Reaches dial p p
  after : (p q r : Picker P) → Reaches dial p q → Step dial q r → Reaches dial p r

All-contains :
    (self : Bytes) (nodes : List Bytes) → All (λ x. x ≢ self) nodes → contains nodes self ≡ false
unfolding contains
All-contains self [] all = refl
All-contains self (x ∷ nodes) all =
    ground (arith, all.0, All-contains self nodes all.1, bytes_beq_iff x self)

get-hash_map : (key : Bytes) (r : Ring) → (get key r).1.hash_map ≡ r.hash_map
unfolding get count_request
get-hash_map key r = ground arith

module _ {P : Type 0} where
  pick_peer-state :
      (key : Bytes) (p : Picker P)
      → (pick_peer key p).1 ≡ record p { cons_hash = (get key p.cons_hash).1 }
  unfolding pick_peer
  pick_peer-state key p = ground arith

  -- Whether the pick is this node's own.
  pick_nodes-IsOutsider :
      (nodes : List Bytes) (p : Picker P)
      → All (λ x. x ≢ p.self_addr) nodes
      → (pick_nodes nodes p).is_self ≡ false
  unfolding pick_nodes
  pick_nodes-IsOutsider [] p all = refl
  pick_nodes-IsOutsider (x ∷ rest) p all = ground (arith, all.0, bytes_beq_iff x p.self_addr)

  record IsOutsider (self : Bytes) (p : Picker P) : Type 0 where
    own : p.self_addr ≡ self
    ring : IsAbsent self p.cons_hash
    clients : lookup self p.clients ≡ none

  module _ (dial : Bytes → Option P) (self : Bytes) where
    set-IsOutsider :
        (addr : Bytes) (p : Picker P)
        → addr ≢ self
        → IsOutsider self p
        → IsOutsider self (set dial addr p)
    unfolding set
    set-IsOutsider addr p other v = elim (Option-cases (dial addr)) [
      | inl down ↦ rw (down, set) v
      | inr (client, up) ↦
          rw (up, set)
            (record {
              own = v.own;
              ring = add-IsAbsent self addr p.cons_hash other v.ring;
              clients = ground (
                arith,
                v.clients,
                lookup-insert addr self client p.clients,
                bytes_beq_iff addr self,
              );
            })
    ]

    -- Marking leaves the owners of the hashes alone.
    remarked :
        (ring : Ring) (p : Picker P)
        → ring.hash_map ≡ p.cons_hash.hash_map
        → IsOutsider self p
        → IsOutsider self (record p { cons_hash = ring })
    remarked ring p same v = record {
      own = v.own;
      ring = λ h e. v.ring h (rw (sym same) e);
      clients = v.clients;
    }

    handle_event-IsOutsider :
        (kind : EventType) (addr : Bytes) (w : Watched P)
        → IsOutsider self w.picker
        → IsOutsider self (handle_event dial kind addr w).picker
    unfolding handle_event mark_unhealthy
    handle_event-IsOutsider put addr w v =
        elim (Bool-cases
          (bytes_beq addr w.picker.self_addr || is_some (lookup addr w.picker.clients))) [
            | inl skip ↦ rw skip v
            | inr new_node ↦
                let other : addr ≢ self =
                  λ e. ground (arith, v.own, bytes_beq_iff addr w.picker.self_addr) in
                rw new_node
                  (remarked _ (set dial addr w.picker) refl (set-IsOutsider addr w.picker other v))
          ]
    handle_event-IsOutsider delete_event addr w v =
        elim (Bool-cases
          (bytes_beq addr w.picker.self_addr || not (is_some (lookup addr w.picker.clients)))) [
            | inl skip ↦ rw skip v
            | inr known ↦ rw known (remarked _ w.picker refl v)
          ]

    handle_events-IsOutsider :
        (events : List (EventType × Bytes)) (w : Watched P)
        → IsOutsider self w.picker
        → IsOutsider self (handle_events dial events w).picker
    unfolding handle_events
    handle_events-IsOutsider [] w v = v
    handle_events-IsOutsider ((kind, addr) ∷ events) w v =
        handle_events-IsOutsider events (handle_event dial kind addr w)
          (handle_event-IsOutsider kind addr w v)

    fetch-IsOutsider :
        (addrs : List Bytes) (p : Picker P)
        → IsOutsider self p
        → IsOutsider self (fetch_all_services dial addrs p)
    unfolding fetch_all_services mark_healthy
    fetch-IsOutsider [] p v = v
    fetch-IsOutsider (addr ∷ addrs) p v =
        elim (Bool-cases (bytes_beq addr [] || bytes_beq addr p.self_addr)) [
          | inl skip ↦ rw skip (fetch-IsOutsider addrs p v)
          | inr new_node ↦
              let other : addr ≢ self =
                λ e. ground (arith, v.own, bytes_beq_iff addr p.self_addr) in
              rw new_node (
                fetch-IsOutsider addrs _
                  (remarked _ (set dial addr p) refl (set-IsOutsider addr p other v)))
        ]

    drop-IsOutsider :
        (addr : Bytes) (p : Picker P) → IsOutsider self p → IsOutsider self (drop_leaving addr p)
    unfolding drop_leaving remove
    drop-IsOutsider addr p v = elim (Bool-cases (is_some (lookup addr p.clients))) [
      | inr gone ↦ rw gone v
      | inl known ↦ rw known (record {
        own = v.own;
        ring = remove-IsAbsent self addr p.cons_hash v.ring;
        clients = ground (arith, v.clients, lookup-delete addr self p.clients);
      })
    ]

    finish-IsOutsider :
        (addr : Bytes) (p : Picker P)
        → IsOutsider self p
        → IsOutsider self (finish_migration addr p)
    unfolding finish_migration mark_healthy
    finish-IsOutsider addr p v = elim (Bool-cases (is_some (lookup addr p.clients))) [
      | inl known ↦ rw known (remarked _ p refl v)
      | inr gone ↦ rw gone v
    ]

    ask-IsOutsider :
        (key : Bytes) (p : Picker P) → IsOutsider self p → IsOutsider self (pick_peer key p).1
    ask-IsOutsider key p v =
        rw (pick_peer-state key p) (remarked _ p (get-hash_map key p.cons_hash) v)

    move-IsOutsider : (p q : Picker P) → Step dial p q → IsOutsider self p → IsOutsider self q
    unfolding handle_watch_events
    move-IsOutsider _ _ (fetched addrs p) v = fetch-IsOutsider addrs p v
    move-IsOutsider _ _ (watched events p) v =
        handle_events-IsOutsider events (record { picker = p; new_nodes = []; leaving_nodes = [] })
          v
    move-IsOutsider _ _ (finished addr p) v = finish-IsOutsider addr p v
    move-IsOutsider _ _ (dropped addr p) v = drop-IsOutsider addr p v
    move-IsOutsider _ _ (asked key p) v = ask-IsOutsider key p v

    reached-IsOutsider : (p q : Picker P) → Reaches dial p q → IsOutsider self p → IsOutsider self q
    reached-IsOutsider p _ (start _) v = v
    reached-IsOutsider p _ (after _ q r way step) v =
        move-IsOutsider q r step (reached-IsOutsider p q way v)

    new-IsOutsider : (config : Config) → IsOutsider self (new_picker self config)
    unfolding new_picker new lookup
    new-IsOutsider config = record {
      own = refl;
      ring = λ h e. absurd (ground arith);
      clients = refl;
    }

    owners-IsOutsider :
        (key : Bytes) (p : Picker P)
        → self ≢ []
        → IsOutsider self p
        → All (λ x. x ≢ self) (get_n key 2 p.cons_hash)
    unfolding get_n
    owners-IsOutsider key p named v =
        elim (Bool-cases (bytes_beq key [] || false || nat_beq (length p.cons_hash.hashes) 0)) [
          | inl nothing ↦ rw nothing tt
          | inr more ↦ rw more (
              get_n_loop-IsAbsent self (λ _. true) p.cons_hash (start_index key p.cons_hash) 2
                (length p.cons_hash.hashes) 0 [] [] named v.ring tt)
        ]

    -- No key is this node's after another has left.
    republish-IsOutsider :
        (leaving : Bytes) (p : Picker P) (ks : List Bytes)
        → self ≢ []
        → IsOutsider self p
        → keys_to_republish leaving p ks ≡ []
    unfolding keys_to_republish should_key_be_on_node
    republish-IsOutsider leaving p [] named v = refl
    republish-IsOutsider leaving p (key ∷ ks) named v = ground (
      arith,
      v.own,
      All-contains self (get_n key 2 p.cons_hash) (owners-IsOutsider key p named v),
      republish-IsOutsider leaving p ks named v,
    )

    healthy-IsOutsider :
        (key : Bytes) (p : Picker P)
        → self ≢ []
        → IsOutsider self p
        → All (λ x. x ≢ p.self_addr) (get_n_healthy key 2 p.cons_hash)
    unfolding get_n_healthy
    healthy-IsOutsider key p named v =
        elim (Bool-cases (bytes_beq key [] || false || nat_beq (length p.cons_hash.hashes) 0)) [
          | inl nothing ↦ rw (v.own, nothing) tt
          | inr more ↦
              rw (v.own, more)
                (get_n_loop-IsAbsent self (is_healthy p.cons_hash) p.cons_hash
                  (start_index key p.cons_hash) 2 (length p.cons_hash.hashes) 0 [] [] named v.ring
                  tt)
        ]

    -- Let `self` be the address that a new picker is made with, not empty. Whatever is then fetched,
    -- watched, migrated or dropped, neither `PickPeerWithFallback` nor `PickPeer` reports self, and
    -- where another node leaves, no key is found to take over. Only the address as it is spelled there
    -- is meant: a service that is listed under another spelling of it is a peer like any other.
    pub never_self :
        (config : Config) (p : Picker P) (key : Bytes)
        → self ≢ []
        → Reaches dial (new_picker self config) p
        → ((pick_peer_with_fallback key p).is_self ≡ false)
          × ((pick_peer key p).0.2 ≡ false)
          × ((leaving : Bytes) (ks : List Bytes) → keys_to_republish leaving p ks ≡ [])
    unfolding pick_peer_with_fallback pick_peer
    never_self config p key named way =
        let v = reached-IsOutsider _ p way (new-IsOutsider config) in
        (
          pick_nodes-IsOutsider (get_n_healthy key 2 p.cons_hash) p
              (healthy-IsOutsider key p named v),
          ground (arith, v.own, v.clients, bytes_beq_iff (get key p.cons_hash).0 p.self_addr),
          λ leaving ks. republish-IsOutsider leaving p ks named v,
        )
