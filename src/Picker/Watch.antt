-- ===== src/Picker/Watch.antt =====
-- What the watch events of peers.go leave of a picker.
use go.Common.{
  ◌≡◌, ◌≢◌, Option, none, List, [], ◌∷◌, Bytes, bytes_eq, bytes_beq, bytes_beq_iff, Bool-cases,
  Option-cases, inl, inr, arith, is_some, ◌||◌, not,
}
use go.Common.Map.{lookup, lookup-insert}
use go.ConsistentHash.Ring.{Ring, mark_unhealthy, has_node}
use go.ConsistentHash.Ring.Members.{IsValid, add-IsValid}
use go.Picker.{
  Picker, Watched, EventType, put, delete_event, set, handle_event, handle_events,
  handle_watch_events,
}

mark_unhealthy-IsValid : (addr : Bytes) (r : Ring) → IsValid r → IsValid (mark_unhealthy addr r)
unfolding mark_unhealthy has_node
mark_unhealthy-IsValid addr r v = record {
  sorted = v.sorted;
  linked = record { owned = v.linked.owned; named = v.linked.named; uniform = v.linked.uniform };
}

module _ {P : Type 0} where
  -- The ring is well formed, and the picker has no client of its own address.
  pub record IsPicker (p : Picker P) : Type 0 where
    pub ring : IsValid p.cons_hash
    pub apart : lookup p.self_addr p.clients ≡ none

  module _ (dial : Bytes → Option P) where
    set-IsPicker :
        (addr : Bytes) (p : Picker P) → addr ≢ p.self_addr → IsPicker p → IsPicker (set dial addr p)
    unfolding set
    set-IsPicker addr p other v = elim (Option-cases (dial addr)) [
      | inl down ↦ rw (down, set) v
      | inr (client, up) ↦
          rw (up, set)
            (record {
              ring = add-IsValid (addr ∷ []) p.cons_hash v.ring;
              apart = ground (
                arith,
                v.apart,
                lookup-insert addr p.self_addr client p.clients,
                bytes_beq_iff addr p.self_addr,
              );
            })
    ]

    marked :
        (addr : Bytes) (p : Picker P)
        → IsPicker p
        → IsPicker (record p { cons_hash = mark_unhealthy addr p.cons_hash })
    marked addr p v = record {
      ring = mark_unhealthy-IsValid addr p.cons_hash v.ring;
      apart = v.apart;
    }

    handle_event-IsPicker :
        (kind : EventType) (addr : Bytes) (w : Watched P)
        → IsPicker w.picker
        → IsPicker (handle_event dial kind addr w).picker
    unfolding handle_event
    handle_event-IsPicker put addr w v =
        elim (Bool-cases
          (bytes_beq addr w.picker.self_addr || is_some (lookup addr w.picker.clients))) [
            | inl skip ↦ rw skip v
            | inr go ↦
                let other : addr ≢ w.picker.self_addr =
                  λ e. ground (arith, bytes_beq_iff addr w.picker.self_addr) in
                rw go (marked addr (set dial addr w.picker) (set-IsPicker addr w.picker other v))
          ]
    handle_event-IsPicker delete_event addr w v =
        elim (Bool-cases
          (bytes_beq addr w.picker.self_addr || not (is_some (lookup addr w.picker.clients)))) [
            | inl skip ↦ rw skip v
            | inr go ↦ rw go (marked addr w.picker v)
          ]

    handle_events-IsPicker :
        (events : List (EventType × Bytes)) (w : Watched P)
        → IsPicker w.picker
        → IsPicker (handle_events dial events w).picker
    unfolding handle_events
    handle_events-IsPicker [] w v = v
    handle_events-IsPicker ((kind, addr) ∷ events) w v =
        handle_events-IsPicker events (handle_event dial kind addr w)
          (handle_event-IsPicker kind addr w v)

    -- Any watch events keep the ring of a picker well formed, and the picker has no client of its
    -- own address afterwards if it had none before.
    pub handle_watch_events-IsPicker :
        (events : List (EventType × Bytes)) (p : Picker P)
        → IsPicker p
        → IsPicker (handle_watch_events dial events p).picker
    unfolding handle_watch_events
    handle_watch_events-IsPicker events p v =
        handle_events-IsPicker events (record { picker = p; new_nodes = []; leaving_nodes = [] }) v
