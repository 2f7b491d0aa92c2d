-- ===== src/Tests/Pickers.antt =====
-- A picker on the ring of two nodes, of which it has one as a client.
use go.Common.{
  ℕ, ◌<◌, length, ◌≡◌, ◌≢◌, ◌⊎◌, Bool, true, false, none, Option, map, if◌then◌else◌, arith, refl,
  some, List, [], ◌∷◌, Bytes, bytes_eq, bytes_beq,
}
use go.Common.Map.{lookup}
use go.Picker.{
  Picker, new_picker, pick_peer, put, delete_event, EventType, pick_peer_with_fallback,
  handle_watch_events,
}
use go.Picker.Fallback.{IsPick, AreRemote, pick_peer_with_fallback-IsPick}
use go.Picker.Migration.{Local, migrate_data_to_new_node, dest_keys, keys_to_republish}
use go.Picker.Migration.Batches.{migrate_data_to_new_node-singly, sent_singly}
use go.Picker.Migration.Destinations.{dest_keys-owned_by, noted, owned_by}
use go.Picker.Lifecycle.{
  new_client_picker, new_client_picker-clients, watch_prefix, service_name, default_svc_name,
  with_service_name, taken,
}
use go.Picker.Outsider.{start, after, watched, never_self}
use go.ConsistentHash.Ring.{is_healthy}
use go.Client.{Request}
use go.ConsistentHash.Route.Clockwise.{Successor}
use go.ConsistentHash.Route.Order.{firsts, keep_if, owners_from}
use go.Tests.Rings.{two, two-IsValid, some_hashes, alpha, beta, named_beta}

abbrev picker : Picker ℕ
picker = record { self_addr = alpha; cons_hash = two; clients = (beta, 7) ∷ [] }

pick_peer_with_fallback-IsPick_example :
    let out = pick_peer_with_fallback beta picker in
    (i : ℕ) × (i < length two.hashes)
    × Successor two (two.config.hash_func beta) i
    × IsPick picker
        (firsts (keep_if (is_healthy two) (owners_from two i (length two.hashes) 0)))
        out
    × AreRemote picker out
pick_peer_with_fallback-IsPick_example =
    pick_peer_with_fallback-IsPick beta picker two-IsValid.sorted some_hashes named_beta

abbrev gamma : Bytes
gamma = b'c' ∷ []

abbrev events : List (EventType × Bytes)
events = (put, gamma) ∷ (delete_event, beta) ∷ []

-- One group with an entry that is there and one that has expired.
abbrev local_group : Local
local_group = record {
  name = gamma;
  keys = alpha ∷ beta ∷ [];
  value_of = λ key. if bytes_beq key alpha then some (1 ∷ []) else none;
}

abbrev accepts : ℕ → Request → Bool
accepts client r = true

migrate_data_to_new_node-singly_example :
    ((migrate_data_to_new_node accepts beta (local_group ∷ []) picker).0
      ≡ map (sent_singly accepts 7 beta picker) (local_group ∷ []))
    × (is_healthy (migrate_data_to_new_node accepts beta (local_group ∷ []) picker).1.cons_hash beta
        ≡ true)
unfolding lookup bytes_beq
migrate_data_to_new_node-singly_example =
    migrate_data_to_new_node-singly accepts 7 beta (local_group ∷ []) picker refl

dest_keys-owned_by_example :
    (beta ≢ []
      → beta ≢ alpha
      → noted beta (dest_keys picker (gamma ∷ beta ∷ []) [])
        ≡ owned_by beta two (gamma ∷ beta ∷ []))
    × ((beta ≡ []) ⊎ (beta ≡ alpha) → noted beta (dest_keys picker (gamma ∷ beta ∷ []) []) ≡ [])
dest_keys-owned_by_example = dest_keys-owned_by beta picker (gamma ∷ beta ∷ []) two-IsValid.sorted

-- The same, over the watch events above, from the start.
abbrev started : Picker ℕ
started = new_picker alpha two.config

abbrev later : Picker ℕ
later = (handle_watch_events (λ addr. some 9) events started).picker

never_self_example :
    ((pick_peer_with_fallback beta later).is_self ≡ false)
    × ((pick_peer beta later).0.2 ≡ false)
    × ((leaving : Bytes) (ks : List Bytes) → keys_to_republish leaving later ks ≡ [])
never_self_example =
    never_self (λ addr. some 9) alpha two.config later beta (λ e. absurd (ground arith))
      (after started started later (start started) (watched events started))

abbrev services : Bytes → Option (List Bytes)
services prefix = some (alpha ∷ gamma ∷ beta ∷ gamma ∷ [])

abbrev dial : Bytes → Option ℕ
dial addr = if bytes_beq addr beta then none else some 9

new_client_picker-clients_example :
    let listed =
      services (watch_prefix (service_name (with_service_name gamma ∷ []) default_svc_name)) in
    let made =
      new_client_picker true services dial alpha two.config (with_service_name gamma ∷ []) in
    (true ≡ false → made ≡ none)
    × (listed ≡ none → made ≡ none)
    × ((addrs : List Bytes)
        → true ≡ true
        → listed ≡ some addrs
        → (p : Picker ℕ) × (made ≡ some p)
          × ((other : Bytes)
              → lookup other p.clients
                ≡ (if taken dial addrs alpha other then dial other else none)))
new_client_picker-clients_example =
    new_client_picker-clients dial true services alpha two.config (with_service_name gamma ∷ [])
