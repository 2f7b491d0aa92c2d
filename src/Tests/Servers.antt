-- ===== src/Tests/Servers.antt =====
-- A server with one group over the LRU store, reached through metadata that hands on the pairs as they
-- are; and servers whose certificates cannot be loaded.
use go.Common.{
  ℕ, ◌≡◌, ◌⊎◌, inl, refl, Bool, true, false, Option, none, some, [], ◌∷◌, ◌++◌, Bytes, bytes_eq,
  arith,
}
use go.Common.Map.{Map, lookup}
use go.Store.Lru.{LruCache}
use go.ByteView.{ByteView}
use go.Metadata.{Metadata, Marks, Pairs, values_of}
use go.Client.{set_request, delete_request}
use go.Group.{Group}
use go.Server.{
  ServerOptions, Failure, default_server_options, with_tls, with_cors, set_options, new_server,
  serve_set, serve_delete,
}
use go.Server.Relay.{relay-quiet, SameTasks, FiltersValid}
use go.Server.Sharing.{new_server-shared}
use go.Tests.Groups.{backend, as_view, of_view, peer_get, getter, t, apple, value, group}

abbrev wire : Metadata
wire = record {
  Wire = Pairs;
  deliver = λ pairs. pairs;
  get = λ pairs key. values_of key pairs;
  get-deliver = λ pairs key plain named. refl;
}

abbrev groups : Map Bytes (Group (LruCache ByteView) ℕ)
groups = (apple, record group { bloom_filter = none }) ∷ []

groups-FiltersValid : FiltersValid backend as_view of_view peer_get getter groups
unfolding FiltersValid lookup
groups-FiltersValid name g bf found there = absurd (ground arith)

abbrev marks : Marks
marks = record { from_peer = true; from_migration = false }

relay-quiet_example :
    ((r : (Failure ⊎ Bytes) × Map Bytes (Group (LruCache ByteView) ℕ)) × (serve_set backend as_view
          of_view peer_get getter wire 5 t
          (set_request marks apple apple value)
          groups
        ≡ some r)
      × SameTasks backend as_view of_view peer_get getter groups r.1)
    × SameTasks backend as_view of_view peer_get getter groups
        (serve_delete backend as_view of_view peer_get getter wire
          (delete_request marks apple apple)
          groups).1
relay-quiet_example =
    relay-quiet backend as_view of_view peer_get getter wire 5 t marks apple apple value groups
      groups-FiltersValid (inl refl)

abbrev new_etcd : ServerOptions → Option ℕ
new_etcd o = some 3

abbrev load_tls : Bytes → Bytes → Bool
load_tls cert key = false

new_server-shared_example :
    let opts = with_cors (apple ∷ []) ∷ with_tls value value ∷ [] in
    let first = new_server new_etcd load_tls apple apple opts default_server_options in
    let second = new_server new_etcd load_tls value apple [] first.1 in
    (second.1 ≡ set_options (opts ++ []) default_server_options)
    × (first.1.tls ≡ true
        → (second.1.tls ≡ true) × (((c k : Bytes) → load_tls c k ≡ false) → second.0 ≡ none))
new_server-shared_example =
    new_server-shared new_etcd load_tls apple value apple apple
      (with_cors (apple ∷ []) ∷ with_tls value value ∷ []) [] default_server_options
