-- ===== src/Group/Methods.antt =====
-- The methods of group.go that serve requests. `getter` is the data source and `peer_get` what a
-- peer answers, with `none` for an error; each is asked only where the source asks it.
use go.Common.{
  ℕ, ◌+◌, ◌%◌, ◌^◌, Bool, not, ◌&&◌, Option, none, some, List, [], if◌then◌else◌, length, nat_beq,
  Bytes, ◌==◌, bytes_eq,
}
use go.Common.Int64
use go.ByteView.{ByteView, clone_bytes, byte_slice}
use go.Store.Backend.{Backend, Times}
use go.Bloom
use mathlib.Core.Option
use go.Cache
use go.Picker.{Pick}
use go.Group.{
  Error, key_required, value_required, key_not_found, group_closed, failed, Result, error, ok,
  set_task, broadcast_delete, Peers, Stats, Group, plus_one, propagate, note_key, admitted,
}

pub record GroupReport : Type 0 where
  pub name : Bytes
  pub closed : Bool
  pub expiration : ℕ
  pub counters : Stats
  pub total_gets : ℕ
  pub cache : record { initialized : Bool; closed : Bool; hits : ℕ; misses : ℕ; size : Option ℕ }
  pub filter : Option Bloom.Report

module _ {V P : Type 0} (backend : Backend V) (as_view : V → Option ByteView)
    (of_view : ByteView → V) (peer_get : P → Bytes → Option Bytes)
    (getter : Bytes → Option Bytes) where
  abbrev pub G : Type 0
  G = Group backend.State P

  -- The entry goes into the cache, with its deadline, and the key into the filter.
  unfoldable pub store_view : (now : ℕ) → Times → Bytes → ByteView → G → Option G
  store_view now t key view g = note_key key (record g {
    main_cache =
        if Int64.lt 0 g.expiration
        then Cache.add_with_expiration backend as_view of_view t key view (now + g.expiration)
            g.main_cache
        else Cache.add backend as_view of_view t key view g.main_cache;
  })

  abbrev pub peer_hit : G → G
  peer_hit g = record g { stats = record g.stats { peer_hits = plus_one g.stats.peer_hits } }

  abbrev pub peer_miss : G → G
  peer_miss g = record g { stats = record g.stats { peer_misses = plus_one g.stats.peer_misses } }

  -- `getFromPeer`, of a peer that may be nil.
  abbrev pub get_from_peer : Bytes → Option P → Option ByteView
  get_from_peer key none = none
  get_from_peer key (some peer) = elim (peer_get peer key) [
    | none ↦ none
    | some bytes ↦ some (record { b = bytes })
  ]

  -- The end of `loadData`: the data source.
  unfoldable pub load_from_source : Bytes → G → Result × G
  load_from_source key g = elim (getter key) [
    | none ↦ (error failed, g)
    | some bytes ↦ (
      ok (record { b = clone_bytes bytes }),
      record g { stats = record g.stats { loader_hits = plus_one g.stats.loader_hits } },
    )
  ]

  -- The primary, then the replica, then the source.
  unfoldable pub load_picked : Bytes → Pick P → G → Result × G
  load_picked key pick g =
      if pick.ok && not pick.is_self
      then elim (get_from_peer key pick.primary) [
        | some view ↦ (ok view, peer_hit g)
        | none ↦ elim (get_from_peer key pick.replica) [
          | some view ↦ (ok view, peer_hit g)
          | none ↦ load_from_source key g
        ]
      ]
      else load_from_source key g

  -- A peer that is reported is there: `PickPeer` of `ClientPicker` reports no nil one.
  unfoldable pub load_peer : Bytes → Option P × Bool × Bool → G → Result × G
  load_peer key (peer, found, itself) g =
      if found && not itself
      then elim (get_from_peer key peer) [
        | some view ↦ (ok view, peer_hit g)
        | none ↦ load_from_source key (peer_miss g)
      ]
      else load_from_source key g

  unfoldable pub load_data : Bytes → G → Result × G
  load_data key g = elim g.peers [
    | none ↦ load_from_source key g
    | some peers ↦ elim peers.with_fallback [
      | some pick ↦ load_picked key (pick key) g
      | none ↦ load_peer key (peers.pick key) g
    ]
  ]

  abbrev pub count_load : G → G
  count_load g = record g { stats = record g.stats { loads = plus_one g.stats.loads } }

  -- What `load` does with the result of the loader.
  unfoldable pub keep_loaded : (now : ℕ) → Times → Bytes → Result × G → Option (Result × G)
  keep_loaded now t key (error e, g) = some (
    error e,
    record g { stats = record g.stats { loader_errors = plus_one g.stats.loader_errors } },
  )
  keep_loaded now t key (ok view, g) = elim (store_view now t key view g) [
    | none ↦ none
    | some g' ↦ some (ok view, g')
  ]

  unfoldable pub load : (now : ℕ) → Times → Bytes → G → Option (Result × G)
  load now t key g = let (r, g') = load_data key g in keep_loaded now t key (r, count_load g')

  -- The cache, then the loader.
  unfoldable pub get_admitted : (now : ℕ) → Times → Bytes → G → Option (Result × G)
  get_admitted now t key g =
      let ((view, found), c) = Cache.get backend as_view of_view t key g.main_cache in
      let g' = record g { main_cache = c } in
      if found
      then some (
        ok view,
        record g' { stats = record g.stats { local_hits = plus_one g.stats.local_hits } },
      )
      else load now t key
          (record g' { stats = record g.stats { local_misses = plus_one g.stats.local_misses } })

  unfoldable pub get : (now : ℕ) → Times → Bytes → G → Option (Result × G)
  get now t key g =
      if g.closed
      then some (error group_closed, g)
      else (if key == [] then some (error key_required, g) else elim (admitted key g) [
        | none ↦ none
        | some may ↦ if may then get_admitted now t key g else some (error key_not_found, g)
      ])

  -- `Set`: the error, if any, and the group.
  unfoldable pub set :
      (now : ℕ)
      → Times
      → (from_peer from_migration : Bool) → Bytes
      → (value : Bytes) → G
      → Option (Option Error × G)
  set now t from_peer from_migration key value g =
      if g.closed
      then some (some group_closed, g)
      else (if key == []
          then some (some key_required, g)
          else (if nat_beq (length value) 0
              then some (some value_required, g)
              else elim (store_view now t key (record { b = clone_bytes value }) g) [
                | none ↦ none
                | some g' ↦
                    some (
                      none,
                      propagate from_peer from_migration (set_task key (clone_bytes value)) g',
                    )
              ]))

  unfoldable pub delete : (from_peer from_migration : Bool) → Bytes → G → Option Error × G
  delete from_peer from_migration key g =
      if g.closed
      then (some group_closed, g)
      else (if key == [] then (some key_required, g) else (
        none,
        propagate from_peer from_migration (broadcast_delete key)
            (record g { main_cache = (Cache.delete backend as_view of_view key g.main_cache).1 }),
      ))

  unfoldable pub get_all_local_keys : G → List Bytes
  get_all_local_keys g = Cache.keys backend as_view of_view g.main_cache

  unfoldable pub get_local_key_value : Times → Bytes → G → Option Bytes
  get_local_key_value t key g =
      let (view, found) = Cache.get_raw_value backend as_view of_view t key g.main_cache in
      if found then some (byte_slice view) else none

  unfoldable pub set_local_direct : (now : ℕ) → Times → Bytes → Bytes → G → Option G
  set_local_direct now t key value g = store_view now t key (record { b = clone_bytes value }) g

  -- `RegisterPeers`; `none`: it panics where there are peers already.
  unfoldable pub register_peers : Peers P → G → Option G
  register_peers peers g = elim g.peers [
    | none ↦ some (record g { peers = some peers })
    | some _ ↦ none
  ]

  -- `Stats`: the numbers, with those of the cache and of the filter if there is one. The hit rate
  -- divides the local hits by the hits and misses, where there are any.
  unfoldable pub stats : G → GroupReport
  stats g = record {
    name = g.name;
    closed = g.closed;
    expiration = g.expiration;
    counters = g.stats;
    total_gets = (g.stats.local_hits + g.stats.local_misses) % 2 ^ 64;
    cache = Cache.stats backend as_view of_view g.main_cache;
    filter = Option.map Bloom.stats g.bloom_filter;
  }
