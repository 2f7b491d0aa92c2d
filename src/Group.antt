-- ===== src/Group.antt =====
-- cache/group.go: `Group`, a namespace of keys over a cache, a bloom filter and peers.
-- A method runs with no other call between its parts; that callers of one key share a load is the
-- matter of Flight. `now` is the reading of the clock for a deadline, `t` what the cache reads then.
-- The context of a request is its two flags. `none` is a panic of the filter.
pub mod Methods
pub mod Coherence
pub mod Loading
pub mod Retention
pub mod Requests
pub mod Destroy
pub mod Workers
pub mod Table
use go.Common.{
  ℕ, zero, suc, ◌+◌, ◌%◌, ◌^◌, Bool, true, false, not, ◌&&◌, ◌||◌, Option, none, some, List, [],
  ◌∷◌, ◌++◌, map, nat_beq, ltb, if◌then◌else◌, length, Bytes, ◌==◌, bytes_eq, Eq,
}
use go.Common.Int64
use go.Common.Map.{Map, lookup, insert, delete}
use go.Bloom
use go.Bloom.{BloomFilter}
use go.ByteView.{ByteView, clone_bytes, byte_slice}
use go.Store.Backend.{Backend, Times}
use go.Cache
use go.Cache.{Cache}
use go.Picker.{Pick}

pub data Error : Type 0 where
  key_required value_required key_not_found group_closed failed : Error

pub data Result : Type 0 where
  error : Error → Result
  ok : ByteView → Result

pub data SyncTask : Type 0 where
  set_task : Bytes → Bytes → SyncTask
  delete_task : Bytes → SyncTask
  broadcast_delete : Bytes → SyncTask

-- A call that a worker makes to a peer.
pub data Sent (P : Type 0) : Type 0 where
  sent_set : P → Bytes → Bytes → Sent P
  sent_delete : P → Bytes → Sent P

-- A `PeerPicker`, with what the two wider interfaces add where it has them.
pub record Peers (P : Type 0) : Type 0 where
  pub pick : Bytes → Option P × Bool × Bool
  pub with_fallback : Option (Bytes → Pick P)
  pub all_peers : Option (List P)

pub record Stats : Type 0 where
  pub loads : ℕ
  pub local_hits : ℕ
  pub local_misses : ℕ
  pub peer_hits : ℕ
  pub peer_misses : ℕ
  pub loader_hits : ℕ
  pub loader_errors : ℕ

pub record Group (S P : Type 0) : Type 0 where
  pub name : Bytes
  pub main_cache : Cache S
  pub peers : Option (Peers P)
  pub expiration : ℕ
  pub closed : Bool
  pub bloom_filter : Option BloomFilter
  pub stats : Stats
  pub done : Bool
  pub sync_tasks : List SyncTask

abbrev pub plus_one : ℕ → ℕ
plus_one n = (n + 1) % 2 ^ 64

-- `syncChannelBuffer`
abbrev pub sync_channel_buffer : ℕ
sync_channel_buffer = 1024

-- The `select` that sends a task, or drops it where the channel is full.
unfoldable pub enqueue : SyncTask → List SyncTask → List SyncTask
enqueue task tasks = if ltb (length tasks) sync_channel_buffer then tasks ++ task ∷ [] else tasks

-- `if !isPeerRequest && !isMigration && g.peers != nil`
unfoldable pub propagate :
    {S P : Type 0} → (from_peer from_migration : Bool) → SyncTask → Group S P → Group S P
propagate from_peer from_migration task g = elim g.peers [
  | none ↦ g
  | some _ ↦
      if not from_peer && not from_migration
      then record g { sync_tasks = enqueue task g.sync_tasks }
      else g
]

-- `if g.bloomFilter != nil { g.bloomFilter.Add(key) }`
unfoldable pub note_key : {S P : Type 0} → Bytes → Group S P → Option (Group S P)
note_key key g = elim g.bloom_filter [
  | none ↦ some g
  | some bf ↦ elim (Bloom.add key bf) [
    | none ↦ none
    | some bf' ↦ some (record g { bloom_filter = some bf' })
  ]
]

-- The answer of the filter: whether the key may be there.
unfoldable pub admitted : {S P : Type 0} → Bytes → Group S P → Option Bool
admitted key g = elim g.bloom_filter [ none ↦ some true | some bf ↦ Bloom.may_contain key bf ]

abbrev pub task_key : SyncTask → Bytes
task_key (set_task key value) = key
task_key (delete_task key) = key
task_key (broadcast_delete key) = key

module _ {P : Type 0} ⦃same_peer : Eq P⦄ where
  -- One call to a peer, for the operation of the task.
  abbrev pub call : SyncTask → P → Sent P
  call (set_task key value) peer = sent_set peer key value
  call (delete_task key) peer = sent_delete peer key
  call (broadcast_delete key) peer = sent_delete peer key

  abbrev pub calls_to : SyncTask → Option P → List (Sent P)
  calls_to task none = []
  calls_to task (some peer) = call task peer ∷ []

  unfoldable pub sync_to_peers : SyncTask → Peers P → List (Sent P)
  sync_to_peers task peers =
      let (peer, found, itself) = peers.pick (task_key task) in
      if not found || itself then [] else calls_to task peer

  abbrev pub same_client : Option P → Option P → Bool
  same_client (some a) (some b) = a == b
  same_client none none = true
  same_client _ _ = false

  -- The calls to the primary and to the replica that `PickPeerWithFallback` picks.
  unfoldable pub sync_picked : SyncTask → Pick P → List (Sent P)
  sync_picked task pick =
      if not pick.ok
      then []
      else (if pick.is_self then [] else calls_to task pick.primary)
        ++ (if same_client pick.replica pick.primary then [] else calls_to task pick.replica)

  unfoldable pub sync_to_peers_with_replica : SyncTask → Peers P → List (Sent P)
  sync_to_peers_with_replica task peers = elim peers.with_fallback [
    | none ↦ sync_to_peers task peers
    | some pick ↦ sync_picked task (pick (task_key task))
  ]

  unfoldable pub broadcast : Bytes → Peers P → List (Sent P)
  broadcast key peers = elim peers.all_peers [
    | none ↦ sync_to_peers_with_replica (delete_task key) peers
    | some all ↦ map (call (delete_task key)) all
  ]

  unfoldable pub process_sync_task : SyncTask → Option (Peers P) → List (Sent P)
  process_sync_task task none = []
  process_sync_task (broadcast_delete key) (some peers) = broadcast key peers
  process_sync_task (set_task key value) (some peers) =
      sync_to_peers_with_replica (set_task key value) peers
  process_sync_task (delete_task key) (some peers) =
      sync_to_peers_with_replica (delete_task key) peers
