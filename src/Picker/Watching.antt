-- ===== src/Picker/Watching.antt =====
-- cache/peers.go: the goroutine that watches etcd, and the goroutines that it starts.
use go.Common.{Option, bytes_eq, List, [], ◌∷◌, ◌++◌, map, Bytes}
use go.Picker.{Picker, Watched, EventType, handle_watch_events}

-- What `watchServiceChanges` receives: the context is done, or a response with its events.
pub data Message : Type 0 where
  context_done : Message
  response : List (EventType × Bytes) → Message

-- The goroutines that are started for what has come and for what goes: the migration to a new node,
-- the one from a leaving node, and the removal of the leaving node, 30 seconds later.
pub data Spawned : Type 0 where
  migrate_to migrate_from drop_later : Bytes → Spawned

unfoldable pub spawn_leaving : List Bytes → List Spawned
spawn_leaving [] = []
spawn_leaving (addr ∷ addrs) = migrate_from addr ∷ drop_later addr ∷ spawn_leaving addrs

unfoldable pub spawned : {P : Type 0} → Watched P → List Spawned
spawned w = map migrate_to w.new_nodes ++ spawn_leaving w.leaving_nodes

module _ {P : Type 0} (dial : Bytes → Option P) where
  -- The picker and all that was started, when the messages are used up or the context is done.
  unfoldable pub watch_service_changes : List Message → Picker P → Picker P × List Spawned
  watch_service_changes [] p = (p, [])
  watch_service_changes (context_done ∷ _) p = (p, [])
  watch_service_changes (response events ∷ rest) p =
      let w = handle_watch_events dial events p in
      let (p', more) = watch_service_changes rest w.picker in (p', spawned w ++ more)
