-- ===== src/Tests/Workers.antt =====
-- Two workers and two tasks, and a group that replaces another.
use go.Common.{
  ℕ, ◌+◌, ◌≤◌, ◌<◌, ◌≡◌, ◌≢◌, Bool, true, false, none, some, List, [], ◌∷◌, ◌++◌, Bytes, bytes_eq,
  length, arith,
}
use go.Common.Map.{Map}
use go.Store.Lru.{LruCache}
use go.ByteView.{ByteView}
use go.Group.{Group, SyncTask, set_task, sync_channel_buffer}
use go.Group.Destroy.{close}
use go.Group.Table.{
  GroupOption, with_expiration, with_bloom_filter, new_group, get_group, close-replaced,
}
use go.Group.Workers.{Pool, Reaches, start, after, sends, closes, new_pool, send, exited}
use go.Group.Workers.Delivery.{taken_once, count, held, in_hand}
use go.Group.Workers.Overtaking.{overtaken}
use go.Tests.Groups.{backend, as_view, of_view, apple, value, group}

abbrev older : SyncTask
older = set_task apple value

abbrev newer : SyncTask
newer = set_task apple apple

abbrev pool : Pool
pool = record (send older (new_pool 2)) { done = true }

pool_way : Reaches (new_pool 2) pool
pool_way =
    after _ _ _ (after _ _ _ (start (new_pool 2)) (sends older (new_pool 2)))
      (closes (send older (new_pool 2)))

taken_once_example :
    (pool.taken ++ pool.tasks ≡ pool.sent)
    × (length pool.tasks ≤ sync_channel_buffer)
    × ((q : SyncTask → Bool) → count q pool.taken ≡ count q pool.processed + held q pool.workers 2)
    × ((j : ℕ) → j < 2 → pool.workers j ≡ exited → pool.done ≡ true)
    × (((j : ℕ) → j < 2 → (q : SyncTask → Bool) → in_hand q (pool.workers j) ≡ 0)
        → (q : SyncTask → Bool) → count q pool.taken ≡ count q pool.processed)
taken_once_example = taken_once 2 pool pool_way

overtaken_example :
    (s : Pool) × Reaches (new_pool 2) s
    × (s.done ≡ false)
    × (s.sent ≡ older ∷ newer ∷ [])
    × (s.processed ≡ newer ∷ older ∷ [])
overtaken_example = overtaken 2 older newer (omega arith)

abbrev groups : Map Bytes (Group (LruCache ByteView) ℕ)
groups = (apple, group) ∷ []

abbrev options : List (GroupOption ℕ)
options = with_expiration 60 ∷ with_bloom_filter 64 2 ∷ []

close-replaced_example :
    (g : Group (LruCache ByteView) ℕ) × ((groups' : Map Bytes (Group (LruCache ByteView) ℕ))
      × (new_group apple 100 true options groups ≡ some (g, groups'))
      × (g.closed ≡ false)
      × (g.name ≡ apple)
      × (get_group apple groups' ≡ some g)
      × ((other : Bytes) → other ≢ apple → get_group other groups' ≡ get_group other groups)
      × ((old : Group (LruCache ByteView) ℕ)
          → get_group apple groups ≡ some old
          → old.closed ≡ false
          → old.name ≡ apple
          → get_group apple (close backend as_view of_view old groups').1 ≡ none))
close-replaced_example = close-replaced backend as_view of_view apple 100 options groups
