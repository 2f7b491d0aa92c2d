-- ===== src/Group/Workers.antt =====
-- cache/group.go: the pool of `syncWorker`s over the channel of tasks, in any order of their steps.
-- `NewGroup` starts `sync_worker_count` of them; the number is a parameter. What a worker does with a
-- task is `process_sync_task` of Group, here one entry of a log.
pub mod Delivery
pub mod Overtaking
use go.Common.{
  ℕ, zero, suc, ◌≡◌, refl, sym, ◌∙◌, ap, Bool, true, false, List, [], ◌∷◌, ◌++◌, length, ltb, arith,
  if◌then◌else◌,
}
use mathlib.Core.List.{append-nil, append_assoc}
use go.Group.{SyncTask, enqueue, sync_channel_buffer}

-- `syncWorkerCount`
abbrev pub sync_worker_count : ℕ
sync_worker_count = 4

-- What a worker is at: the outer `select`, the inner one, or a task, after which it returns to the
-- outer or the inner one; or it has returned.
pub data Worker : Type 0 where
  waiting draining exited : Worker
  busy : (drains : Bool) → SyncTask → Worker

pub record Pool : Type 0 where
  pub tasks : List SyncTask  -- the channel
  pub done : Bool  -- `g.done` is closed
  pub workers : ℕ → Worker
  pub taken : List SyncTask  -- all tasks received so far
  pub processed : List SyncTask  -- all tasks finished so far
  pub sent : List SyncTask  -- all tasks that the channel took

unfoldable pub become : ℕ → Worker → (ℕ → Worker) → ℕ → Worker
become i w workers j = if go.Common.nat_beq i j then w else workers j

-- `for i := 0; i < syncWorkerCount; i++ { go g.syncWorker() }`
unfoldable pub new_pool : (size : ℕ) → Pool
new_pool size = record {
  tasks = [];
  done = false;
  workers = λ i. if ltb i size then waiting else exited;
  taken = [];
  processed = [];
  sent = [];
}

-- A request sends a task, which is dropped where the channel is full.
unfoldable pub send : SyncTask → Pool → Pool
send task s = record s {
  tasks = enqueue task s.tasks;
  sent = if ltb (length s.tasks) sync_channel_buffer then s.sent ++ task ∷ [] else s.sent;
}

unfoldable pub receive : (i : ℕ) → (drains : Bool) → SyncTask → List SyncTask → Pool → Pool
receive i drains task rest s = record s {
  tasks = rest;
  workers = become i (busy drains task) s.workers;
  taken = s.taken ++ task ∷ [];
}

unfoldable pub finish : (i : ℕ) → (drains : Bool) → SyncTask → Pool → Pool
finish i drains task s = record s {
  workers = become i (if drains then draining else waiting) s.workers;
  processed = s.processed ++ task ∷ [];
}

unfoldable pub turn : (i : ℕ) → Worker → Pool → Pool
turn i w s = record s { workers = become i w s.workers }

pub data Step : Pool → Pool → Type 0 where
  sends : (task : SyncTask) (s : Pool) → Step s (send task s)
  -- `Close` of the group.
  closes : (s : Pool) → Step s (record s { done = true })
  -- `case task := <-g.syncTasks` of the outer `select`, also where `g.done` is closed as well.
  receives :
      (i : ℕ) (task : SyncTask) (rest : List SyncTask) (s : Pool)
      → s.workers i ≡ waiting
      → s.tasks ≡ task ∷ rest
      → Step s (receive i false task rest s)
  -- `case <-g.done`
  notices : (i : ℕ) (s : Pool) → s.workers i ≡ waiting → s.done ≡ true → Step s (turn i draining s)
  -- The inner `select`, and its `default`.
  drains :
      (i : ℕ) (task : SyncTask) (rest : List SyncTask) (s : Pool)
      → s.workers i ≡ draining
      → s.tasks ≡ task ∷ rest
      → Step s (receive i true task rest s)
  leaves : (i : ℕ) (s : Pool) → s.workers i ≡ draining → s.tasks ≡ [] → Step s (turn i exited s)
  finishes :
      (i : ℕ) (drains : Bool) (task : SyncTask) (s : Pool)
      → s.workers i ≡ busy drains task
      → Step s (finish i drains task s)

pub data Reaches : Pool → Pool → Type 0 where
  start : (s : Pool) → Reaches s s
  after : (s s' s'' : Pool) → Reaches s s' → Step s' s'' → Reaches s s''
