-- ===== src/Group/Workers/Delivery.antt =====
-- What becomes of the tasks that the requests of cache/group.go leave to the workers.
use go.Common.{
  ℕ, zero, suc, ◌+◌, ◌≤◌, ◌<◌, ◌≡◌, ◌≢◌, refl, ap, Bool, true, false, List, [], ◌∷◌, ◌++◌, length,
  length-append, ltb, arith, if◌then◌else◌, nat_beq, Bool-cases, inl, inr,
}
use mathlib.Core.List.{append_assoc}
use go.Group.{SyncTask, enqueue, sync_channel_buffer}
use go.Group.Workers.{
  Worker, waiting, draining, exited, busy, Pool, become, new_pool, send, receive, finish, turn,
  Step, sends, closes, receives, notices, drains, leaves, finishes, Reaches, start, after,
}

-- How many of the tasks pass a test.
pub count : (SyncTask → Bool) → List SyncTask → ℕ
count q [] = 0
count q (task ∷ tasks) = if q task then count q tasks + 1 else count q tasks

abbrev pub in_hand : (SyncTask → Bool) → Worker → ℕ
in_hand q (busy last task) = if q task then 1 else 0
in_hand q waiting = 0
in_hand q draining = 0
in_hand q exited = 0

-- How many of the first workers are at a task that passes the test.
pub held : (SyncTask → Bool) → (ℕ → Worker) → ℕ → ℕ
held q workers zero = 0
held q workers (suc n) = held q workers n + in_hand q (workers n)

count-snoc :
    (q : SyncTask → Bool) (tasks : List SyncTask) (task : SyncTask)
    → count q (tasks ++ task ∷ []) ≡ count q tasks + (if q task then 1 else 0)
unfolding count
count-snoc q [] task = ground arith
count-snoc q (t ∷ tasks) task = ground (arith, count-snoc q tasks task)

held-become :
    (q : SyncTask → Bool) (i : ℕ) (w : Worker) (workers : ℕ → Worker) (n : ℕ)
    → held q (become i w workers) n + (if ltb i n then in_hand q (workers i) else 0)
      ≡ held q workers n + (if ltb i n then in_hand q w else 0)
unfolding held become
held-become q i w workers zero = ground arith
held-become q i w workers (suc n) = elim (Bool-cases (nat_beq i n)) [
  | inl here ↦
      let same : i ≡ n = ground arith in
      let below = held-become q i w workers n in
      ground (arith, ap (λ j. in_hand q (workers j)) same)
  | inr there ↦ ground (arith, held-become q i w workers n)
]

-- What holds of a pool of `size` workers at any time.
record IsFair (size : ℕ) (s : Pool) : Type 0 where
  order : s.taken ++ s.tasks ≡ s.sent
  fits : length s.tasks ≤ sync_channel_buffer
  outside : (j : ℕ) → size ≤ j → s.workers j ≡ exited
  shared : (q : SyncTask → Bool) → count q s.taken ≡ count q s.processed + held q s.workers size
  told : (j : ℕ) → s.workers j ≡ draining → s.done ≡ true
  ended : (j : ℕ) → j < size → s.workers j ≡ exited → s.done ≡ true
  last : (j : ℕ) (task : SyncTask) → s.workers j ≡ busy true task → s.done ≡ true

module _ (size : ℕ) where
  -- A worker that is at something is one of the pool.
  within : (i : ℕ) (s : Pool) → IsFair size s → s.workers i ≢ exited → ltb i size ≡ true
  within i s v active = ground (arith, v.outside i)

  send-IsFair : (task : SyncTask) (s : Pool) → IsFair size s → IsFair size (send task s)
  unfolding send enqueue
  send-IsFair task s v = record {
    order = ground (arith, v.order, append_assoc s.taken s.tasks (task ∷ []));
    fits = ground (arith, v.fits, length-append s.tasks (task ∷ []));
    outside = v.outside;
    shared = v.shared;
    told = v.told;
    ended = v.ended;
    last = v.last;
  }

  receive-IsFair :
      (i : ℕ) (drained : Bool) (task : SyncTask) (rest : List SyncTask) (s : Pool)
      → s.workers i ≢ exited
      → ((q : SyncTask → Bool) → in_hand q (s.workers i) ≡ 0)
      → (drained ≡ true → s.done ≡ true)
      → s.tasks ≡ task ∷ rest
      → IsFair size s
      → IsFair size (receive i drained task rest s)
  unfolding receive become
  receive-IsFair i drained task rest s active free known there v =
      let inside = within i s v active in
      record {
        order = ground (arith, v.order, append_assoc s.taken (task ∷ []) rest);
        fits = ground (arith, v.fits, there);
        outside = λ j hi. ground (arith, v.outside j hi, v.outside i);
        shared = λ q. ground (
          arith,
          v.shared q,
          count-snoc q s.taken task,
          held-become q i (busy drained task) s.workers size,
          free q,
        );
        told = λ j e. ground (arith, v.told j);
        ended = λ j lt e. ground (arith, v.ended j);
        last = λ j t e. ground (arith, v.last j t);
      }

  finish-IsFair :
      (i : ℕ) (drained : Bool) (task : SyncTask) (s : Pool)
      → s.workers i ≡ busy drained task
      → IsFair size s
      → IsFair size (finish i drained task s)
  unfolding finish become
  finish-IsFair i drained task s here v =
      let inside = within i s v (λ e. ground (arith, here)) in
      record {
        order = v.order;
        fits = v.fits;
        outside = λ j hi. ground (arith, v.outside j hi, v.outside i);
        shared = λ q. ground (
          arith,
          v.shared q,
          count-snoc q s.processed task,
          held-become q i (if drained then draining else waiting) s.workers size,
          ap (in_hand q) here,
        );
        told = λ j e. ground (arith, v.told j, v.last i task);
        ended = λ j lt e. ground (arith, v.ended j);
        last = λ j t e. ground (arith, v.last j t);
      }

  turn-IsFair :
      (i : ℕ) (w : Worker) (s : Pool)
      → s.workers i ≢ exited
      → ((q : SyncTask → Bool) → in_hand q (s.workers i) ≡ 0)
      → ((q : SyncTask → Bool) → in_hand q w ≡ 0)
      → s.done ≡ true
      → IsFair size s
      → IsFair size (turn i w s)
  unfolding turn become
  turn-IsFair i w s active free idle done v =
      let inside = within i s v active in
      record {
        order = v.order;
        fits = v.fits;
        outside = λ j hi. ground (arith, v.outside j hi, v.outside i);
        shared = λ q. ground (arith, v.shared q, held-become q i w s.workers size, free q, idle q);
        told = λ j e. done;
        ended = λ j lt e. done;
        last = λ j t e. done;
      }

  close-IsFair : (s : Pool) → IsFair size s → IsFair size (record s { done = true })
  close-IsFair s v = record {
    order = v.order;
    fits = v.fits;
    outside = v.outside;
    shared = v.shared;
    told = λ j e. refl;
    ended = λ j lt e. refl;
    last = λ j t e. refl;
  }

  move-IsFair : (s s' : Pool) → Step s s' → IsFair size s → IsFair size s'
  move-IsFair _ _ (sends task s) v = send-IsFair task s v
  move-IsFair _ _ (closes s) v = close-IsFair s v
  move-IsFair _ _ (receives i task rest s here there) v =
      receive-IsFair i false task rest s (λ e. ground (arith, here)) (λ q. ap (in_hand q) here)
        (λ e. absurd (ground arith)) there v
  move-IsFair _ _ (notices i s here done) v =
      turn-IsFair i draining s (λ e. ground (arith, here)) (λ q. ap (in_hand q) here) (λ q. refl)
        done v
  move-IsFair _ _ (drains i task rest s here there) v =
      receive-IsFair i true task rest s (λ e. ground (arith, here)) (λ q. ap (in_hand q) here)
        (λ e. v.told i here) there v
  move-IsFair _ _ (leaves i s here there) v =
      turn-IsFair i exited s (λ e. ground (arith, here)) (λ q. ap (in_hand q) here) (λ q. refl)
        (v.told i here) v
  move-IsFair _ _ (finishes i drained task s here) v = finish-IsFair i drained task s here v

  reached-IsFair : (s s' : Pool) → Reaches s s' → IsFair size s → IsFair size s'
  reached-IsFair s _ (start _) v = v
  reached-IsFair s _ (after _ s' s'' way step) v =
      move-IsFair s' s'' step (reached-IsFair s s' way v)

  held-idle :
      (q : SyncTask → Bool) (workers : ℕ → Worker) (n : ℕ)
      → ((j : ℕ) → j < n → in_hand q (workers j) ≡ 0)
      → held q workers n ≡ 0
  unfolding held
  held-idle q workers zero idle = refl
  held-idle q workers (suc n) idle =
      let below = held-idle q workers n (λ j lt. idle j (omega arith)) in
      omega (arith, idle n (omega arith))

  new_pool-IsFair : IsFair size (new_pool size)
  unfolding new_pool count
  new_pool-IsFair = record {
    order = refl;
    fits = omega arith;
    outside = λ j hi. ground arith;
    shared = λ q. omega (arith, held-idle q (new_pool size).workers size (λ j lt. ground arith));
    told = λ j e. absurd (ground arith);
    ended = λ j lt e. absurd (ground arith);
    last = λ j t e. absurd (ground arith);
  }

  -- In whatever order the requests, the workers and `Close` take their turns: the workers receive the
  -- tasks in the order in which the channel took them, and none is lost from the channel, which never
  -- holds more than its buffer; every task received is in the hands of one worker or was processed
  -- once; and a worker returns only after the group was closed, so that while it is open all of them
  -- go on. Once no worker has a task in its hands, what was received was processed, task by task.
  pub taken_once :
      (s : Pool)
      → Reaches (new_pool size) s
      → (s.taken ++ s.tasks ≡ s.sent)
        × (length s.tasks ≤ sync_channel_buffer)
        × ((q : SyncTask → Bool) → count q s.taken ≡ count q s.processed + held q s.workers size)
        × ((j : ℕ) → j < size → s.workers j ≡ exited → s.done ≡ true)
        × (((j : ℕ) → j < size → (q : SyncTask → Bool) → in_hand q (s.workers j) ≡ 0)
            → (q : SyncTask → Bool) → count q s.taken ≡ count q s.processed)
  taken_once s way =
      let v = reached-IsFair (new_pool size) s way new_pool-IsFair in
      (
        v.order,
        v.fits,
        v.shared,
        v.ended,
        λ idle q. omega (arith, v.shared q, held-idle q s.workers size (λ j lt. idle j lt q)),
      )
