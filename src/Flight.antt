-- ===== src/Flight.antt =====
-- cache/singleflight/singleflight.go as a step relation. `m` maps a key to the number of its call;
-- a call is told by that number, in the order in which calls are made. A goroutine is in one of the
-- stages of `Do`. The function that is run may return any `some r`, an error among them, or panic,
-- which is `none`: the caller that ran it panics again, and the others return the zero values.
pub mod Safety
use go.Common.{
  ℕ, ◌+◌, ◌≡◌, Option, none, some, [], Bytes, bytes_eq, bytes_beq, if◌then◌else◌, nat_beq, Bool,
}
use go.Common.Map.{Map, lookup, insert, delete}

-- Where a goroutine stands in its `Do`, with the key and its call.
pub data Stage (A : Type 0) : Type 0 where
  idle : Stage A
  waiting : Bytes → ℕ → Stage A  -- `existingCall.wg.Wait()`
  running : Bytes → ℕ → Stage A  -- in `fn`
  finished : Bytes → ℕ → Stage A  -- after `c.wg.Done()`, before `g.m.Delete(key)`
  returned : Bytes → ℕ → Option A → Stage A

-- `results` holds the results that are there: `wg` is done from then on.
pub record Flights (A : Type 0) : Type 0 where
  pub table : Map Bytes ℕ
  pub results : ℕ → Option (Option A)
  pub next : ℕ
  pub stage : ℕ → Stage A

module _ {A : Type 0} where
  abbrev pub at : ℕ → Stage A → (ℕ → Stage A) → ℕ → Stage A
  at i x stage j = if nat_beq i j then x else stage j

  abbrev pub done : ℕ → Option A → (ℕ → Option (Option A)) → ℕ → Option (Option A)
  done c r results d = if nat_beq c d then some r else results d

  -- The table with a new call, and the goroutine that runs it.
  unfoldable pub store_call : ℕ → Bytes → Flights A → Flights A
  store_call i key s = record s {
    table = insert key s.next s.table;
    next = s.next + 1;
    stage = at i (running key s.next) s.stage;
  }

  pub data Step : Flights A → Flights A → Type 0 where
    -- `LoadOrStore` stores the new call.
    enter :
        (i : ℕ) (key : Bytes) (s : Flights A)
        → s.stage i ≡ idle
        → lookup key s.table ≡ none
        → Step s (store_call i key s)
    -- `LoadOrStore` finds a call.
    join :
        (i c : ℕ) (key : Bytes) (s : Flights A)
        → s.stage i ≡ idle
        → lookup key s.table ≡ some c
        → Step s (record s { stage = at i (waiting key c) s.stage })
    -- `fn` returns or panics, and `Done` is called.
    finish :
        (i c : ℕ) (key : Bytes) (r : Option A) (s : Flights A)
        → s.stage i ≡ running key c
        → Step s (record s { results = done c r s.results; stage = at i (finished key c) s.stage })
    -- `Delete`, and the return.
    leave :
        (i c : ℕ) (key : Bytes) (r : Option A) (s : Flights A)
        → s.stage i ≡ finished key c
        → s.results c ≡ some r
        → Step s (record s { table = delete key s.table; stage = at i (returned key c r) s.stage })
    -- `Wait` is over.
    wake :
        (i c : ℕ) (key : Bytes) (r : Option A) (s : Flights A)
        → s.stage i ≡ waiting key c
        → s.results c ≡ some r
        → Step s (record s { stage = at i (returned key c r) s.stage })
    -- A goroutine that has returned may call `Do` again.
    again :
        (i c : ℕ) (key : Bytes) (r : Option A) (s : Flights A)
        → s.stage i ≡ returned key c r
        → Step s (record s { stage = at i idle s.stage })

  pub data Reaches : Flights A → Flights A → Type 0 where
    here : (s : Flights A) → Reaches s s
    then : (s s' s'' : Flights A) → Reaches s s' → Step s' s'' → Reaches s s''

  abbrev pub start : Flights A
  start = record { table = []; results = λ c. none; next = 0; stage = λ i. idle }
