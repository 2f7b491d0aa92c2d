-- ===== src/Cache.antt =====
-- cache/cache.go: the cache that wraps a store, made on first use and dropped by `Close`.
-- The store is any implementation of the interface; `as_view` is the type assertion to `ByteView`
-- and `of_view` the conversion of a `ByteView` to a stored value. A method runs with no other call
-- between its atomic accesses. A nil store in an initialised cache, which would panic, does not occur
-- in a sound cache; the methods leave such a cache alone here. int32 flags are Booleans, the int64 counters wrap.
pub mod Coherence
pub mod Lifecycle
pub mod Retention
use go.Common.{
  ℕ, ◌+◌, ◌-◌, ◌*◌, ◌%◌, ◌^◌, Bool, true, false, not, ◌&&◌, ◌||◌, Option, none, some, List, [], ltb,
  leb, if◌then◌else◌, is_some, Bytes,
}
use go.ByteView.{ByteView}
use go.Common.Int64
use go.Store.Backend.{Backend, Times}
use go.Store.Options.{Options, minute}
use mathlib.Core.Option

-- `CacheOptions` holds the fields of the store's options, and is passed on field by field; the type
-- of the cache chooses the backend.
unfoldable pub default_cache_options : Options
default_cache_options = record {
  max_bytes = 8 * 1024 * 1024;
  bucket_count = 16;
  cap_per_bucket = 512;
  level2_cap = 256;
  cleanup_interval = minute;
  notify = false;
}

pub record Cache (S : Type 0) : Type 0 where
  pub store : Option S
  pub opts : Options
  pub hits : ℕ
  pub misses : ℕ
  pub initialized : Bool
  pub closed : Bool

unfoldable pub new_cache : {S : Type 0} → Options → Cache S
new_cache opts = record {
  store = none;
  opts = opts;
  hits = 0;
  misses = 0;
  initialized = false;
  closed = false;
}

abbrev pub empty_view : ByteView
empty_view = record { b = [] }

module _ {V : Type 0} (backend : Backend V) (as_view : V → Option ByteView)
    (of_view : ByteView → V) where
  abbrev S : Type 0
  S = backend.State

  unfoldable pub ensure_initialized : Cache S → Cache S
  ensure_initialized c =
      if c.initialized
      then c
      else record c { store = some (backend.create c.opts); initialized = true }

  abbrev pub hit : Cache S → Cache S
  hit c = record c { hits = (c.hits + 1) % 2 ^ 64 }

  abbrev pub miss : Cache S → Cache S
  miss c = record c { misses = (c.misses + 1) % 2 ^ 64 }

  -- A call of the store that only changes it.
  abbrev on_store : (S → S) → Cache S → Cache S
  on_store f c = record c { store = Option.map f c.store }

  unfoldable pub add : Times → Bytes → ByteView → Cache S → Cache S
  add t key value c =
      if c.closed then c else on_store (backend.set t key (of_view value)) (ensure_initialized c)

  -- What `Get` does with the store's answer.
  unfoldable pub answer : Option V → Cache S → (ByteView × Bool) × Cache S
  answer none c = ((empty_view, false), miss c)
  answer (some v) c = elim (as_view v) [
    | some view ↦ ((view, true), hit c)
    | none ↦ ((empty_view, false), miss (hit c))
  ]

  unfoldable pub get : Times → Bytes → Cache S → (ByteView × Bool) × Cache S
  get t key c =
      if c.closed
      then ((empty_view, false), c)
      else (if not c.initialized then ((empty_view, false), miss c) else elim c.store [
        | none ↦ ((empty_view, false), c)
        | some s ↦ let r = backend.get t key s in answer r.0 (record c { store = some r.1 })
      ])

  -- `time.Until` is the difference of two times, cut to an int64; here the deadline's distance.
  unfoldable pub add_with_expiration : Times → Bytes → ByteView → (deadline : ℕ) → Cache S → Cache S
  add_with_expiration t key value deadline c =
      let c' = ensure_initialized c in
      if c.closed
      then c
      else (if leb deadline t.now
          then c'
          else on_store (backend.set_with_expiration t key (of_view value) (deadline - t.now)) c')

  unfoldable pub delete : Bytes → Cache S → Bool × Cache S
  delete key c = if c.closed || not c.initialized then (false, c) else elim c.store [
    | none ↦ (false, c)
    | some s ↦ let r = backend.delete key s in (r.0, record c { store = some r.1 })
  ]

  unfoldable pub clear : Cache S → Cache S
  clear c =
      if c.closed || not c.initialized
      then c
      else record c { store = Option.map backend.clear c.store; hits = 0; misses = 0 }

  unfoldable pub len : Cache S → ℕ
  len c =
      if c.closed || not c.initialized
      then 0
      else elim c.store [ none ↦ 0 | some s ↦ backend.len s ]

  -- `Close` closes the store, which nothing else closes, and drops it.
  unfoldable pub close : Cache S → Cache S
  close c = if c.closed then c else record c { store = none; initialized = false; closed = true }

  unfoldable pub keys : Cache S → List Bytes
  keys c =
      if c.closed || not c.initialized
      then []
      else elim c.store [ none ↦ [] | some s ↦ backend.keys s ]

  unfoldable pub get_raw_value : Times → Bytes → Cache S → ByteView × Bool
  get_raw_value t key c =
      if c.closed || not c.initialized then (empty_view, false) else elim c.store [
        | none ↦ (empty_view, false)
        | some s ↦ elim (backend.get_value t key s) [
          | none ↦ (empty_view, false)
          | some v ↦ elim (as_view v) [ some view ↦ (view, true) | none ↦ (empty_view, false) ]
        ]
      ]

  -- The counters of `Stats`; the hit rate is computed from them in floating point.
  unfoldable pub stats :
      Cache S → record { initialized : Bool; closed : Bool; hits : ℕ; misses : ℕ; size : Option ℕ }
  stats c = record {
    initialized = c.initialized;
    closed = c.closed;
    hits = c.hits;
    misses = c.misses;
    size = if c.initialized then some (len c) else none;
  }
