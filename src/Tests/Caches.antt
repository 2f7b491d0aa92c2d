-- ===== src/Tests/Caches.antt =====
-- A cache over the LRU store, through one `Add`.
use go.Common.{◌≡◌, refl, inl, bytes_beq, List, true, false, Option, some, [], ◌∷◌, Bytes}
use go.ByteView.{ByteView, byte_view_value}
use go.Store.Backend.{Backend, Times}
use go.Store.Lru.{LruCache}
use go.Store.Lru.Service.{lru_backend}
use go.Cache.{
  Cache, new_cache, default_cache_options, add, answer, get, get_raw_value, delete, clear, close,
  len, keys, empty_view,
}
use go.Cache.Coherence.{Call, adds, gets, last_added, run}
use go.Cache.Coherence.Runs.{get-run}
use go.Store.Lru
use go.Store.Lru.Elements.{find_id, remove_id, move_to_back}
use go.Store.Lru.Service.Coherent.{lru_backend-IsCoherent}
use go.Common.Map.{lookup, insert}
use go.Cache.Lifecycle.{IsSound, new-IsSound, add-IsSound}

abbrev backend : Backend ByteView
backend = lru_backend

abbrev as_view : ByteView → Option ByteView
as_view v = some v

abbrev of_view : ByteView → ByteView
of_view v = v

abbrev t : Times
t = record { now = 5; later = 6 }

abbrev apple : Bytes
apple = b'a' ∷ []

abbrev view : ByteView
view = record { b = 1 ∷ 2 ∷ [] }

abbrev empty : Cache (LruCache ByteView)
empty = new_cache default_cache_options

abbrev one : Cache (LruCache ByteView)
one = add backend as_view of_view t apple view empty

empty-IsSound : IsSound backend as_view of_view empty
empty-IsSound = new-IsSound backend as_view of_view default_cache_options

one-IsSound : IsSound backend as_view of_view one
one-IsSound = (add-IsSound backend as_view of_view t apple view 50 empty empty-IsSound).0

still_open : one.closed ≡ false
unfolding add new_cache go.Cache.ensure_initialized
still_open = refl

abbrev shut : Cache (LruCache ByteView)
shut = close backend as_view of_view one

is_shut : shut.closed ≡ true
unfolding close add new_cache go.Cache.ensure_initialized
is_shut = refl

abbrev calls : List Call
calls = adds t apple view ∷ gets t apple ∷ []

apple_there :
    (get backend as_view of_view t apple
      (run backend as_view of_view calls (new_cache default_cache_options))).0
    ≡ (view, true)
unfolding run add get answer new_cache default_cache_options go.Cache.ensure_initialized Lru.set
    Lru.set_with_expiration Lru.element_of Lru.add_entry Lru.evict Lru.expire_loop Lru.shrink_loop
    Lru.is_over Lru.get Lru.get_read Lru.is_expired Lru.get_promote Lru.set_expiry find_id remove_id
    move_to_back lookup insert go.Common.Map.delete bytes_beq Lru.new_lru_cache
apple_there = refl

get-run_example : last_added calls apple ≡ some view
get-run_example =
    get-run backend as_view of_view lru_backend-IsCoherent (λ v. refl) calls default_cache_options t
      apple view (inl apple_there)
