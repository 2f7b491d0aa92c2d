-- ===== src/Group/Coherence/Reached.antt =====
-- The life of a group of group.go as a step relation, and what its requests read. A store that reads
-- as it was last set is assumed, as lru.go is shown to be.
use go.Common.{ℕ, ◌+◌, ◌≡◌, Bool, Option, none, some, if◌then◌else◌, Bytes, bytes_eq}
use go.Common.Int64
use go.Common.Map.{Map}
use go.ByteView.{ByteView}
use go.Store.Backend.{Backend, Times}
use go.Store.Options.{Options}
use go.Cache
use go.Cache.Coherence.{Known, nothing_known, given, expected, adds_until, deletes}
use go.Group.{Error, error, ok, Group}
use go.Group.Destroy.{close}
use go.Group.Methods.{get, set, delete, set_local_direct}

module _ {V P : Type 0} (backend : Backend V) (as_view : V → Option ByteView)
    (of_view : ByteView → V) (peer_get : P → Bytes → Option Bytes)
    (getter : Bytes → Option Bytes) where
  abbrev G : Type 0
  G = Group backend.State P

  -- An addition to the cache of a group with the expiration `d`; one whose deadline is past adds
  -- nothing.
  abbrev pub stored : ℕ → Times → Bytes → ByteView → (d : ℕ) → Known → Known
  stored now t key view d m =
      if Int64.lt 0 d then expected (adds_until t key view (now + d)) m else given key view m

  -- A group that was made and has served any requests, in any order, with the views that they stored
  -- since the last deletion. A request may panic in the filter, and then ends the relation.
  pub data Reached : Known → G → Type 0 where
    start : (opts : Options) (g : G) → g.main_cache ≡ Cache.new_cache opts → Reached nothing_known g
    after_set :
        (now : ℕ) (t : Times) (fp fm : Bool) (key value : Bytes) (m : Known) (g g' : G)
        → Reached m g
        → set backend as_view of_view peer_get getter now t fp fm key value g ≡ some (none, g')
        → Reached (stored now t key (record { b = value }) g.expiration m) g'
    after_set_error :
        (now : ℕ) (t : Times) (fp fm : Bool) (key value : Bytes) (e : Error) (m : Known) (g g' : G)
        → Reached m g
        → set backend as_view of_view peer_get getter now t fp fm key value g ≡ some (some e, g')
        → Reached m g'
    after_get :
        (now : ℕ) (t : Times) (key : Bytes) (view : ByteView) (m : Known) (g g' : G)
        → Reached m g
        → get backend as_view of_view peer_get getter now t key g ≡ some (ok view, g')
        → Reached (stored now t key view g.expiration m) g'
    after_get_error :
        (now : ℕ) (t : Times) (key : Bytes) (e : Error) (m : Known) (g g' : G)
        → Reached m g
        → get backend as_view of_view peer_get getter now t key g ≡ some (error e, g')
        → Reached m g'
    after_delete :
        (fp fm : Bool) (key : Bytes) (m : Known) (g g' : G)
        → Reached m g
        → delete backend as_view of_view peer_get getter fp fm key g ≡ (none, g')
        → Reached (expected (deletes key) m) g'
    after_delete_error :
        (fp fm : Bool) (key : Bytes) (e : Error) (m : Known) (g g' : G)
        → Reached m g
        → delete backend as_view of_view peer_get getter fp fm key g ≡ (some e, g')
        → Reached m g'
    after_migration :
        (now : ℕ) (t : Times) (key value : Bytes) (m : Known) (g g' : G)
        → Reached m g
        → set_local_direct backend as_view of_view peer_get getter now t key value g ≡ some g'
        → Reached (stored now t key (record { b = value }) g.expiration m) g'
    after_close :
        (groups : Map Bytes G) (m : Known) (g : G)
        → Reached m g
        → Reached (if g.closed then m else nothing_known) (close backend as_view of_view g groups).0
    -- What leaves the cache alone: the peers are registered, a worker takes a task.
    after_other : (m : Known) (g g' : G) → Reached m g → g'.main_cache ≡ g.main_cache → Reached m g'
