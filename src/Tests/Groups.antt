-- ===== src/Tests/Groups.antt =====
-- A group with a filter and no peers, over the LRU store; its source knows every key.
use go.Common.{
  inr, ℕ, ◌≡◌, ◌≢◌, refl, false, Option, none, some, [], ◌∷◌, Bytes, bytes_eq, arith, ◌++◌, All,
  true,
}
use go.Bloom.{BloomFilter, new}
use go.Bloom.Membership.{new-IsValid}
use go.ByteView.{ByteView, byte_view_value}
use go.Common.Map.{Map, lookup}
use go.Group.Destroy.{destroy_all_groups, destroy_all_groups_lem, deadlock, returns}
use go.Store.Backend.{Backend, Times}
use go.Store.Lru.{LruCache, new_lru_cache}
use go.Store.Lru.Service.{lru_backend}
use go.Cache.{new_cache, default_cache_options}
use go.Group.{ok, plus_one, Group}
use go.Group.Methods.{get, set}
use go.Cache.Retention.{current}
use go.Cache.Lifecycle.{IsSound, new-IsSound}
use go.Group.Retention.{set-get, IsAhead}
use go.Store.Lru.Service.Retentive.{lru_backend-IsRetentive}

abbrev pub backend : Backend ByteView
backend = lru_backend

abbrev pub as_view : ByteView → Option ByteView
as_view v = some v

abbrev pub of_view : ByteView → ByteView
of_view v = v

-- Peers are numbers, and none answers.
abbrev pub peer_get : ℕ → Bytes → Option Bytes
peer_get peer key = none

abbrev pub getter : Bytes → Option Bytes
getter key = some (1 ∷ [])

abbrev pub t : Times
t = record { now = 5; later = 6 }

abbrev pub apple : Bytes
apple = b'a' ∷ []

abbrev pub value : Bytes
value = 1 ∷ 2 ∷ []

abbrev filter : BloomFilter
filter = new 128 3

abbrev pub group : Group (LruCache ByteView) ℕ
group = record {
  name = apple;
  main_cache = new_cache default_cache_options;
  peers = none;
  expiration = 0;
  closed = false;
  bloom_filter = some filter;
  stats = record {
    loads = 0;
    local_hits = 0;
    local_misses = 0;
    peer_hits = 0;
    peer_misses = 0;
    loader_hits = 0;
    loader_errors = 0;
  };
  done = false;
  sync_tasks = [];
}

named : apple ≢ []
named = λ e. ground (arith, e)

filled : value ≢ []
filled = λ e. ground (arith, e)

sound : IsSound backend as_view of_view group.main_cache
sound = new-IsSound backend as_view of_view default_cache_options

open_cache : group.main_cache.closed ≡ false
unfolding new_cache
open_cache = refl

fits :
    (lru_backend-IsRetentive {V = ByteView}).Fits
      (current backend as_view of_view group.main_cache)
      apple
      (record { b = value })
unfolding new_cache new_lru_cache default_cache_options
fits = inr refl

no_deadline :
    IsAhead backend as_view of_view peer_get getter lru_backend-IsRetentive (λ v. refl) 5 t t 0
no_deadline = λ mortal. absurd (ground (arith, mortal))

set-get_example :
    (g₁ : Group (LruCache ByteView) ℕ) × (set backend as_view of_view peer_get getter 5 t false
        false apple value group
      ≡ some (none, g₁))
    × ((g₂ : Group (LruCache ByteView) ℕ) × (get backend as_view of_view peer_get getter 5 t apple
            g₁
          ≡ some (ok (record { b = value }), g₂))
        × (g₂.stats ≡ record group.stats { local_hits = plus_one group.stats.local_hits })
        × (g₂.sync_tasks ≡ g₁.sync_tasks))
set-get_example =
    set-get backend as_view of_view peer_get getter lru_backend-IsRetentive (λ v. refl) 5 5 t t
      false false apple value group sound open_cache (new-IsValid 128 3 (omega arith) (omega arith))
      fits no_deadline refl named filled

abbrev groups : Map Bytes (Group (LruCache ByteView) ℕ)
groups = (value, record group { closed = true }) ∷ (apple, group) ∷ []

destroy_all_groups_lem_example :
    ((before after : Map Bytes (Group (LruCache ByteView) ℕ)) (name : Bytes)
        (g : Group (LruCache ByteView) ℕ)
      → groups ≡ before ++ (name, g) ∷ after
      → g.closed ≡ false
      → destroy_all_groups backend as_view of_view groups ≡ deadlock)
    × (All (λ e. e.1.closed ≡ true) groups
        → (rest : Map Bytes (Group (LruCache ByteView) ℕ)) × (destroy_all_groups backend as_view
              of_view groups
            ≡ returns rest)
          × ((name : Bytes) → lookup name rest ≡ none))
destroy_all_groups_lem_example = destroy_all_groups_lem backend as_view of_view groups

-- The second group is open.
stuck : destroy_all_groups backend as_view of_view groups ≡ deadlock
stuck =
    (destroy_all_groups_lem backend as_view of_view groups).0
      ((value, record group { closed = true }) ∷ []) [] apple group refl refl
