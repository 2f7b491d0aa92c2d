-- ===== src/Tests/Served.antt =====
-- A group without a filter, over the LRU store, that serves a `Set` and a `Get`.
use go.Common.{
  ℕ, nat_beq, ◌≡◌, ◌⊎◌, refl, true, false, Option, none, some, [], ◌∷◌, Bytes, bytes_eq, bytes_beq,
  if◌then◌else◌,
}
use go.ByteView.{ByteView, byte_view_value}
use go.Store.Lru
use go.Store.Lru.{LruCache}
use go.Store.Lru.Elements.{find_id, remove_id, move_to_back}
use go.Store.Lru.Service.Coherent.{lru_backend-IsCoherent}
use go.Common.Map
use go.Cache
use go.Cache.{default_cache_options}
use go.Cache.Coherence.{nothing_known}
use go.Group.{Group, Error, Result, ok, propagate, note_key, admitted, Peers}
use go.Group.Methods.{get, set, load_data, get_local_key_value, store_view, get_admitted}
use go.Group.Loading.{TakesFirst, first_answer, asked, load_data_lem}
use go.Group.Coherence.Reached.{Reached, start, after_set, stored}
use go.Group.Coherence.Reading.{WasLoaded, get-Reached, get_local_key_value-Reached}
use go.Tests.Groups.{backend, as_view, of_view, getter, t, apple, value, group}

-- Peers are numbers, of which the second answers.
abbrev peer_get : ℕ → Bytes → Option Bytes
peer_get peer key = if nat_beq peer 2 then some (7 ∷ []) else none

abbrev peers : Peers ℕ
peers = record {
  pick = λ key. (some 1, true, false);
  with_fallback =
      some (λ key. record { primary = some 1; replica = some 2; ok = true; is_self = false });
  all_peers = none;
}

abbrev G : Type 0
G = Group (LruCache ByteView) ℕ

abbrev plain : G
plain = record group { bloom_filter = none; peers = some peers }

load_data_lem_example :
    TakesFirst backend as_view of_view peer_get getter apple
      (first_answer (asked backend as_view of_view peer_get getter apple plain.peers))
      plain
      (load_data backend as_view of_view peer_get getter apple plain)
load_data_lem_example = load_data_lem backend as_view of_view peer_get getter apple plain

abbrev group_of : Option (Option Error × G) → G
group_of none = plain
group_of (some (e, g)) = g

abbrev one : G
one = group_of (set backend as_view of_view peer_get getter 5 t false false apple value plain)

abbrev result_of : Option (Result × G) → G
result_of none = plain
result_of (some (r, g)) = g

abbrev two : G
two = result_of (get backend as_view of_view peer_get getter 5 t apple one)

abbrev view : ByteView
view = record { b = value }

setting : Unit {0}
unfolding set store_view propagate note_key go.Group.enqueue Cache.add Cache.new_cache
    Cache.ensure_initialized Lru.set Lru.set_with_expiration Lru.element_of Lru.add_entry Lru.evict
    Lru.expire_loop Lru.shrink_loop Lru.is_over Lru.set_expiry find_id remove_id move_to_back
    Map.lookup Map.insert Map.delete bytes_beq Lru.new_lru_cache default_cache_options
setting = tt

set_apple :
    set backend as_view of_view peer_get getter 5 t false false apple value plain ≡ some (none, one)
unfolding setting
set_apple = refl

one-Reached :
    Reached backend as_view of_view peer_get getter
      (stored backend as_view of_view peer_get getter 5 t apple view 0 nothing_known)
      one
one-Reached =
    after_set 5 t false false apple value nothing_known plain one
      (start default_cache_options plain refl) set_apple

get_apple : get backend as_view of_view peer_get getter 5 t apple one ≡ some (ok view, two)
unfolding setting get get_admitted admitted Cache.get Cache.answer Lru.get Lru.get_read
    Lru.is_expired Lru.get_promote
get_apple = refl

get-Reached_example :
    (stored backend as_view of_view peer_get getter 5 t apple view 0 nothing_known apple
      ≡ some view)
    ⊎ WasLoaded backend as_view of_view peer_get getter apple view one
get-Reached_example =
    get-Reached backend as_view of_view peer_get getter lru_backend-IsCoherent (λ v. refl) 5 t apple
      view (stored backend as_view of_view peer_get getter 5 t apple view 0 nothing_known) one two
      one-Reached get_apple

local_apple : get_local_key_value backend as_view of_view peer_get getter t apple one ≡ some value
unfolding setting get_local_key_value Cache.get_raw_value Lru.get_value Lru.is_expired
local_apple = refl

get_local_key_value-Reached_example :
    stored backend as_view of_view peer_get getter 5 t apple view 0 nothing_known apple ≡ some view
get_local_key_value-Reached_example =
    get_local_key_value-Reached backend as_view of_view peer_get getter lru_backend-IsCoherent
      (λ v. refl) t apple value
      (stored backend as_view of_view peer_get getter 5 t apple view 0 nothing_known) one
      one-Reached local_apple
