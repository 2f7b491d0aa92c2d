-- ===== src/Group/Coherence.antt =====
-- What the requests of group.go leave in the cache of the group, by the methods' branches.
pub mod Reached
pub mod Steps
pub mod Reading
use go.Common.{
  ℕ, ◌+◌, ◌≡◌, refl, sym, ◌∙◌, ap, Bool, true, false, ◌⊎◌, inl, inr, Option, none, some, List, [],
  ◌∷◌, if◌then◌else◌, Bytes, bytes_eq, ◌==◌, arith, Bool-cases, Option-cases,
}
use go.Common.Int64
use mathlib.Core.Path.{subst}
use go.Bloom
use go.ByteView.{ByteView}
use go.Store.Backend.{Backend, Times}
use go.Cache
use go.Group.{
  Error, group_closed, key_required, key_not_found, Result, error, ok, SyncTask, Group, propagate,
  note_key, admitted,
}
use go.Group.Methods.{
  store_view, load_data, count_load, keep_loaded, load, get_admitted, get, set, delete,
}
use go.Group.Loading.{load_data_lem}

module _ {S P : Type 0} where
  pub note_key-main_cache :
      (key : Bytes) (g g' : Group S P) → note_key key g ≡ some g' → g'.main_cache ≡ g.main_cache
  unfolding note_key
  note_key-main_cache key g g' e = elim (Option-cases g.bloom_filter) [
    | inl bare ↦ ground arith
    | inr (bf, there) ↦ elim (Option-cases (Bloom.add key bf)) [
      | inl panics ↦ absurd (ground arith)
      | inr (bf', adds) ↦ ground arith
    ]
  ]

  pub propagate-main_cache :
      (fp fm : Bool) (task : SyncTask) (g : Group S P)
      → (propagate fp fm task g).main_cache ≡ g.main_cache
  unfolding propagate
  propagate-main_cache fp fm task g = elim (Option-cases g.peers) [
    | inl alone ↦ ground arith
    | inr (peers, there) ↦ ground arith
  ]

module _ {V P : Type 0} (backend : Backend V) (as_view : V → Option ByteView)
    (of_view : ByteView → V) (peer_get : P → Bytes → Option Bytes)
    (getter : Bytes → Option Bytes) where
  abbrev G : Type 0
  G = Group backend.State P

  abbrev asked_cache : Times → Bytes → G → (ByteView × Bool) × Cache.Cache backend.State
  asked_cache t key g = Cache.get backend as_view of_view t key g.main_cache

  -- A `Get` that returns: turned away, served from the cache, loaded and stored, or failed to load.
  pub data Got (now : ℕ) (t : Times) (key : Bytes) (g : G) : Result → G → Type 0 where
    refused : (e : Error) → Got now t key g (error e) g
    hit :
        (view : ByteView) (g' : G)
        → (asked_cache t key g).0 ≡ (view, true)
        → g'.main_cache ≡ (asked_cache t key g).1
        → Got now t key g (ok view) g'
    loaded :
        (view : ByteView) (g₁ g₂ g' : G)
        → (load_data backend as_view of_view peer_get getter key g₁).0 ≡ ok view
        → g₁.peers ≡ g.peers
        → g₂.main_cache ≡ (asked_cache t key g).1
        → g₂.expiration ≡ g.expiration
        → store_view backend as_view of_view peer_get getter now t key view g₂ ≡ some g'
        → Got now t key g (ok view) g'
    not_loaded :
        (e : Error) (g' : G)
        → g'.main_cache ≡ (asked_cache t key g).1
        → Got now t key g (error e) g'

  same_answer : {A : Type 0} (x y : A) → some x ≡ some y → x ≡ y
  same_answer x y e = ground (arith, e)

  become :
      (now : ℕ) (t : Times) (key : Bytes) (g g₁ g' : G) (r₁ r : Result)
      → ◌≡◌ {A = Option (Result × G)} (some (r₁, g₁)) (some (r, g'))
      → Got now t key g r₁ g₁
      → Got now t key g r g'
  become now t key g g₁ g' r₁ r e got =
      subst (λ (p : Result × G). Got now t key g p.0 p.1) (same_answer (r₁, g₁) (r, g') e) got

  keep_loaded-Got :
      (now : ℕ) (t : Times) (key : Bytes) (g g₁ g₂ g' : G) (r₁ r : Result)
      → (load_data backend as_view of_view peer_get getter key g₁).0 ≡ r₁
      → g₁.peers ≡ g.peers
      → g₂.main_cache ≡ (asked_cache t key g).1
      → g₂.expiration ≡ g.expiration
      → keep_loaded backend as_view of_view peer_get getter now t key (r₁, g₂) ≡ some (r, g')
      → Got now t key g r g'
  unfolding keep_loaded
  keep_loaded-Got now t key g g₁ g₂ g' (error e) r from peers same d done =
      become now t key g _ g' (error e) r done (not_loaded e _ same)
  keep_loaded-Got now t key g g₁ g₂ g' (ok view) r from peers same d done =
      let stored = store_view backend as_view of_view peer_get getter now t key view g₂ in
      elim (Option-cases stored) [
        | inl panics ↦ absurd (ground arith)
        | inr (g₃, stores) ↦
            become now t key g g₃ g' (ok view) r (ground arith)
              (loaded view g₁ g₂ g₃ from peers same d stores)
      ]

  load-Got :
      (now : ℕ) (t : Times) (key : Bytes) (g g₁ g' : G) (r : Result)
      → g₁.peers ≡ g.peers
      → g₁.main_cache ≡ (asked_cache t key g).1
      → g₁.expiration ≡ g.expiration
      → load backend as_view of_view peer_get getter now t key g₁ ≡ some (r, g')
      → Got now t key g r g'
  unfolding load
  load-Got now t key g g₁ g' r peers same d done =
      let l = load_data backend as_view of_view peer_get getter key g₁ in
      let (_, quiet, _) = load_data_lem backend as_view of_view peer_get getter key g₁ in
      keep_loaded-Got now t key g g₁ (count_load backend as_view of_view peer_get getter l.1) g' l.0
        r refl peers (ap (λ (x : G). x.main_cache) quiet ∙ same)
        (ap (λ (x : G). x.expiration) quiet ∙ d) done

  get_admitted-Got :
      (now : ℕ) (t : Times) (key : Bytes) (g g' : G) (r : Result)
      → get_admitted backend as_view of_view peer_get getter now t key g ≡ some (r, g')
      → Got now t key g r g'
  unfolding get_admitted
  get_admitted-Got now t key g g' r done =
      let ((view, found), c) = asked_cache t key g in
      elim (Bool-cases found) [
        | inl hits ↦
            become now t key g _ g' (ok view) r (rw hits at done)
              (hit view _ (ground (arith, hits)) refl)
        | inr misses ↦ load-Got now t key g _ g' r refl refl refl (rw misses at done)
      ]

  pub get-Got :
      (now : ℕ) (t : Times) (key : Bytes) (g g' : G) (r : Result)
      → get backend as_view of_view peer_get getter now t key g ≡ some (r, g')
      → Got now t key g r g'
  unfolding get
  get-Got now t key g g' r done = elim (Bool-cases g.closed) [
    | inl shut ↦ become now t key g g g' (error group_closed) r (ground arith) (refused _)
    | inr open' ↦ elim (Bool-cases (key == [])) [
      | inl blank ↦ become now t key g g g' (error key_required) r (ground arith) (refused _)
      | inr named ↦ elim (Option-cases (admitted key g)) [
        | inl panics ↦ absurd (ground arith)
        | inr (may, asks) ↦ elim (Bool-cases may) [
          | inl yes' ↦ get_admitted-Got now t key g g' r (ground arith)
          | inr no' ↦ become now t key g g g' (error key_not_found) r (ground arith) (refused _)
        ]
      ]
    ]
  ]
