-- ===== src/Group/Retention.antt =====
-- What group.go gives back right after a `Set`: the value, from the group's own cache.
use go.Common.{
  ℕ, ◌+◌, ◌≤◌, ◌<◌, ◌≡◌, ◌≢◌, refl, ap, sym, ◌∙◌, Bool, true, false, Option, none, some, [], ◌∷◌,
  Bytes, bytes_eq, bytes_beq_iff, arith, nat_beq, length, inl, inr, Option-cases, if◌then◌else◌,
}
use mathlib.Core.Path.{subst}
use go.Common.Int64
use go.Bloom.{BloomFilter}
use go.Bloom.Membership.{IsValid, add-Added, may_contain-of_Holds}
use go.ByteView.{ByteView}
use go.Cache
use go.Cache.Lifecycle.{IsSound}
use go.Cache.Retention.{current, Finds, add-Finds, add_with_expiration-Finds}
use go.Store.Backend.{Backend, IsRetentive, Times}
use go.Group.{ok, SyncTask, Group, Stats, plus_one, propagate, note_key, admitted, set_task}
use go.Group.Methods.{store_view, get_admitted, get, set}

-- There is no filter, or a well-formed one.
abbrev pub FilterValid : Option BloomFilter → Type 0
FilterValid none = Unit
FilterValid (some bf) = IsValid bf

module _ {S P : Type 0} where
  note_key-admitted :
      (key : Bytes) (g : Group S P)
      → FilterValid g.bloom_filter
      → (f : Option BloomFilter) × (note_key key g ≡ some (record g { bloom_filter = f }))
        × (admitted key (record g { bloom_filter = f }) ≡ some true)
  unfolding note_key admitted
  note_key-admitted key g v = filtered g.bloom_filter refl v
    where
      filtered :
          (o : Option BloomFilter)
          → g.bloom_filter ≡ o
          → FilterValid o
          → (f : Option BloomFilter) × (note_key key g ≡ some (record g { bloom_filter = f }))
            × (admitted key (record g { bloom_filter = f }) ≡ some true)
      filtered none bare v = (none, ground arith, refl)
      filtered (some bf) there v =
          let (bf', adds, a) = add-Added key bf v in
          (some bf', ground arith, may_contain-of_Holds key bf' a.valid a.holds)

  abbrev Same : Group S P → Group S P → Type 0
  Same g g' =
      (g'.main_cache ≡ g.main_cache)
      × (g'.closed ≡ g.closed)
      × (g'.bloom_filter ≡ g.bloom_filter)
      × (g'.stats ≡ g.stats)

  propagate-Same :
      (fp fm : Bool) (task : SyncTask) (g : Group S P) → Same g (propagate fp fm task g)
  unfolding propagate
  propagate-Same fp fm task g = elim (Option-cases g.peers) [
    | inl alone ↦ (ground arith, ground arith, ground arith, ground arith)
    | inr (peers, there) ↦ (ground arith, ground arith, ground arith, ground arith)
  ]

  admitted-same :
      (key : Bytes) (g g' : Group S P)
      → g.bloom_filter ≡ g'.bloom_filter
      → admitted key g ≡ admitted key g'
  unfolding admitted
  admitted-same key g g' e = ground arith

module _ {V P : Type 0} (backend : Backend V) (as_view : V → Option ByteView)
    (of_view : ByteView → V) (peer_get : P → Bytes → Option Bytes) (getter : Bytes → Option Bytes)
    (retentive : IsRetentive backend)
    (faithful : (view : ByteView) → as_view (of_view view) ≡ some view) where
  abbrev G : Type 0
  G = Group backend.State P

  -- Where entries expire: their deadline is ahead of the readings of the clock, by which the entry is
  -- added and, later, read.
  abbrev pub IsAhead : (now : ℕ) → (t t' : Times) → (expiration : ℕ) → Type 0
  IsAhead now t t' d =
      Int64.lt 0 d ≡ true → (t.now < now + d) × (t.later ≤ now + d) × (t'.now ≤ now + d)

  store_view-Finds :
      (now : ℕ) (t t' : Times) (key : Bytes) (view : ByteView) (g : G)
      → IsSound backend as_view of_view g.main_cache
      → g.main_cache.closed ≡ false
      → FilterValid g.bloom_filter
      → retentive.Fits (current backend as_view of_view g.main_cache) key (of_view view)
      → IsAhead now t t' g.expiration
      → (g' : G) × (store_view backend as_view of_view peer_get getter now t key view g ≡ some g')
        × (admitted key g' ≡ some true)
        × Finds backend as_view of_view t' key view g'.main_cache
        × (g'.closed ≡ g.closed)
        × (g'.stats ≡ g.stats)
  unfolding store_view
  store_view-Finds now t t' key view g sound open' v fits ahead =
      let d = now + g.expiration in
      let b = Int64.lt 0 g.expiration in
      let c' =
        if b
        then Cache.add_with_expiration backend as_view of_view t key view d g.main_cache
        else Cache.add backend as_view of_view t key view g.main_cache in
      let g₁ : G = record g { main_cache = c' } in
      let (f, noted, may) = note_key-admitted key g₁ v in
      (record g₁ { bloom_filter = f }, noted, may, either b refl, refl, refl)
    where
      either :
          (b : Bool)
          → Int64.lt 0 g.expiration ≡ b
          → Finds backend as_view of_view t' key view (
              if b
              then Cache.add_with_expiration backend as_view of_view t key view
                  (now + g.expiration)
                  g.main_cache
              else Cache.add backend as_view of_view t key view g.main_cache)
      either true mortal =
          let (later, early, live) = ahead mortal in
          add_with_expiration-Finds backend as_view of_view retentive faithful t t' key view
            (now + g.expiration) g.main_cache sound open' fits later early live
      either false eternal =
          add-Finds backend as_view of_view retentive faithful t t' key view g.main_cache sound
            open' fits

  -- A `Get` of a key that the cache finds.
  get-found :
      (now : ℕ) (t : Times) (key : Bytes) (view : ByteView) (g : G)
      → g.closed ≡ false
      → key ≢ []
      → admitted key g ≡ some true
      → Finds backend as_view of_view t key view g.main_cache
      → (g' : G) × (get backend as_view of_view peer_get getter now t key g ≡ some (ok view, g'))
        × (g'.stats ≡ record g.stats { local_hits = plus_one g.stats.local_hits })
        × (g'.sync_tasks ≡ g.sync_tasks)
  unfolding get get_admitted
  get-found now t key view g open' named may (found, _) =
      let c = (Cache.get backend as_view of_view t key g.main_cache).1 in
      (
        record g {
          main_cache = c;
          stats = record g.stats { local_hits = plus_one g.stats.local_hits };
        },
        ground (arith, bytes_beq_iff key []),
        refl,
        refl,
      )

  -- Over a store that keeps what it was last given, and with views that survive the conversion to a
  -- value: `Set` of a key and a value that are not empty, on
  -- an open group with a sound open cache and no filter or a well-formed one, reports no error, and a
  -- `Get` of the key right after it answers with this value. It is counted as one local hit and as
  -- nothing else, so neither a peer nor the data source is asked, and it sends no task. The entry has
  -- to fit into the store, and its deadline, if there is one, must not be past.
  pub set-get :
      (now now' : ℕ) (t t' : Times) (fp fm : Bool) (key value : Bytes) (g : G)
      → IsSound backend as_view of_view g.main_cache
      → g.main_cache.closed ≡ false
      → FilterValid g.bloom_filter
      → retentive.Fits
          (current backend as_view of_view g.main_cache)
          key
          (of_view (record { b = value }))
      → IsAhead now t t' g.expiration
      → g.closed ≡ false
      → key ≢ []
      → value ≢ []
      → (g₁ : G) × (set backend as_view of_view peer_get getter now t fp fm key value g
          ≡ some (none, g₁))
        × ((g₂ : G) × (get backend as_view of_view peer_get getter now' t' key g₁
              ≡ some (ok (record { b = value }), g₂))
            × (g₂.stats ≡ record g.stats { local_hits = plus_one g.stats.local_hits })
            × (g₂.sync_tasks ≡ g₁.sync_tasks))
  unfolding set
  set-get now now' t t' fp fm key value g sound open' v fits ahead open'' named filled =
      let view : ByteView = record { b = value } in
      let (g₀, stores, may, found, shut, counts) =
        store_view-Finds now t t' key view g sound open' v fits ahead in
      let task = set_task key value in
      let g₁ = propagate fp fm task g₀ in
      let (cache, closed, filter, stats) = propagate-Same fp fm task g₀ in
      let found' = subst (λ c. Finds backend as_view of_view t' key view c) (sym cache) found in
      let may' = admitted-same key g₁ g₀ filter ∙ may in
      let (g₂, gets, counts', quiet) =
        get-found now' t' key view g₁ (closed ∙ shut ∙ open'') named may' found' in
      (
        g₁,
        ground (arith, bytes_beq_iff key [], some_bytes value filled),
        (
          g₂,
          gets,
          counts'
              ∙ ap (λ (x : Stats). record x { local_hits = plus_one x.local_hits })
                  (stats ∙ counts),
          quiet,
        ),
      )
    where
      some_bytes : (value : Bytes) → value ≢ [] → nat_beq (length value) 0 ≡ false
      some_bytes [] e = absurd (e refl)
      some_bytes (x ∷ xs) e = ground arith
