-- ===== src/Cache/Lifecycle.antt =====
-- The life of a cache of cache.go: made on first use, counted, closed for good.
use go.ByteView.{ByteView}
use go.Common.{
  ℕ, ◌+◌, ◌%◌, ◌^◌, ◌≡◌, refl, true, false, Option, none, some, Bytes, arith, [], is_some,
  Bool-cases, inl, inr, Option-cases, leb, ◌-◌,
}
use go.Cache.{
  Cache, new_cache, empty_view, ensure_initialized, add, answer, get, add_with_expiration, delete,
  clear, close, keys, len, get_raw_value,
}
use go.Store.Backend.{Backend, Times}
use go.Store.Options.{Options}

module _ {V : Type 0} (backend : Backend V) (as_view : V → Option ByteView)
    (of_view : ByteView → V) where
  abbrev S : Type 0
  S = backend.State

  abbrev pub StoreValid : Option S → Type 0
  StoreValid none = Unit
  StoreValid (some s) = backend.IsValid s

  -- The flag says whether there is a store, a closed cache has none, and the store is well formed.
  pub record IsSound (c : Cache S) : Type 0 where
    pub flagged : c.initialized ≡ is_some c.store
    pub dropped : c.closed ≡ true → c.initialized ≡ false
    pub valid : StoreValid c.store

  pub new-IsSound : (opts : Options) → IsSound (new_cache opts)
  unfolding new_cache
  new-IsSound opts = record { flagged = refl; dropped = λ e. refl; valid = tt }

  -- An open cache with its store, as the methods find it.
  ensured :
      (c : Cache S)
      → IsSound c
      → c.closed ≡ false
      → (s : S) × (ensure_initialized backend as_view of_view c
          ≡ record c { store = some s; initialized = true })
        × backend.IsValid s
  unfolding ensure_initialized
  ensured c v open' = elim (Option-cases c.store) [
    | inl empty ↦
        let cold : c.initialized ≡ false = ground (arith, v.flagged) in
        (backend.create c.opts, ground arith, backend.create-IsValid c.opts)
    | inr (s, there) ↦ (s, ground (arith, v.flagged), rw there at v.valid)
  ]

  pub IsSound-with :
      (c : Cache S) (s : S)
      → c.closed ≡ false
      → backend.IsValid s
      → IsSound (record c { store = some s; initialized = true })
  IsSound-with c s open' ok = record {
    flagged = refl;
    dropped = λ shut. absurd (ground arith);
    valid = ok;
  }

  -- What `Add` and `AddWithExpiration` make of an open cache.
  add_open :
      (t : Times) (key : Bytes) (view : ByteView) (c : Cache S)
      → IsSound c
      → c.closed ≡ false
      → (s : S) × (add backend as_view of_view t key view c
          ≡ record c { store = some s; initialized = true })
        × backend.IsValid s
  unfolding add
  add_open t key view c v open' =
      let (s, e, ok) = ensured c v open' in
      (
        backend.set t key (of_view view) s,
        ground arith,
        backend.set-IsValid t key (of_view view) s ok,
      )

  add_with_expiration_open :
      (t : Times) (key : Bytes) (view : ByteView) (deadline : ℕ) (c : Cache S)
      → IsSound c
      → c.closed ≡ false
      → (s : S) × (add_with_expiration backend as_view of_view t key view deadline c
          ≡ record c { store = some s; initialized = true })
        × backend.IsValid s
  unfolding add_with_expiration
  add_with_expiration_open t key view deadline c v open' =
      let (s, e, ok) = ensured c v open' in
      elim (Bool-cases (leb deadline t.now)) [
        | inl past ↦ (s, ground arith, ok)
        | inr future ↦ (
          backend.set_with_expiration t key (of_view view) (deadline - t.now) s,
          ground arith,
          backend.set_with_expiration-IsValid t key (of_view view) (deadline - t.now) s ok,
        )
      ]

  -- On a closed cache every method leaves the cache as it is and answers as an empty one does; a
  -- `Get` there is not counted.
  pub closed-inert :
      (t : Times) (key : Bytes) (view : ByteView) (deadline : ℕ) (c : Cache S)
      → c.closed ≡ true
      → (add backend as_view of_view t key view c ≡ c)
        × (add_with_expiration backend as_view of_view t key view deadline c ≡ c)
        × (get backend as_view of_view t key c ≡ ((empty_view, false), c))
        × (delete backend as_view of_view key c ≡ (false, c))
        × (clear backend as_view of_view c ≡ c)
        × (close backend as_view of_view c ≡ c)
        × (len backend as_view of_view c ≡ 0)
        × (keys backend as_view of_view c ≡ [])
        × (get_raw_value backend as_view of_view t key c ≡ (empty_view, false))
  unfolding add add_with_expiration get delete clear close len keys get_raw_value
  closed-inert t key view deadline c shut = (
    ground arith,
    ground arith,
    ground arith,
    ground arith,
    ground arith,
    ground arith,
    ground arith,
    ground arith,
    ground arith,
  )

  pub kept : {c c' : Cache S} → c' ≡ c → IsSound c → IsSound c'
  kept e v = rw e v

  -- `Add` and `AddWithExpiration` keep a cache sound.
  pub add-IsSound :
      (t : Times) (key : Bytes) (view : ByteView) (deadline : ℕ) (c : Cache S)
      → IsSound c
      → IsSound (add backend as_view of_view t key view c)
        × IsSound (add_with_expiration backend as_view of_view t key view deadline c)
  add-IsSound t key view deadline c v = elim (Bool-cases c.closed) [
    | inl shut ↦
        let inert = closed-inert t key view deadline c shut in (kept inert.0 v, kept inert.1 v)
    | inr open' ↦
        let (s, e, ok) = add_open t key view c v open' in
        let (s', e', ok') = add_with_expiration_open t key view deadline c v open' in
        (kept e (IsSound-with c s open' ok), kept e' (IsSound-with c s' open' ok'))
  ]

  -- An open cache with a store, as `Get`, `Delete` and `Clear` find it, or one without.
  pub data Stage (c : Cache S) : Type 0 where
    cold : c.initialized ≡ false → Stage c
    warm : (s : S) → c.initialized ≡ true → c.store ≡ some s → backend.IsValid s → Stage c

  pub stage : (c : Cache S) → IsSound c → Stage c
  stage c v = elim (Option-cases c.store) [
    | inl empty ↦ cold (ground (arith, v.flagged))
    | inr (s, there) ↦ warm s (ground (arith, v.flagged)) there (rw there at v.valid)
  ]

  -- `Get` on a sound open cache adds one to the hits where it finds a view, and one to the misses
  -- where it does not; it stays sound.
  pub get-counts :
      (t : Times) (key : Bytes) (c : Cache S)
      → IsSound c
      → c.closed ≡ false
      → ((get backend as_view of_view t key c).0.1 ≡ true
          → ((get backend as_view of_view t key c).1.hits ≡ (c.hits + 1) % 2 ^ 64)
            × ((get backend as_view of_view t key c).1.misses ≡ c.misses))
        × ((get backend as_view of_view t key c).0.1 ≡ false
            → (get backend as_view of_view t key c).1.misses ≡ (c.misses + 1) % 2 ^ 64)
  unfolding get answer
  get-counts t key c v open' = elim (stage c v) [
    | cold e ↦ (ground arith, ground arith)
    | warm s e there ok ↦ (ground arith, ground arith)
  ]

  pub answer-IsSound :
      (r : Option V) (s : S) (c : Cache S)
      → c.closed ≡ false
      → c.initialized ≡ true
      → backend.IsValid s
      → IsSound (answer backend as_view of_view r (record c { store = some s })).1
  unfolding answer
  answer-IsSound none s c open' e ok = record {
    flagged = e;
    dropped = λ shut. absurd (ground arith);
    valid = ok;
  }
  answer-IsSound (some w) s c open' e ok = elim (Option-cases (as_view w)) [
    | inl other ↦
        rw (other, answer)
          (record { flagged = e; dropped = λ shut. absurd (ground arith); valid = ok })
    | inr (view, is) ↦
        rw (is, answer)
          (record { flagged = e; dropped = λ shut. absurd (ground arith); valid = ok })
  ]

  -- `Get` keeps a sound cache sound.
  pub get-IsSound :
      (t : Times) (key : Bytes) (c : Cache S)
      → IsSound c
      → IsSound (get backend as_view of_view t key c).1
  unfolding get
  get-IsSound t key c v = elim (Bool-cases c.closed) [
    | inl shut ↦ kept (ground arith) v
    | inr open' ↦ elim (stage c v) [
      | cold e ↦
          kept {c = record c { misses = (c.misses + 1) % 2 ^ 64 }}
            {c' = (get backend as_view of_view t key c).1} (ground arith)
            (record { flagged = v.flagged; dropped = v.dropped; valid = v.valid })
      | warm s e there ok ↦
          let r = backend.get t key s in
          kept {c' = (get backend as_view of_view t key c).1} (ground arith)
            (answer-IsSound r.0 r.1 c open' e (backend.get-IsValid t key s ok))
    ]
  ]
