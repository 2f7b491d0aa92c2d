-- ===== src/Cache/Coherence/Additions.antt =====
-- The additions of cache.go against the abstract cache.
use go.ByteView.{ByteView}
use go.Common.{
  ℕ, Bool, if◌then◌else◌, ◌-◌, ◌≡◌, refl, true, false, Option, none, some, Bytes, arith, Bool-cases,
  inl, inr, Option-cases, leb,
}
use go.Cache.{Cache, ensure_initialized, add, add_with_expiration}
use go.Cache.Lifecycle.{IsSound-with}
use go.Cache.Coherence.{
  adds_until, Known, given, expected, Reads, StoreReads, Reflects, Reflects-same, Reflects-empty,
  Reflects-stored, no_store, Reads-create, Reads-written, set-Writes, set_with_expiration-Writes,
}
use go.Store.Backend.{Backend, IsCoherent, Times}

module _ {V : Type 0} (backend : Backend V) (as_view : V → Option ByteView) (of_view : ByteView → V)
    (coherent : IsCoherent backend) where
  abbrev S : Type 0
  S = backend.State

  abbrev pub Follows : Known → Cache S → Type 0
  Follows m c = Reflects backend as_view of_view m c

  pub Reflects-Reads :
      (m : Known) (c : Cache S) (s : S)
      → c.store ≡ some s
      → Follows m c
      → Reads backend as_view of_view m s
  unfolding StoreReads
  Reflects-Reads m c s there r = rw there at r.reads

  -- The store with which `ensureInitialized` leaves a cache.
  ensured :
      (m : Known) (c : Cache S)
      → Follows m c
      → (s : S) × (ensure_initialized backend as_view of_view c
          ≡ record c { store = some s; initialized = true })
        × backend.IsValid s
        × Reads backend as_view of_view m s
  unfolding ensure_initialized
  ensured m c r = elim (Option-cases c.store) [
    | inl empty ↦
        let flag : c.initialized ≡ false = ground (arith, r.sound.flagged) in
        (
          backend.create c.opts,
          ground arith,
          backend.create-IsValid c.opts,
          Reads-create backend as_view of_view coherent m c.opts,
        )
    | inr (s, there) ↦ (
      s,
      ground (arith, r.sound.flagged),
      rw there at r.sound.valid,
      Reflects-Reads m c s there r,
    )
  ]

  closed_store : (m : Known) (c : Cache S) → Follows m c → c.closed ≡ true → c.store ≡ none
  closed_store m c r shut = no_store backend as_view of_view c r.sound (r.sound.dropped shut)

  pub stays_closed :
      (m m' : Known) (c c' : Cache S) → Follows m c → c.closed ≡ true → c' ≡ c → Follows m' c'
  stays_closed m m' c c' r shut e =
      Reflects-same backend as_view of_view e
        (Reflects-empty backend as_view of_view m' c r.sound (closed_store m c r shut))

  pub stored :
      (m : Known) (c c' : Cache S) (s : S)
      → c.closed ≡ false
      → backend.IsValid s
      → Reads backend as_view of_view m s
      → c' ≡ record c { store = some s; initialized = true }
      → Follows m c'
  stored m c c' s open' ok r e = Reflects-same backend as_view of_view e (
      Reflects-stored backend as_view of_view m (record c { store = some s; initialized = true }) s
        (IsSound-with backend as_view of_view c s open' ok) refl r)

  pub add-Reflects :
      (t : Times) (key : Bytes) (view : ByteView) (m : Known) (c : Cache S)
      → Follows m c
      → Follows (given key view m) (add backend as_view of_view t key view c)
  unfolding add
  add-Reflects t key view m c r = elim (Bool-cases c.closed) [
    | inl shut ↦
        stays_closed m (given key view m) c (add backend as_view of_view t key view c) r shut
          (ground arith)
    | inr open' ↦
        let (s, e, ok, known) = ensured m c r in
        let s' = backend.set t key (of_view view) s in
        stored (given key view m) c (add backend as_view of_view t key view c) s' open'
          (backend.set-IsValid t key (of_view view) s ok)
          (Reads-written backend as_view of_view coherent key view m s s'
            (set-Writes backend as_view of_view coherent t key (of_view view) s ok) known)
          (ground arith)
  ]

  either :
      (b : Bool) (m m' : Known) (c : Cache S)
      → (b ≡ true → Follows m c)
      → (b ≡ false → Follows m' c)
      → Follows (if b then m else m') c
  either true m m' c past future = past refl
  either false m m' c past future = future refl

  pub add_with_expiration-Reflects :
      (t : Times) (key : Bytes) (view : ByteView) (deadline : ℕ) (m : Known) (c : Cache S)
      → Follows m c
      → Follows
          (expected (adds_until t key view deadline) m)
          (add_with_expiration backend as_view of_view t key view deadline c)
  unfolding add_with_expiration
  add_with_expiration-Reflects t key view deadline m c r =
      let m' = given key view m in
      let c' = add_with_expiration backend as_view of_view t key view deadline c in
      let (s, e, ok, known) = ensured m c r in
      let d = deadline - t.now in
      let s' = backend.set_with_expiration t key (of_view view) d s in
      elim (Bool-cases c.closed) [
        | inl shut ↦
            stays_closed m (expected (adds_until t key view deadline) m) c c' r shut (ground arith)
        | inr open' ↦
            either (leb deadline t.now) m m' c'
              (λ past. stored m c c' s open' ok known (ground arith))
              (λ future.
                stored m' c c' s' open'
                  (backend.set_with_expiration-IsValid t key (of_view view) d s ok)
                  (Reads-written backend as_view of_view coherent key view m s s'
                    (set_with_expiration-Writes backend as_view of_view coherent t key
                      (of_view view) d s ok)
                    known)
                  (ground arith))
      ]
