-- ===== src/Cache/Retention.antt =====
-- What cache.go gives back right after an addition, over a store that keeps what it was given last.
use go.ByteView.{ByteView}
use go.Common.{
  ℕ, ◌+◌, ◌-◌, ◌%◌, ◌^◌, ◌≤◌, ◌<◌, ◌≡◌, refl, sym, true, false, Option, none, some, Bytes, arith,
  leb, inl, inr, Option-cases,
}
use mathlib.Core.Option
use mathlib.Core.Path.{subst}
use go.Cache.{Cache, ensure_initialized, add, answer, get, add_with_expiration}
use go.Cache.Lifecycle.{IsSound, StoreValid}
use go.Store.Backend.{Backend, IsRetentive, Times}

module _ {V : Type 0} (backend : Backend V) (as_view : V → Option ByteView)
    (of_view : ByteView → V) where
  abbrev S : Type 0
  S = backend.State

  -- The store that a method works on: the one that there is, or a new one.
  abbrev pub current : Cache S → S
  current c = Option.get_or c.store (backend.create c.opts)

  ensured :
      (c : Cache S)
      → IsSound backend as_view of_view c
      → (ensure_initialized backend as_view of_view c
          ≡ record c { store = some (current c); initialized = true })
        × backend.IsValid (current c)
  unfolding ensure_initialized
  ensured c v = elim (Option-cases c.store) [
    | inl empty ↦
        let flag : c.initialized ≡ false = ground (arith, v.flagged) in
        (ground arith, current_valid c.store v.valid)
    | inr (s, there) ↦ (ground (arith, v.flagged), current_valid c.store v.valid)
  ]
    where
      current_valid :
          (o : Option S)
          → StoreValid backend as_view of_view o
          → backend.IsValid (Option.get_or o (backend.create c.opts))
      current_valid none ok = backend.create-IsValid c.opts
      current_valid (some s) ok = ok

  -- An open cache with a store that has the view of a key finds it.
  abbrev pub Finds : Times → Bytes → ByteView → Cache S → Type 0
  Finds t key view c =
      ((get backend as_view of_view t key c).0 ≡ (view, true))
      × ((get backend as_view of_view t key c).1.hits ≡ (c.hits + 1) % 2 ^ 64)

  get-Finds :
      (t : Times) (key : Bytes) (view : ByteView) (w : V) (s : S) (c : Cache S)
      → c.closed ≡ false
      → c.initialized ≡ true
      → c.store ≡ some s
      → backend.IsValid s
      → backend.get_value t key s ≡ some w
      → as_view w ≡ some view
      → Finds t key view c
  unfolding get answer
  get-Finds t key view w s c open' flag there ok has is =
      let same = backend.get-get_value t key s ok in (ground arith, ground arith)

  module _ (retentive : IsRetentive backend)
      (faithful : (view : ByteView) → as_view (of_view view) ≡ some view) where
    -- `Add` and then `Get`.
    pub add-Finds :
        (t t' : Times) (key : Bytes) (view : ByteView) (c : Cache S)
        → IsSound backend as_view of_view c
        → c.closed ≡ false
        → retentive.Fits (current c) key (of_view view)
        → Finds t' key view (add backend as_view of_view t key view c)
    unfolding add
    add-Finds t t' key view c v open' fits =
        let (e, ok) = ensured c v in
        let w = of_view view in
        let s' = backend.set t key w (current c) in
        let c' : Cache S = record c { store = some s'; initialized = true } in
        let is : add backend as_view of_view t key view c ≡ c' = ground arith in
        subst (λ x. Finds t' key view x) (sym is)
          (get-Finds t' key view w s' c' open' refl refl
            (backend.set-IsValid t key w (current c) ok)
            (retentive.set-reads t t' key w (current c) ok fits) (faithful view))

    -- `AddWithExpiration` and then `Get`, before the deadline.
    pub add_with_expiration-Finds :
        (t t' : Times) (key : Bytes) (view : ByteView) (deadline : ℕ) (c : Cache S)
        → IsSound backend as_view of_view c
        → c.closed ≡ false
        → retentive.Fits (current c) key (of_view view)
        → t.now < deadline
        → t.later ≤ deadline
        → t'.now ≤ deadline
        → Finds t' key view (add_with_expiration backend as_view of_view t key view deadline c)
    unfolding add_with_expiration
    add_with_expiration-Finds t t' key view deadline c v open' fits ahead early live =
        let (e, ok) = ensured c v in
        let w = of_view view in
        let d = deadline - t.now in
        let s' = backend.set_with_expiration t key w d (current c) in
        let c' : Cache S = record c { store = some s'; initialized = true } in
        let future : leb deadline t.now ≡ false = ground arith in
        let is : add_with_expiration backend as_view of_view t key view deadline c ≡ c' =
          ground arith in
        subst (λ x. Finds t' key view x) (sym is)
          (get-Finds t' key view w s' c' open' refl refl
            (backend.set_with_expiration-IsValid t key w d (current c) ok)
            (retentive.set_with_expiration-reads t t' key w d (current c) ok fits (omega arith)
              (omega arith))
            (faithful view))
