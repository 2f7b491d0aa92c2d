-- ===== src/Group/Coherence/Steps.antt =====
-- The steps of a group of group.go, over a store that reads as it was last set, against the views
-- that the requests stored.
use mathlib.Core.Path.{fun_ext, subst}
use go.Common.{
  ℕ, ◌+◌, ◌≡◌, refl, sym, ◌∙◌, ap, Bool, true, false, inl, inr, Option, none, some, if◌then◌else◌,
  Bytes, bytes_eq, bytes_beq, bytes_beq_iff, arith, Bool-cases, Option-cases,
}
use go.Common.Int64
use go.Common.Map.{Map}
use go.ByteView.{ByteView}
use go.Store.Backend.{Backend, IsCoherent, Times}
use go.Cache
use go.Cache.Coherence.{Known, nothing_known, given, expected, adds_until, deletes}
use go.Cache.Coherence.Additions.{Follows, add-Reflects, add_with_expiration-Reflects}
use go.Cache.Coherence.Runs.{
  new-Reflects, found-known, get-Reflects, delete-Reflects, close-Reflects,
}
use go.Group.{Error, Result, error, ok, Group, propagate, set_task, broadcast_delete}
use go.Group.Coherence.{
  note_key-main_cache, propagate-main_cache, Got, refused, hit, loaded, not_loaded, get-Got,
}
use go.Group.Destroy.{close}
use go.Group.Methods.{store_view, set, delete, set_local_direct}
use go.Group.Coherence.Reached.{
  stored, Reached, start, after_set, after_set_error, after_get, after_get_error, after_delete,
  after_delete_error, after_migration, after_close, after_other,
}

module _ {V P : Type 0} (backend : Backend V) (as_view : V → Option ByteView)
    (of_view : ByteView → V) (peer_get : P → Bytes → Option Bytes)
    (getter : Bytes → Option Bytes) where
  abbrev G : Type 0
  G = Group backend.State P

  module _ (coherent : IsCoherent backend)
      (faithful : (view : ByteView) → as_view (of_view view) ≡ some view) where
    abbrev pub Fits : Known → G → Type 0
    Fits m g = Follows backend as_view of_view coherent m g.main_cache

    moved : (m : Known) (g g' : G) → g'.main_cache ≡ g.main_cache → Fits m g → Fits m g'
    moved m g g' e f = subst (λ c. Follows backend as_view of_view coherent m c) (sym e) f

    cached :
        (b : Bool) (now : ℕ) (t : Times) (key : Bytes) (view : ByteView) (d : ℕ) (m : Known)
        (c : Cache.Cache backend.State)
        → Follows backend as_view of_view coherent m c
        → Follows backend as_view of_view coherent
            (if b then expected (adds_until t key view (now + d)) m else given key view m)
            (if b
              then Cache.add_with_expiration backend as_view of_view t key view (now + d) c
              else Cache.add backend as_view of_view t key view c)
    cached true now t key view d m c f =
        add_with_expiration-Reflects backend as_view of_view coherent t key view (now + d) m c f
    cached false now t key view d m c f =
        add-Reflects backend as_view of_view coherent t key view m c f

    store_view-Fits :
        (now : ℕ) (t : Times) (key : Bytes) (view : ByteView) (m : Known) (g g' : G)
        → Fits m g
        → store_view backend as_view of_view peer_get getter now t key view g ≡ some g'
        → Fits (stored backend as_view of_view peer_get getter now t key view g.expiration m) g'
    unfolding store_view
    store_view-Fits now t key view m g g' f e =
        let b = Int64.lt 0 g.expiration in
        moved (stored backend as_view of_view peer_get getter now t key view g.expiration m)
          (record g {
            main_cache =
                if b
                then Cache.add_with_expiration backend as_view of_view t key view
                    (now + g.expiration) g.main_cache
                else Cache.add backend as_view of_view t key view g.main_cache;
          })
          g' (note_key-main_cache key _ g' e)
          (cached b now t key view g.expiration m g.main_cache f)

    given-known :
        (key : Bytes) (view : ByteView) (m : Known) → m key ≡ some view → given key view m ≡ m
    given-known key view m known = fun_ext (λ k. elim (Bool-cases (bytes_beq key k)) [
      | inl here ↦
          let same = (bytes_beq_iff key k).0 here in
          let known' : m k ≡ some view = rw (← same) known in rw here (sym known')
      | inr apart ↦ rw apart refl
    ])

    -- To store once more what is known changes nothing.
    stored-known :
        (now : ℕ) (t : Times) (key : Bytes) (view : ByteView) (d : ℕ) (m : Known)
        → m key ≡ some view
        → stored backend as_view of_view peer_get getter now t key view d m ≡ m
    stored-known now t key view d m known = ground (arith, given-known key view m known)

    set-Fits :
        (now : ℕ) (t : Times) (fp fm : Bool) (key value : Bytes) (m : Known) (g g' : G)
        → Fits m g
        → set backend as_view of_view peer_get getter now t fp fm key value g ≡ some (none, g')
        → Fits
            (stored backend as_view of_view peer_get getter now t key
              (record { b = value })
              g.expiration
              m)
            g'
    unfolding set
    set-Fits now t fp fm key value m g g' f e =
        let view : ByteView = record { b = value } in
        elim (Option-cases (store_view backend as_view of_view peer_get getter now t key view g)) [
          | inl panics ↦ absurd (ground arith)
          | inr (g₁, stores) ↦
              let f₁ = store_view-Fits now t key view m g g₁ f stores in
              let g₂ = propagate fp fm (set_task key value) g₁ in
              let is : g' ≡ g₂ = ground arith in
              moved (stored backend as_view of_view peer_get getter now t key view g.expiration m)
                g₁ g'
                (ap (λ (x : G). x.main_cache) is
                  ∙ propagate-main_cache fp fm (set_task key value) g₁)
                f₁
        ]

    set_error-Fits :
        (now : ℕ) (t : Times) (fp fm : Bool) (key value : Bytes) (e : Error) (m : Known) (g g' : G)
        → Fits m g
        → set backend as_view of_view peer_get getter now t fp fm key value g ≡ some (some e, g')
        → Fits m g'
    unfolding set
    set_error-Fits now t fp fm key value e m g g' f done =
        let view : ByteView = record { b = value } in
        elim (Option-cases (store_view backend as_view of_view peer_get getter now t key view g)) [
          | inl panics ↦
              let is : g' ≡ g = ground arith in moved m g g' (ap (λ (x : G). x.main_cache) is) f
          | inr (g₁, stores) ↦
              let is : g' ≡ g = ground arith in moved m g g' (ap (λ (x : G). x.main_cache) is) f
        ]

    delete-Fits :
        (fp fm : Bool) (key : Bytes) (m : Known) (g g' : G)
        → Fits m g
        → delete backend as_view of_view peer_get getter fp fm key g ≡ (none, g')
        → Fits (expected (deletes key) m) g'
    unfolding delete
    delete-Fits fp fm key m g g' f done =
        let c = (Cache.delete backend as_view of_view key g.main_cache).1 in
        let g₁ : G = record g { main_cache = c } in
        let task = broadcast_delete key in
        let is : g' ≡ propagate fp fm task g₁ = ground arith in
        moved (expected (deletes key) m) g₁ g'
          (ap (λ (x : G). x.main_cache) is ∙ propagate-main_cache fp fm task g₁)
          (delete-Reflects backend as_view of_view coherent key m g.main_cache f)

    delete_error-Fits :
        (fp fm : Bool) (key : Bytes) (e : Error) (m : Known) (g g' : G)
        → Fits m g
        → delete backend as_view of_view peer_get getter fp fm key g ≡ (some e, g')
        → Fits m g'
    unfolding delete
    delete_error-Fits fp fm key e m g g' f done =
        let is : g' ≡ g = ground arith in moved m g g' (ap (λ (x : G). x.main_cache) is) f

    close-Fits :
        (groups : Map Bytes G) (m : Known) (g : G)
        → Fits m g
        → Fits (if g.closed then m else nothing_known) (close backend as_view of_view g groups).0
    unfolding close
    close-Fits groups m g f = closing g.closed refl
      where
        g' : G
        g' = (close backend as_view of_view g groups).0

        closing : (b : Bool) → g.closed ≡ b → Fits (if b then m else nothing_known) g'
        closing true shut = moved m g g' (ground arith) f
        closing false open' =
            moved nothing_known
              (record g { main_cache = Cache.close backend as_view of_view g.main_cache }) g'
              (ground arith) (close-Reflects backend as_view of_view coherent m g.main_cache f)

    -- After a read that was answered: from the cache, so that the view is known, or by a load.
    get_ok-Fits :
        (now : ℕ) (t : Times) (key : Bytes) (r : Result) (view : ByteView) (m : Known) (g g' : G)
        → Fits m g
        → r ≡ ok view
        → Got backend as_view of_view peer_get getter now t key g r g'
        → Fits (stored backend as_view of_view peer_get getter now t key view g.expiration m) g'
    get_ok-Fits now t key _ view m g _ f is (refused e) = absurd (ground (arith, is))
    get_ok-Fits now t key _ view m g _ f is (hit u g' found same) =
        let read = record g {
          main_cache = (Cache.get backend as_view of_view t key g.main_cache).1;
        } in
        let same_view : u ≡ view = ground (arith, is) in
        let known =
          found-known backend as_view of_view coherent t key u m g.main_cache faithful f
            (inl found) in
        let f' =
          moved m read g' same
            (get-Reflects backend as_view of_view coherent t key m g.main_cache f) in
        let none_new = stored-known now t key view g.expiration m (known ∙ ap some same_view) in
        subst (λ (x : Known). Fits x g') (sym none_new) f'
    get_ok-Fits now t key _ view m g _ f is (loaded u g₁ g₂ g' from peers same d stores) =
        let read = record g {
          main_cache = (Cache.get backend as_view of_view t key g.main_cache).1;
        } in
        let same_view : u ≡ view = ground (arith, is) in
        let f₂ =
          moved m read g₂ same
            (get-Reflects backend as_view of_view coherent t key m g.main_cache f) in
        let f' = store_view-Fits now t key u m g₂ g' f₂ stores in
        subst
          (λ (x : ByteView).
            Fits (stored backend as_view of_view peer_get getter now t key x g.expiration m) g')
          same_view
          (subst
            (λ (x : ℕ). Fits (stored backend as_view of_view peer_get getter now t key u x m) g') d
            f')
    get_ok-Fits now t key _ view m g _ f is (not_loaded e g' same) = absurd (ground (arith, is))

    get_error-Fits :
        (now : ℕ) (t : Times) (key : Bytes) (r : Result) (e : Error) (m : Known) (g g' : G)
        → Fits m g
        → r ≡ error e
        → Got backend as_view of_view peer_get getter now t key g r g'
        → Fits m g'
    get_error-Fits now t key _ e m g _ f is (refused e') = f
    get_error-Fits now t key _ e m g _ f is (hit u g' found same) = absurd (ground (arith, is))
    get_error-Fits now t key _ e m g _ f is (loaded u g₁ g₂ g' from peers same d stores) =
        absurd (ground (arith, is))
    get_error-Fits now t key _ e m g _ f is (not_loaded e' g' same) =
        moved m (record g { main_cache = (Cache.get backend as_view of_view t key g.main_cache).1 })
          g' same (get-Reflects backend as_view of_view coherent t key m g.main_cache f)

    pub Reached-Fits :
        (m : Known) (g : G) → Reached backend as_view of_view peer_get getter m g → Fits m g
    unfolding set_local_direct
    Reached-Fits m g (start opts _ new) =
        moved nothing_known (record g { main_cache = Cache.new_cache opts }) g new
          (new-Reflects backend as_view of_view coherent opts)
    Reached-Fits _ g (after_set now t fp fm key value m g₀ _ r e) =
        set-Fits now t fp fm key value m g₀ g (Reached-Fits m g₀ r) e
    Reached-Fits _ g (after_set_error now t fp fm key value x m g₀ _ r e) =
        set_error-Fits now t fp fm key value x m g₀ g (Reached-Fits m g₀ r) e
    Reached-Fits _ g (after_get now t key view m g₀ _ r e) =
        get_ok-Fits now t key (ok view) view m g₀ g (Reached-Fits m g₀ r) refl
          (get-Got backend as_view of_view peer_get getter now t key g₀ g (ok view) e)
    Reached-Fits _ g (after_get_error now t key x m g₀ _ r e) =
        get_error-Fits now t key (error x) x m g₀ g (Reached-Fits m g₀ r) refl
          (get-Got backend as_view of_view peer_get getter now t key g₀ g (error x) e)
    Reached-Fits _ g (after_delete fp fm key m g₀ _ r e) =
        delete-Fits fp fm key m g₀ g (Reached-Fits m g₀ r) e
    Reached-Fits _ g (after_delete_error fp fm key x m g₀ _ r e) =
        delete_error-Fits fp fm key x m g₀ g (Reached-Fits m g₀ r) e
    Reached-Fits _ g (after_migration now t key value m g₀ _ r e) =
        store_view-Fits now t key (record { b = value }) m g₀ g (Reached-Fits m g₀ r) e
    Reached-Fits _ _ (after_close groups m g₀ r) = close-Fits groups m g₀ (Reached-Fits m g₀ r)
    Reached-Fits _ g (after_other m g₀ _ r e) = moved m g₀ g e (Reached-Fits m g₀ r)
