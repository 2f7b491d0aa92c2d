-- ===== src/Group/Coherence/Reading.antt =====
-- What a read of a group of group.go answers: what the requests stored last, or what was loaded.
use go.Common.{
  ℕ, ◌≡◌, refl, sym, ◌∙◌, ap, true, ◌⊎◌, inl, inr, Option, none, some, Bytes, bytes_eq, arith,
}
use go.ByteView.{ByteView}
use go.Store.Backend.{Backend, IsCoherent, Times}
use go.Cache
use go.Cache.Coherence.{Known}
use go.Cache.Coherence.Runs.{found-known}
use go.Group.{Error, Result, error, ok, Group, note_key, propagate, set_task, broadcast_delete}
use go.Group.Coherence.{Got, refused, hit, loaded, not_loaded, get-Got}
use go.Group.Loading.{first_answer, or_else, asked, load_data_lem}
use go.Group.Methods.{load_data, get, get_local_key_value}
use go.Group.Coherence.Reached.{Reached}
use go.Group.Coherence.Steps.{Reached-Fits}

module _ {V P : Type 0} (backend : Backend V) (as_view : V → Option ByteView)
    (of_view : ByteView → V) (peer_get : P → Bytes → Option Bytes)
    (getter : Bytes → Option Bytes) where
  abbrev G : Type 0
  G = Group backend.State P

  -- The value of a load, where it came from.
  abbrev pub WasLoaded : Bytes → ByteView → G → Type 0
  WasLoaded key view g =
      or_else (first_answer (asked backend as_view of_view peer_get getter key g.peers))
        (getter key)
      ≡ some view.b

  load_data-WasLoaded :
      (key : Bytes) (view : ByteView) (g g₁ : G)
      → (load_data backend as_view of_view peer_get getter key g₁).0 ≡ ok view
      → g₁.peers ≡ g.peers
      → WasLoaded key view g
  load_data-WasLoaded key view g g₁ e peers =
      let (r, _, _) = load_data_lem backend as_view of_view peer_get getter key g₁ in
      let answer =
        or_else (first_answer (asked backend as_view of_view peer_get getter key g₁.peers))
          (getter key) in
      rw (← peers) (loaded_bytes answer (sym r ∙ e))
    where
      loaded_bytes :
          (answer : Option Bytes)
          → go.Group.Loading.to_result answer ≡ ok view
          → answer ≡ some view.b
      loaded_bytes none e = absurd (ground arith)
      loaded_bytes (some bytes) e = ground arith

  module _ (coherent : IsCoherent backend)
      (faithful : (view : ByteView) → as_view (of_view view) ≡ some view) where
    -- Over a store that reads as it was last set, and with views that survive the conversion to a
    -- value, in a group that has served any requests since it was made: a `Get` that answers with a
    -- view answers with the one that the requests stored last for the key, and the key was not
    -- deleted nor the group closed since; or with the first value that the peers and the data source
    -- give now.
    pub get-Reached :
        (now : ℕ) (t : Times) (key : Bytes) (view : ByteView) (m : Known) (g g' : G)
        → Reached backend as_view of_view peer_get getter m g
        → get backend as_view of_view peer_get getter now t key g ≡ some (ok view, g')
        → (m key ≡ some view) ⊎ WasLoaded key view g
    get-Reached now t key view m g g' r e =
        cases (ok view) g' refl
          (get-Got backend as_view of_view peer_get getter now t key g g' (ok view) e)
      where
        cases :
            (x : Result) (g' : G)
            → x ≡ ok view
            → Got backend as_view of_view peer_get getter now t key g x g'
            → (m key ≡ some view) ⊎ WasLoaded key view g
        cases _ _ is (refused x) = absurd (ground (arith, is))
        cases _ _ is (hit u g' found same) =
            let same_view : u ≡ view = ground (arith, is) in
            inl (
              found-known backend as_view of_view coherent t key u m g.main_cache faithful
                (Reached-Fits backend as_view of_view peer_get getter coherent faithful m g r)
                (inl found)
              ∙ ap some same_view)
        cases _ _ is (loaded u g₁ g₂ g' from peers same d stores) =
            let same_view : u ≡ view = ground (arith, is) in
            inr (load_data-WasLoaded key view g g₁ (from ∙ ap ok same_view) peers)
        cases _ _ is (not_loaded x g' same) = absurd (ground (arith, is))

    -- Over a store that reads as it was last set, and with views that survive the conversion to a
    -- value, in a group that has served any requests since it was made: where `GetLocalKeyValue`,
    -- which the migration of keys reads, gives bytes, they are those of the view that the requests
    -- stored last for the key, and the key was not deleted nor the group closed since.
    pub get_local_key_value-Reached :
        (t : Times) (key bytes : Bytes) (m : Known) (g : G)
        → Reached backend as_view of_view peer_get getter m g
        → get_local_key_value backend as_view of_view peer_get getter t key g ≡ some bytes
        → m key ≡ some (record { b = bytes })
    unfolding get_local_key_value
    get_local_key_value-Reached t key bytes m g r e =
        let raw = Cache.get_raw_value backend as_view of_view t key g.main_cache in
        let found : raw.1 ≡ true = ground arith in
        let is : raw ≡ (record { b = bytes }, true) = ground arith in
        found-known backend as_view of_view coherent t key (record { b = bytes }) m g.main_cache
          faithful (Reached-Fits backend as_view of_view peer_get getter coherent faithful m g r)
          (inr is)
