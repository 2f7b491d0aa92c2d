-- ===== src/Cache/Coherence/Runs.antt =====
-- Runs of calls of cache.go against the abstract cache.
use go.ByteView.{ByteView}
use go.Common.{
  ◌≡◌, ◌⊎◌, refl, true, false, Option, none, some, List, ◌∷◌, [], Bytes, arith, Bool-cases, inl,
  inr, Option-cases,
}
use go.Cache.{Cache, new_cache, answer, get, delete, clear, close, get_raw_value}
use go.Cache.Lifecycle.{new-IsSound, get-IsSound, cold, warm, stage}
use go.Cache.Coherence.{
  Call, adds, adds_until, gets, deletes, clears, closes, Known, nothing_known, expected,
  expected_run, last_added, perform, run, Reads, Reflects-same, Reflects-empty, Reflects-stored,
  no_store, Reads-get, Reads-delete, Reads-clear,
}
use go.Cache.Coherence.Additions.{
  Follows, Reflects-Reads, stays_closed, stored, add-Reflects, add_with_expiration-Reflects,
}
use go.Store.Backend.{Backend, IsCoherent, Times}
use go.Store.Options.{Options}

module _ {V : Type 0} (backend : Backend V) (as_view : V → Option ByteView) (of_view : ByteView → V)
    (coherent : IsCoherent backend) where
  abbrev S : Type 0
  S = backend.State

  answer_store :
      (r : Option V) (c : Cache S) → (answer backend as_view of_view r c).1.store ≡ c.store
  unfolding answer
  answer_store none c = refl
  answer_store (some w) c = elim (Option-cases (as_view w)) [
    | inl other ↦ ground arith
    | inr (view, is) ↦ ground arith
  ]

  pub get-Reflects :
      (t : Times) (key : Bytes) (m : Known) (c : Cache S)
      → Follows backend as_view of_view coherent m c
      → Follows backend as_view of_view coherent m (get backend as_view of_view t key c).1
  unfolding get
  get-Reflects t key m c r =
      let c' = (get backend as_view of_view t key c).1 in
      let v' = get-IsSound backend as_view of_view t key c r.sound in
      elim (Bool-cases c.closed) [
        | inl shut ↦ stays_closed backend as_view of_view coherent m m c c' r shut (ground arith)
        | inr open' ↦ elim (stage backend as_view of_view c r.sound) [
          | cold e ↦
              let gone = no_store backend as_view of_view c r.sound e in
              Reflects-empty backend as_view of_view m c' v' (ground arith)
          | warm s e there ok ↦
              let x = backend.get t key s in
              Reflects-stored backend as_view of_view m c' x.1 v'
                (ground (arith, answer_store x.0 (record c { store = some x.1 })))
                (Reads-get backend as_view of_view coherent t key m s ok
                  (Reflects-Reads backend as_view of_view coherent m c s there r))
        ]
      ]

  pub delete-Reflects :
      (key : Bytes) (m : Known) (c : Cache S)
      → Follows backend as_view of_view coherent m c
      → Follows backend as_view of_view coherent
          (expected (deletes key) m)
          (delete backend as_view of_view key c).1
  unfolding delete
  delete-Reflects key m c r =
      let m' = expected (deletes key) m in
      let c' = (delete backend as_view of_view key c).1 in
      elim (Bool-cases c.closed) [
        | inl shut ↦ stays_closed backend as_view of_view coherent m m' c c' r shut (ground arith)
        | inr open' ↦ elim (stage backend as_view of_view c r.sound) [
          | cold e ↦
              let gone = no_store backend as_view of_view c r.sound e in
              Reflects-same backend as_view of_view {c = c} {c' = c'} (ground arith)
                (Reflects-empty backend as_view of_view m' c r.sound gone)
          | warm s e there ok ↦
              stored backend as_view of_view coherent m' c c' (backend.delete key s).1 open'
                (backend.delete-IsValid key s ok)
                (Reads-delete backend as_view of_view coherent key m s ok
                  (Reflects-Reads backend as_view of_view coherent m c s there r))
                (ground arith)
        ]
      ]

  clear-Reflects :
      (m : Known) (c : Cache S)
      → Follows backend as_view of_view coherent m c
      → Follows backend as_view of_view coherent nothing_known (clear backend as_view of_view c)
  unfolding clear
  clear-Reflects m c r =
      let c' = clear backend as_view of_view c in
      elim (Bool-cases c.closed) [
        | inl shut ↦
            stays_closed backend as_view of_view coherent m nothing_known c c' r shut (ground arith)
        | inr open' ↦ elim (stage backend as_view of_view c r.sound) [
          | cold e ↦
              let gone = no_store backend as_view of_view c r.sound e in
              Reflects-same backend as_view of_view {c = c} {c' = c'} (ground arith)
                (Reflects-empty backend as_view of_view nothing_known c r.sound gone)
          | warm s e there ok ↦
              let zero_counts = record c { hits = 0; misses = 0 } in
              stored backend as_view of_view coherent nothing_known zero_counts c' (backend.clear s)
                open' (backend.clear-IsValid s ok)
                (Reads-clear backend as_view of_view coherent nothing_known s) (ground arith)
        ]
      ]

  pub close-Reflects :
      (m : Known) (c : Cache S)
      → Follows backend as_view of_view coherent m c
      → Follows backend as_view of_view coherent nothing_known (close backend as_view of_view c)
  unfolding close
  close-Reflects m c r =
      let c' = close backend as_view of_view c in
      elim (Bool-cases c.closed) [
        | inl shut ↦
            stays_closed backend as_view of_view coherent m nothing_known c c' r shut (ground arith)
        | inr open' ↦
            let e : c' ≡ record c { store = none; initialized = false; closed = true } =
              ground arith in
            Reflects-same backend as_view of_view e (
              Reflects-empty backend as_view of_view nothing_known
                (record c { store = none; initialized = false; closed = true })
                (record { flagged = refl; dropped = λ _. refl; valid = tt }) refl)
      ]

  perform-Reflects :
      (x : Call) (m : Known) (c : Cache S)
      → Follows backend as_view of_view coherent m c
      → Follows backend as_view of_view coherent
          (expected x m)
          (perform backend as_view of_view x c)
  perform-Reflects (adds t key view) m c r =
      add-Reflects backend as_view of_view coherent t key view m c r
  perform-Reflects (adds_until t key view deadline) m c r =
      add_with_expiration-Reflects backend as_view of_view coherent t key view deadline m c r
  perform-Reflects (gets t key) m c r = get-Reflects t key m c r
  perform-Reflects (deletes key) m c r = delete-Reflects key m c r
  perform-Reflects clears m c r = clear-Reflects m c r
  perform-Reflects closes m c r = close-Reflects m c r

  run-Reflects :
      (calls : List Call) (m : Known) (c : Cache S)
      → Follows backend as_view of_view coherent m c
      → Follows backend as_view of_view coherent
          (expected_run calls m)
          (run backend as_view of_view calls c)
  unfolding run
  run-Reflects [] m c r = r
  run-Reflects (x ∷ rest) m c r =
      run-Reflects rest (expected x m) (perform backend as_view of_view x c)
        (perform-Reflects x m c r)

  -- A view found in the store was converted from a value that the store has.
  found_value :
      (t : Times) (k : Bytes) (view : ByteView) (c : Cache S) (s : S)
      → c.store ≡ some s
      → backend.IsValid s
      → (get backend as_view of_view t k c).0 ≡ (view, true)
        ⊎ (get_raw_value backend as_view of_view t k c ≡ (view, true))
      → (w : V) × (backend.get_value t k s ≡ some w) × (as_view w ≡ some view)
  unfolding get get_raw_value answer
  found_value t k view c s there ok found =
      let same = backend.get-get_value t k s ok in
      elim (Option-cases (backend.get_value t k s)) [
        | inl gone ↦ absurd (ground arith)
        | inr (w, has) ↦ elim (Option-cases (as_view w)) [
          | inl other ↦ absurd (ground arith)
          | inr (u, is) ↦ (w, has, ground arith)
        ]
      ]

  found_open :
      (t : Times) (k : Bytes) (view : ByteView) (c : Cache S)
      → c.initialized ≡ false
      → (get backend as_view of_view t k c).0 ≡ (view, true)
        ⊎ (get_raw_value backend as_view of_view t k c ≡ (view, true))
      → ⊥
  unfolding get get_raw_value
  found_open t k view c cold' found = ground arith

  last_seen :
      (t : Times) (k : Bytes) (view : ByteView) (m : Known) (s : S) (w : V)
      → ((view : ByteView) → as_view (of_view view) ≡ some view)
      → Reads backend as_view of_view m s
      → backend.get_value t k s ≡ some w
      → as_view w ≡ some view
      → m k ≡ some view
  unfolding Reads
  last_seen t k view m s w faithful r has is =
      let (u, known, from_u) = r t k w has in ground (arith, faithful u)

  pub found-known :
      (t : Times) (k : Bytes) (view : ByteView) (m : Known) (c : Cache S)
      → ((view : ByteView) → as_view (of_view view) ≡ some view)
      → Follows backend as_view of_view coherent m c
      → (get backend as_view of_view t k c).0 ≡ (view, true)
        ⊎ (get_raw_value backend as_view of_view t k c ≡ (view, true))
      → m k ≡ some view
  found-known t k view m c faithful r found = elim (stage backend as_view of_view c r.sound) [
    | cold e ↦ absurd (found_open t k view c e found)
    | warm s e there ok ↦
        let (w, has, is) = found_value t k view c s there ok found in
        last_seen t k view m s w faithful
          (Reflects-Reads backend as_view of_view coherent m c s there r) has is
  ]

  pub new-Reflects :
      (opts : Options) → Follows backend as_view of_view coherent nothing_known (new_cache opts)
  unfolding new_cache
  new-Reflects opts =
      Reflects-empty backend as_view of_view nothing_known (new_cache opts)
        (new-IsSound backend as_view of_view opts) refl

  -- Over a store that reads as it was last set, and with views that survive the conversion to a value:
  -- after any run of additions, reads, deletions, clearings and closings on a new cache, a view that
  -- `Get` or `GetRawValue` finds for a key, at any time, is the view last added for the key, and the
  -- key was neither deleted nor cleared since.
  pub get-run :
      ((view : ByteView) → as_view (of_view view) ≡ some view)
      → (calls : List Call) (opts : Options) (t : Times) (k : Bytes) (view : ByteView)
      → (get backend as_view of_view t k (run backend as_view of_view calls (new_cache opts))).0
          ≡ (view, true)
        ⊎ (get_raw_value backend as_view of_view t k
              (run backend as_view of_view calls (new_cache opts))
            ≡ (view, true))
      → last_added calls k ≡ some view
  unfolding last_added
  get-run faithful calls opts t k view found =
      found-known t k view (last_added calls) (run backend as_view of_view calls (new_cache opts))
        faithful (run-Reflects calls nothing_known (new_cache opts) (new-Reflects opts)) found
