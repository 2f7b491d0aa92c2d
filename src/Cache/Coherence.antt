-- ===== src/Cache/Coherence.antt =====
-- What a run of calls of cache.go leaves to read, over any store that reads as it was last set. The
-- abstract cache maps each key to the view it was last given and does not lose any.
pub mod Additions
pub mod Runs
use go.ByteView.{ByteView}
use go.Common.{
  ℕ, ◌+◌, ◌-◌, ◌%◌, ◌^◌, ◌≡◌, refl, ap, sym, ◌∙◌, true, false, Bool, if◌then◌else◌, Option, none,
  some, List, ◌∷◌, [], Bytes, arith, is_some, Bool-cases, inl, inr, Option-cases, leb, bytes_beq,
  bytes_beq_iff, not,
}
use go.Cache.{
  Cache, new_cache, empty_view, ensure_initialized, add, answer, get, add_with_expiration, delete,
  clear, close, get_raw_value,
}
use go.Cache.Lifecycle.{IsSound, new-IsSound, add-IsSound, get-IsSound, Stage, cold, warm, stage}
use go.Store.Backend.{Backend, IsCoherent, Times}
use go.Store.Options.{Options}

pub data Call : Type 0 where
  adds : Times → Bytes → ByteView → Call
  adds_until : Times → Bytes → ByteView → (deadline : ℕ) → Call
  gets : Times → Bytes → Call
  deletes : Bytes → Call
  clears : Call
  closes : Call

abbrev pub Known : Type 0
Known = Bytes → Option ByteView

abbrev pub nothing_known : Known
nothing_known k = none

abbrev pub given : Bytes → ByteView → Known → Known
given key view m k = if bytes_beq key k then some view else m k

-- An addition whose deadline is past adds nothing.
abbrev pub expected : Call → Known → Known
expected (adds t key view) m = given key view m
expected (adds_until t key view deadline) m = if leb deadline t.now then m else given key view m
expected (gets t key) m = m
expected (deletes key) m = λ k. if bytes_beq key k then none else m k
expected clears m = nothing_known
expected closes m = nothing_known

abbrev pub expected_run : List Call → Known → Known
expected_run [] m = m
expected_run (x ∷ rest) m = expected_run rest (expected x m)

-- The view last added for the key, if it was neither deleted nor cleared since.
unfoldable pub last_added : List Call → Known
last_added calls = expected_run calls nothing_known

module _ {V : Type 0} (backend : Backend V) (as_view : V → Option ByteView)
    (of_view : ByteView → V) where
  abbrev S : Type 0
  S = backend.State

  abbrev pub perform : Call → Cache S → Cache S
  perform (adds t key view) c = add backend as_view of_view t key view c
  perform (adds_until t key view deadline) c =
      add_with_expiration backend as_view of_view t key view deadline c
  perform (gets t key) c = (get backend as_view of_view t key c).1
  perform (deletes key) c = (delete backend as_view of_view key c).1
  perform clears c = clear backend as_view of_view c
  perform closes c = close backend as_view of_view c

  unfoldable pub run : List Call → Cache S → Cache S
  run [] c = c
  run (x ∷ rest) c = run rest (perform x c)

  unfoldable pub Reads : Known → S → Type 0
  Reads m s =
      (t : Times) (k : Bytes) (x : V)
      → backend.get_value t k s ≡ some x
      → (view : ByteView) × (m k ≡ some view) × (x ≡ of_view view)

  unfoldable pub StoreReads : Known → Option S → Type 0
  StoreReads m none = Unit
  StoreReads m (some s) = Reads m s

  pub record Reflects (m : Known) (c : Cache S) : Type 0 where
    pub sound : IsSound backend as_view of_view c
    pub reads : StoreReads m c.store

  pub Reflects-same : {m : Known} {c c' : Cache S} → c' ≡ c → Reflects m c → Reflects m c'
  Reflects-same e r = rw e r

  -- A cache without a store reflects anything.
  pub Reflects-empty :
      (m : Known) (c : Cache S) → IsSound backend as_view of_view c → c.store ≡ none → Reflects m c
  unfolding StoreReads
  Reflects-empty m c v gone = record { sound = v; reads = rw gone tt }

  pub Reflects-stored :
      (m : Known) (c : Cache S) (s : S)
      → IsSound backend as_view of_view c
      → c.store ≡ some s
      → Reads m s
      → Reflects m c
  unfolding StoreReads
  Reflects-stored m c s v there r = record { sound = v; reads = rw there r }

  pub no_store :
      (c : Cache S) → IsSound backend as_view of_view c → c.initialized ≡ false → c.store ≡ none
  no_store c v e = elim (Option-cases c.store) [
    | inl gone ↦ gone
    | inr (s, there) ↦ absurd (ground (arith, v.flagged))
  ]

  module _ (coherent : IsCoherent backend) where
    pub Reads-create : (m : Known) (opts : Options) → Reads m (backend.create opts)
    unfolding Reads
    Reads-create m opts t k x e = absurd (ground (arith, coherent.create-none t k opts))

    -- What a `Set` of the key to `w` makes of the store.
    unfoldable pub Writes : Bytes → V → S → S → Type 0
    Writes key w s s' =
        ((t : Times) (x : V) → backend.get_value t key s' ≡ some x → x ≡ w)
        × ((t : Times) (k : Bytes) (x : V)
            → bytes_beq key k ≡ false
            → backend.get_value t k s' ≡ some x
            → backend.get_value t k s ≡ some x)

    pub Reads-written :
        (key : Bytes) (view : ByteView) (m : Known) (s s' : S)
        → Writes key (of_view view) s s'
        → Reads m s
        → Reads (given key view m) s'
    unfolding Reads Writes
    Reads-written key view m s s' (own, other) r t k x e = elim (Bool-cases (bytes_beq key k)) [
      | inl here ↦
          let same = (bytes_beq_iff key k).0 here in (view, ground arith, own t x (rw same e))
      | inr apart ↦ let (u, known, is) = r t k x (other t k x apart e) in (u, ground arith, is)
    ]

    pub set-Writes :
        (t : Times) (key : Bytes) (w : V) (s : S)
        → backend.IsValid s
        → Writes key w s (backend.set t key w s)
    unfolding Writes
    set-Writes t key w s v = (
      λ t' x e. coherent.set-own t t' key w x s v e,
      λ t' k x apart e. coherent.set-other t t' key k w x s v apart e,
    )

    pub set_with_expiration-Writes :
        (t : Times) (key : Bytes) (w : V) (d : ℕ) (s : S)
        → backend.IsValid s
        → Writes key w s (backend.set_with_expiration t key w d s)
    unfolding Writes
    set_with_expiration-Writes t key w d s v = (
      λ t' x e. coherent.set_with_expiration-own t t' key w x d s v e,
      λ t' k x apart e. coherent.set_with_expiration-other t t' key k w x d s v apart e,
    )

    pub Reads-get :
        (t : Times) (key : Bytes) (m : Known) (s : S)
        → backend.IsValid s
        → Reads m s
        → Reads m (backend.get t key s).1
    unfolding Reads
    Reads-get t key m s v r t' k x e = r t' k x (coherent.get-keeps t t' key k x s v e)

    pub Reads-delete :
        (key : Bytes) (m : Known) (s : S)
        → backend.IsValid s
        → Reads m s
        → Reads (expected (deletes key) m) (backend.delete key s).1
    unfolding Reads
    Reads-delete key m s v r t k x e = elim (Bool-cases (bytes_beq key k)) [
      | inl here ↦
          let same = (bytes_beq_iff key k).0 here in
          let gone = backend.get_value-delete t key s v in absurd (ground (arith, rw same at gone))
      | inr apart ↦
          let (u, known, is) = r t k x (coherent.delete-keeps t key k x s v e) in
          (u, ground arith, is)
    ]

    pub Reads-clear : (m : Known) (s : S) → Reads m (backend.clear s)
    unfolding Reads
    Reads-clear m s t k x e = absurd (ground (arith, coherent.clear-none t k s))
