-- ===== src/Store/Lru/Service/Coherent.antt =====
-- lru.go reads a key as it was last set.
use go.Common.{
  ℕ, ◌≡◌, inl, inr, refl, false, Option, none, some, Bytes, arith, bytes_beq, bytes_beq_iff,
}
use go.Common.Map.{lookup}
use go.Store.Options.{Value, Options}
use go.Store.Backend.{IsCoherent}
use go.Store.Lru.{
  LruCache, new_lru_cache, element_of, get, set, set_with_expiration, clear, get_value,
}
use go.Store.Lru.Entries.{IsValid}
use go.Store.Lru.Service.{lru_backend, get_value-of_none}
use go.Store.Lru.Coherence.{read_at, get_value-seen}
use go.Store.Lru.Coherence.Keeps.{
  Loses, Stored, get-Loses, delete_key-Loses, set_with_expiration-Stored,
}

module _ {V : Type 0} ⦃value : Value V⦄ where
  read_at-own : (now : ℕ) (w x : V) (t : Option ℕ) → read_at now (some (w, t)) ≡ some x → x ≡ w
  read_at-own now w x none e = ground arith
  read_at-own now w x (some t) e = ground arith

  kept :
      (now : ℕ) (k : Bytes) (x : V) (c c' : LruCache V)
      → Loses c c'
      → get_value now k c' ≡ some x
      → get_value now k c ≡ some x
  kept now k x c c' l e =
      let r = get_value-seen now k c in
      let r' = get_value-seen now k c' in
      elim (l k) [ inl gone ↦ absurd (ground arith) | inr same ↦ ground arith ]

  Stored-own :
      (now : ℕ) (key : Bytes) (w x : V) (c c' : LruCache V)
      → Stored key w c c'
      → get_value now key c' ≡ some x
      → x ≡ w
  Stored-own now key w x c c' l e =
      let r' = get_value-seen now key c' in
      let same = (bytes_beq_iff key key).1 refl in
      elim (l key) [
        | inl gone ↦ absurd (ground arith)
        | inr (inl (_, (t, there))) ↦ read_at-own now w x t (ground arith)
        | inr (inr (apart, _)) ↦ absurd (ground arith)
      ]

  Stored-other :
      (now : ℕ) (key k : Bytes) (w x : V) (c c' : LruCache V)
      → Stored key w c c'
      → bytes_beq key k ≡ false
      → get_value now k c' ≡ some x
      → get_value now k c ≡ some x
  Stored-other now key k w x c c' l apart e =
      let r = get_value-seen now k c in
      let r' = get_value-seen now k c' in
      elim (l k) [
        | inl gone ↦ absurd (ground arith)
        | inr (inl (here, _)) ↦ absurd (ground arith)
        | inr (inr (_, same)) ↦ ground arith
      ]

  new-none : (k : Bytes) (opts : Options) → element_of k (new_lru_cache {V = V} opts) ≡ none
  unfolding element_of new_lru_cache lookup
  new-none k opts = refl

  clear-none : (k : Bytes) (c : LruCache V) → element_of k (clear c) ≡ none
  unfolding element_of clear lookup
  clear-none k c = refl

  set-Stored :
      (now later : ℕ) (key : Bytes) (w : V) (c : LruCache V)
      → IsValid c
      → Stored key w c (set now later key (some w) c)
  unfolding set
  set-Stored now later key w c v = set_with_expiration-Stored now later key w 0 c v

  pub lru_backend-IsCoherent : IsCoherent (lru_backend {V = V})
  lru_backend-IsCoherent = record {
    create-none = λ t k opts. get_value-of_none t.now k (new_lru_cache opts) (new-none k opts);
    clear-none = λ t k c. get_value-of_none t.now k (clear c) (clear-none k c);
    get-keeps = λ t t' key k x c v. kept t'.now k x c (get t.now key c).1 (get-Loses t.now key c v);
    delete-keeps =
        λ t' key k x c v. kept t'.now k x c (lru_backend.delete key c).1 (delete_key-Loses key c v);
    set-own = λ t t' key w x c v.
        Stored-own t'.now key w x c (set t.now t.later key (some w) c)
          (set-Stored t.now t.later key w c v);
    set-other = λ t t' key k w x c v.
        Stored-other t'.now key k w x c (set t.now t.later key (some w) c)
          (set-Stored t.now t.later key w c v);
    set_with_expiration-own = λ t t' key w x d c v.
        Stored-own t'.now key w x c (set_with_expiration t.now t.later key (some w) d c)
          (set_with_expiration-Stored t.now t.later key w d c v);
    set_with_expiration-other = λ t t' key k w x d c v.
        Stored-other t'.now key k w x c (set_with_expiration t.now t.later key (some w) d c)
          (set_with_expiration-Stored t.now t.later key w d c v);
  }
