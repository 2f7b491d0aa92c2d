-- ===== src/Store/Lru/Coherence/Stays.antt =====
-- That lru.go keeps the entry that was set last: neither loop of `evict` removes it.
use go.Common.{
  ℕ, ◌+◌, ◌≡◌, inl, inr, refl, ap, ◌∙◌, Option, none, some, arith, length, Bytes, bytes_beq_iff,
  bytes_eq, Option-cases,
}
use go.Common.Map.{lookup, lookup-insert, lookup-delete}
use go.Store.Options.{Value}
use go.Store.Lru.Elements.{Element}
use go.Store.Lru.Entries.{IsValid, element_of-find, element_of-none}
use go.Store.Lru.Methods.{set_expiry-IsValid}
use go.Store.Lru.{
  LruCache, element_of, update_entry, add_entry, set_expiry, get_value, evict, set_with_expiration,
}
use go.Store.Lru.Coherence.{seen, read_at, get_value-seen, seen-update_entry, seen-add_entry}
use go.Store.Lru.Coherence.Newest.{
  FitsAlone, expiry, NotPast, NotPast-Spared, evict-keeps, add_entry-Newest,
}

module _ {V : Type 0} ⦃value : Value V⦄ where
  lookup-set_expiry :
      (now d : ℕ) (key : Bytes) (c : LruCache V)
      → lookup key (set_expiry now d key c).expires ≡ expiry now d
  unfolding set_expiry
  lookup-set_expiry now d key c = ground (
    arith,
    lookup-insert key key (now + d) c.expires,
    lookup-delete key key c.expires,
    bytes_beq_iff key key,
  )

  read_at-live :
      (now : ℕ) (w : V) (o : Option ℕ) → NotPast now o → read_at now (some (w, o)) ≡ some w
  read_at-live now w none live = refl
  read_at-live now w (some t) live = ground arith

  reads_as :
      (t : ℕ) (key : Bytes) (w : V) (o : Option ℕ) (c : LruCache V)
      → seen key c ≡ some (w, o)
      → NotPast t o
      → get_value t key c ≡ some w
  reads_as t key w o c is live =
      get_value-seen t key c ∙ ap (read_at t) is ∙ read_at-live t w o live

  -- After `Set` or `SetWithExpiration` on a well-formed cache the key reads as its new value until
  -- its expiry time is past, whatever `evict` had to remove for it: where the cache has no limit, or
  -- the entry alone fits into it, and the expiry time is not past when `evict` reads the clock.
  pub set_with_expiration-get_value :
      (now later t : ℕ) (key : Bytes) (w : V) (d : ℕ) (c : LruCache V)
      → IsValid c
      → FitsAlone (length key + value.len w) c.max_bytes
      → NotPast later (expiry now d)
      → NotPast t (expiry now d)
      → get_value t key (set_with_expiration now later key (some w) d c) ≡ some w
  unfolding set_with_expiration set_expiry add_entry
  set_with_expiration-get_value now later t key w d c v fits early live =
      let c' = set_expiry now d key c in
      let v' = set_expiry-IsValid now d key c v in
      let times = lookup-set_expiry now d key c in
      elim (Option-cases (element_of key c')) [
        | inr (e, there) ↦
            let (f, named) = element_of-find key c' v' there in
            rw (there, set_with_expiration)
              (reads_as t key w (expiry now d) (update_entry e w c')
                (ground (arith, seen-update_entry key e w c' v' f, bytes_beq_iff e.key key)) live)
        | inl gone ↦
            let absent = element_of-none key c' v' gone in
            let e : Element V = record { id = c'.next_id; key = key; value = w } in
            let added = add_entry key w c' in
            let there : seen key added ≡ some (w, expiry now d) =
              ground (arith, seen-add_entry key key w c' v' absent, bytes_beq_iff key key) in
            let kept =
              evict-keeps later e added (add_entry-Newest key w c' v' absent)
                (NotPast-Spared later key added.expires (expiry now d) times early) fits in
            rw (gone, set_with_expiration)
              (reads_as t key w (expiry now d) (evict later added) (kept ∙ there) live)
      ]
