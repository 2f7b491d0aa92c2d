-- ===== src/Store/Lru/Methods.antt =====
-- The methods of lru.go on a well-formed cache.
use go.Common.{
  ℕ, ◌+◌, Bool, true, if◌then◌else◌, ◌≡◌, inl, inr, refl, false, none, some, arith, Bytes,
  bytes_beq_iff, bytes_eq, Bool-cases, Option-cases, is_some,
}
use go.Common.Int64
use go.Common.Map.{Once, insert, delete, delete-Once, insert-Once, lookup, lookup-delete}
use go.Store.Options.{Value, Options}
use go.Store.Lru.Elements.{Element, find_id, id_of}
use go.Store.Lru.Entries.{
  IsValid, total, element_of-find, element_of-none, remove_element-IsValid, update_entry-IsValid,
  add_entry-IsValid, get_promote-IsValid,
}
use go.Store.Lru.Eviction.{evict-Shrunk}
use go.Store.Lru.{
  LruCache, new_lru_cache, element_of, remove_element, is_over, is_expired, delete_key, get_read,
  get, set_expiry, add_entry, set_with_expiration, get_value,
}

module _ {V : Type 0} ⦃value : Value V⦄ where
  pub new-IsValid : (opts : Options) → IsValid {V = V} (new_lru_cache opts)
  unfolding new_lru_cache lookup id_of find_id total Once
  new-IsValid opts = record {
    unique = tt;
    below = λ i e f. absurd (ground arith);
    index = λ k. refl;
    used = refl;
    once = tt;
  }

  pub set_expiry-IsValid :
      (now expiration : ℕ) (key : Bytes) (c : LruCache V)
      → IsValid c
      → IsValid (set_expiry now expiration key c)
  unfolding set_expiry
  set_expiry-IsValid now expiration key c v = record {
    unique = v.unique;
    below = v.below;
    index = v.index;
    used = v.used;
    once = expiry_once (Int64.lt 0 expiration);
  }
    where
      expiry_once :
          (b : Bool)
          → Once (if b then insert key (now + expiration) c.expires else delete key c.expires)
      expiry_once true = insert-Once key (now + expiration) c.expires v.once
      expiry_once false = delete-Once key c.expires v.once

  element_of-remove_element :
      (key : Bytes) (e : Element V) (c : LruCache V)
      → e.key ≡ key
      → element_of key (remove_element e c) ≡ none
  unfolding element_of remove_element
  element_of-remove_element key e c named =
      ground (arith, lookup-delete e.key key c.items, bytes_beq_iff e.key key)

  pub element_of-set_expiry :
      (now expiration : ℕ) (key : Bytes) (c : LruCache V)
      → element_of key (set_expiry now expiration key c) ≡ element_of key c
  unfolding element_of set_expiry
  element_of-set_expiry now expiration key c = refl

  -- `Delete` keeps a well-formed cache well formed, says whether the key was there, and afterwards
  -- the key is not there.
  pub delete_key-IsValid :
      (key : Bytes) (c : LruCache V)
      → IsValid c
      → IsValid (delete_key key c).1
        × ((delete_key key c).0 ≡ is_some (element_of key c))
        × (element_of key (delete_key key c).1 ≡ none)
  unfolding delete_key
  delete_key-IsValid key c v = elim (Option-cases (element_of key c)) [
    | inl gone ↦ rw (gone, delete_key) (v, refl, gone)
    | inr (e, there) ↦
        let (f, named) = element_of-find key c v there in
        rw (there, delete_key)
          (remove_element-IsValid e c v f, refl, element_of-remove_element key e c named)
  ]

  -- `SetWithExpiration` keeps a well-formed cache well formed, and after it has stored a new key the
  -- cache is within its byte limit.
  pub set_with_expiration-IsValid :
      (now later : ℕ) (key : Bytes) (w : V) (expiration : ℕ) (c : LruCache V)
      → IsValid c
      → IsValid (set_with_expiration now later key (some w) expiration c)
        × (element_of key c ≡ none
            → is_over (set_with_expiration now later key (some w) expiration c) ≡ false)
  unfolding set_with_expiration
  set_with_expiration-IsValid now later key w expiration c v =
      let c' = set_expiry now expiration key c in
      let v' = set_expiry-IsValid now expiration key c v in
      elim (Option-cases (element_of key c')) [
        | inl gone ↦
            let (s, _) =
              evict-Shrunk later (add_entry key w c')
                (add_entry-IsValid key w c' v' (element_of-none key c' v' gone)) in
            rw (gone, set_with_expiration) (s.valid, λ _. s.fits)
        | inr (e, there) ↦
            rw (there, set_with_expiration)
              (
                update_entry-IsValid e w c' v' (element_of-find key c' v' there).0,
                λ gone. ground (arith, element_of-set_expiry now expiration key c),
              )
      ]

  -- `Get` keeps a well-formed cache well formed and returns what `GetValue` does, which is nothing
  -- for a key that is missing or has expired.
  pub get-IsValid :
      (now : ℕ) (key : Bytes) (c : LruCache V)
      → IsValid c
      → IsValid (get now key c).1 × ((get now key c).0 ≡ get_value now key c)
  unfolding get get_value get_read
  get-IsValid now key c v = elim (Option-cases (element_of key c)) [
    | inl gone ↦ rw (gone, get, get_value, get_read) (v, refl)
    | inr (e, there) ↦ elim (Bool-cases (is_expired now key c)) [
      | inl dead ↦ rw (there, dead, get, get_value, get_read) ((delete_key-IsValid key c v).0, refl)
      | inr live ↦
          rw (there, live, get, get_value, get_read)
            (get_promote-IsValid key e c v (element_of-find key c v there).0, refl)
    ]
  ]
