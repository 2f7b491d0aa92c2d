-- ===== src/Store/Lru/Coherence/Keeps.antt =====
-- The methods of lru.go, in what they leave a key to read as.
use go.Common.{
  ℕ, zero, suc, ◌≡◌, ◌⊎◌, inl, inr, refl, ◌∙◌, true, false, Option, none, some, List, [], ◌∷◌,
  arith, ltb, length, Bytes, bytes_beq, bytes_eq, if◌then◌else◌, Bool-cases, Option-cases,
}
use go.Common.Map.{Map, lookup}
use go.Store.Options.{Value}
use go.Store.Lru.Elements.{Element, find_id}
use go.Store.Lru.Entries.{
  IsValid, element_of-find, element_of-none, add_entry-IsValid, remove_element-IsValid,
}
use go.Store.Lru.Eviction.{
  expire_entry-IsValid, expire_loop-IsValid, remove_front, find_front, shrink_loop-empty,
  shrink_loop-front,
}
use go.Store.Lru.Methods.{set_expiry-IsValid}
use go.Store.Lru.{
  LruCache, element_of, remove_element, update_entry, add_entry, set_expiry, is_expired, get,
  get_read, delete_key, expire_entry, expire_loop, is_over, shrink_loop, evict, set_with_expiration,
}
use go.Store.Lru.Coherence.{
  seen, seen-remove_element, seen-get_promote, seen-set_expiry, seen-update_entry, seen-add_entry,
}

module _ {V : Type 0} ⦃value : Value V⦄ where
  -- Every key reads as before, or not at all.
  abbrev pub Loses : LruCache V → LruCache V → Type 0
  Loses c c' = (k : Bytes) → (seen k c' ≡ none) ⊎ (seen k c' ≡ seen k c)

  Loses-trans : (c c' c'' : LruCache V) → Loses c c' → Loses c' c'' → Loses c c''
  Loses-trans c c' c'' l l' k = elim (l' k) [
    | inl gone ↦ inl gone
    | inr same ↦ elim (l k) [ inl gone ↦ inl (same ∙ gone) | inr same' ↦ inr (same ∙ same') ]
  ]

  remove_element-Loses :
      (e : Element V) (c : LruCache V)
      → IsValid c
      → find_id e.id c.list ≡ some e
      → Loses c (remove_element e c)
  remove_element-Loses e c v f k = elim (Bool-cases (bytes_beq e.key k)) [
    | inl here ↦ inl (ground (arith, seen-remove_element k e c v f))
    | inr other ↦ inr (ground (arith, seen-remove_element k e c v f))
  ]

  pub delete_key-Loses : (key : Bytes) (c : LruCache V) → IsValid c → Loses c (delete_key key c).1
  unfolding delete_key
  delete_key-Loses key c v = elim (Option-cases (element_of key c)) [
    | inl gone ↦ rw (gone, delete_key) (λ k. inr refl)
    | inr (e, there) ↦
        rw (there, delete_key) (remove_element-Loses e c v (element_of-find key c v there).0)
  ]

  expire_entry-Loses :
      (now : ℕ) (key : Bytes) (time : ℕ) (c : LruCache V)
      → IsValid c
      → Loses c (expire_entry now key time c)
  unfolding expire_entry
  expire_entry-Loses now key time c v = elim (Bool-cases (ltb time now)) [
    | inr live ↦ rw live (λ k. inr refl)
    | inl dead ↦ elim (Option-cases (element_of key c)) [
      | inl gone ↦ rw (dead, gone) (λ k. inr refl)
      | inr (e, there) ↦
          rw (dead, there) (remove_element-Loses e c v (element_of-find key c v there).0)
    ]
  ]

  expire_loop-Loses :
      (now : ℕ) (times : Map Bytes ℕ) (c : LruCache V)
      → IsValid c
      → Loses c (expire_loop now times c)
  unfolding expire_loop
  expire_loop-Loses now [] c v = λ k. inr refl
  expire_loop-Loses now ((key, t) ∷ rest) c v =
      let c' = expire_entry now key t c in
      Loses-trans c c' (expire_loop now rest c') (expire_entry-Loses now key t c v)
        (expire_loop-Loses now rest c' (expire_entry-IsValid now key t c v))

  shrink_loop-Loses :
      (fuel : ℕ) (c : LruCache V) (l : List (Element V))
      → c.list ≡ l
      → IsValid c
      → Loses c (shrink_loop fuel c)
  unfolding shrink_loop
  shrink_loop-Loses zero c l e v = λ k. inr refl
  shrink_loop-Loses (suc fuel) c [] e v = rw (shrink_loop-empty (suc fuel) c e) (λ k. inr refl)
  shrink_loop-Loses (suc fuel) c (front ∷ rest) e v =
      rw (shrink_loop-front fuel c front rest e) (elim (Bool-cases (is_over c)) [
        | inr done ↦ rw done (λ k. inr refl)
        | inl over ↦
            let f = find_front c front rest e in
            let c' = remove_element front c in
            rw over (
              Loses-trans c c' (shrink_loop fuel c') (remove_element-Loses front c v f) (
                shrink_loop-Loses fuel c' rest (remove_front c front rest e)
                  (remove_element-IsValid front c v f)))
      ])

  evict-Loses : (now : ℕ) (c : LruCache V) → IsValid c → Loses c (evict now c)
  unfolding evict
  evict-Loses now c v =
      let c' = expire_loop now c.expires c in
      Loses-trans c c' (shrink_loop (length c'.list) c') (expire_loop-Loses now c.expires c v) (
        shrink_loop-Loses (length c'.list) c' c'.list refl
          (expire_loop-IsValid now c.expires c v).0)

  pub get-Loses : (now : ℕ) (key : Bytes) (c : LruCache V) → IsValid c → Loses c (get now key c).1
  unfolding get get_read
  get-Loses now key c v = elim (Option-cases (element_of key c)) [
    | inl gone ↦ rw (gone, get, get_read) (λ k. inr refl)
    | inr (e, there) ↦ elim (Bool-cases (is_expired now key c)) [
      | inl dead ↦ rw (there, dead, get, get_read) (delete_key-Loses key c v)
      | inr live ↦
          rw (there, live, get, get_read)
            (λ k. inr (seen-get_promote k key e c v (element_of-find key c v there).0))
    ]
  ]

  -- After a `Set` of the key: it reads as its value with some expiry time or not at all, and every
  -- other key as before or not at all.
  abbrev pub Stored : Bytes → V → LruCache V → LruCache V → Type 0
  Stored key w c c' =
      (k : Bytes)
      → (seen k c' ≡ none)
        ⊎ ((bytes_beq key k ≡ true) × ((t : Option ℕ) × (seen k c' ≡ some (w, t))))
        ⊎ ((bytes_beq key k ≡ false) × (seen k c' ≡ seen k c))

  Stored-of :
      (key : Bytes) (w : V) (c c' c'' : LruCache V)
      → ((k : Bytes)
          → seen k c' ≡ (if bytes_beq key k then some (w, lookup k c'.expires) else seen k c))
      → Loses c' c''
      → Stored key w c c''
  Stored-of key w c c' c'' written l k = elim (l k) [
    | inl gone ↦ inl gone
    | inr same ↦ inr (elim (Bool-cases (bytes_beq key k)) [
      | inl here ↦ inl (here, (lookup k c'.expires, ground (arith, written k)))
      | inr other ↦ inr (other, ground (arith, written k))
    ])
  ]

  pub set_with_expiration-Stored :
      (now later : ℕ) (key : Bytes) (w : V) (d : ℕ) (c : LruCache V)
      → IsValid c
      → Stored key w c (set_with_expiration now later key (some w) d c)
  unfolding set_with_expiration add_entry update_entry
  set_with_expiration-Stored now later key w d c v =
      let c' = set_expiry now d key c in
      let v' = set_expiry-IsValid now d key c v in
      elim (Option-cases (element_of key c')) [
        | inl gone ↦
            let absent = element_of-none key c' v' gone in
            let new = add_entry key w c' in
            rw (gone, set_with_expiration)
              (Stored-of key w c new (evict later new)
                (λ k. ground (
                  arith,
                  seen-add_entry k key w c' v' absent,
                  seen-set_expiry now d k key c,
                  Bool-cases (bytes_beq key k),
                ))
                (evict-Loses later new (add_entry-IsValid key w c' v' absent)))
        | inr (e, there) ↦
            let (f, named) = element_of-find key c' v' there in
            let new = update_entry e w c' in
            rw (there, set_with_expiration)
              (Stored-of key w c new new
                (λ k. ground (
                  arith,
                  seen-update_entry k e w c' v' f,
                  seen-set_expiry now d k key c,
                  Bool-cases (bytes_beq key k),
                ))
                (λ k. inr refl))
      ]
