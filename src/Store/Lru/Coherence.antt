-- ===== src/Store/Lru/Coherence.antt =====
-- What a key reads as in lru.go, and that nothing but a `Set` of the key gives it a value.
pub mod Keeps
pub mod Newest
pub mod Stays
use go.Common.{
  ℕ, zero, suc, ◌+◌, ◌≤◌, ◌≡◌, ◌≢◌, ◌⊎◌, inl, inr, refl, ap, sym, ◌∙◌, true, false, Bool, not,
  Option, none, some, List, [], ◌∷◌, ◌++◌, arith, nat_beq, nat_beq_iff, ltb, length, Bytes,
  bytes_beq, bytes_beq_iff, bytes_eq, nat_eq, if◌then◌else◌, Bool-cases, Option-cases, is_some,
}
use go.Common.Int64
use go.Common.Map.{Map, lookup, lookup-insert, lookup-delete}
use go.Store.Options.{Value}
use go.Store.Lru.Elements.{
  Element, find_id, remove_id, set_value, move_to_back, id_of, Unique, find_id-remove_id,
  id_of-remove_id, find_id-append, id_of-append, find_id-id, id_of-find_id, find_id-id_of,
  find_id-set_value, set_value-Unique, find_id-move_to_back,
}
use go.Store.Lru.Entries.{IsValid, element_of-find, element_of-none}
use go.Store.Lru.{
  LruCache, element_of, remove_element, update_entry, add_entry, get_promote, set_expiry,
  is_expired, get_value, delete_key, expire_entry, expire_loop, is_over, shrink_loop,
}

module _ {V : Type 0} ⦃value : Value V⦄ where
  -- The value of a key with its expiry time, if it has one.
  unfoldable pub seen : Bytes → LruCache V → Option (V × Option ℕ)
  seen k c = elim (element_of k c) [ none ↦ none | some e ↦ some (e.value, lookup k c.expires) ]

  abbrev pub read_at : (now : ℕ) → Option (V × Option ℕ) → Option V
  read_at now none = none
  read_at now (some (w, none)) = some w
  read_at now (some (w, some t)) = if ltb t now then none else some w

  pub get_value-seen :
      (now : ℕ) (k : Bytes) (c : LruCache V) → get_value now k c ≡ read_at now (seen k c)
  unfolding get_value seen is_expired
  get_value-seen now k c = elim (Option-cases (element_of k c)) [
    | inl gone ↦ ground arith
    | inr (e, there) ↦ elim (Option-cases (lookup k c.expires)) [
      | inl eternal ↦ ground arith
      | inr (t, mortal) ↦ ground arith
    ]
  ]

  -- Elements of different keys have different numbers.
  other_id :
      (k : Bytes) (i : ℕ) (e : Element V) (c : LruCache V)
      → IsValid c
      → find_id e.id c.list ≡ some e
      → id_of k c.list ≡ some i
      → bytes_beq e.key k ≡ nat_beq e.id i
  other_id k i e c v f at =
      let (x, f', named) = find_id-id_of k i c.list v.unique at in
      let mine = id_of-find_id e.id c.list v.unique f in
      elim (Bool-cases (nat_beq e.id i)) [
        | inl same ↦
            let one : e.id ≡ i = ground arith in
            let f'' : find_id i c.list ≡ some e = rw (← one) f in
            let x_is_e : x ≡ e = ground arith in
            ground (arith, bytes_beq_iff e.key k, rw x_is_e at named)
        | inr apart ↦ elim (Bool-cases (bytes_beq e.key k)) [
          | inl here ↦
              let key_same : e.key ≡ k = (bytes_beq_iff e.key k).0 here in
              let mine' : id_of k c.list ≡ some e.id = rw (← key_same) mine in absurd (ground arith)
          | inr other ↦ ground arith
        ]
      ]

  pub seen-remove_element :
      (k : Bytes) (e : Element V) (c : LruCache V)
      → IsValid c
      → find_id e.id c.list ≡ some e
      → seen k (remove_element e c) ≡ (if bytes_beq e.key k then none else seen k c)
  unfolding seen element_of remove_element
  seen-remove_element k e c v f = elim (Bool-cases (bytes_beq e.key k)) [
    | inl here ↦ ground (arith, lookup-delete e.key k c.items)
    | inr other ↦ elim (Option-cases (lookup k c.items)) [
      | inl gone ↦ ground (arith, lookup-delete e.key k c.items)
      | inr (i, there) ↦
          let at : id_of k c.list ≡ some i = sym (v.index k) ∙ there in
          let same = other_id k i e c v f at in
          ground (
            arith,
            lookup-delete e.key k c.items,
            lookup-delete e.key k c.expires,
            find_id-remove_id e.id i c.list v.unique,
          )
    ]
  ]

  pub seen-get_promote :
      (k key : Bytes) (e : Element V) (c : LruCache V)
      → IsValid c
      → find_id e.id c.list ≡ some e
      → seen k (get_promote key e c) ≡ seen k c
  unfolding seen element_of get_promote
  seen-get_promote k key e c v f = elim (Option-cases (lookup k c.items)) [
    | inl gone ↦ ground arith
    | inr (i, there) ↦ ground (arith, find_id-move_to_back e.id c.list v.unique f i)
  ]

  pub seen-set_expiry :
      (now d : ℕ) (k key : Bytes) (c : LruCache V)
      → bytes_beq key k ≡ false
      → seen k (set_expiry now d key c) ≡ seen k c
  unfolding seen element_of set_expiry
  seen-set_expiry now d k key c other =
      ground (arith, lookup-insert key k (now + d) c.expires, lookup-delete key k c.expires)

  pub seen-update_entry :
      (k : Bytes) (e : Element V) (w : V) (c : LruCache V)
      → IsValid c
      → find_id e.id c.list ≡ some e
      → seen k (update_entry e w c)
        ≡ (if bytes_beq e.key k then some (w, lookup k c.expires) else seen k c)
  unfolding seen element_of update_entry
  seen-update_entry k e w c v f =
      let l = set_value e.id w c.list in
      let u = set_value-Unique e.id w c.list v.unique f in
      let e' : Element V = record e { value = w } in
      let f' : find_id e.id l ≡ some e' = ground (arith, find_id-set_value e.id e.id w c.list f) in
      elim (Option-cases (lookup k c.items)) [
        | inl gone ↦
            let absent : id_of k c.list ≡ none = sym (v.index k) ∙ gone in
            let mine = id_of-find_id e.id c.list v.unique f in
            elim (Bool-cases (bytes_beq e.key k)) [
              | inl here ↦
                  let key_same : e.key ≡ k = (bytes_beq_iff e.key k).0 here in
                  let mine' : id_of k c.list ≡ some e.id = rw (← key_same) mine in
                  absurd (ground arith)
              | inr other ↦ ground arith
            ]
        | inr (i, there) ↦
            let at : id_of k c.list ≡ some i = sym (v.index k) ∙ there in
            ground (
              arith,
              other_id k i e c v f at,
              find_id-move_to_back e.id l u f' i,
              find_id-set_value i e.id w c.list f,
            )
      ]

  pub seen-add_entry :
      (k key : Bytes) (w : V) (c : LruCache V)
      → IsValid c
      → id_of key c.list ≡ none
      → seen k (add_entry key w c)
        ≡ (if bytes_beq key k then some (w, lookup k c.expires) else seen k c)
  unfolding seen element_of add_entry
  seen-add_entry k key w c v new_key =
      let e : Element V = record { id = c.next_id; key = key; value = w } in
      let new_id : find_id c.next_id c.list ≡ none =
        elim (Option-cases (find_id c.next_id c.list)) [
          | inl n ↦ n
          | inr (x, f) ↦ absurd (omega (arith, v.below c.next_id x f))
        ] in
      elim (Bool-cases (bytes_beq key k)) [
        | inl here ↦
            ground (
              arith,
              lookup-insert key k c.next_id c.items,
              find_id-append c.next_id c.list e new_id,
            )
        | inr other ↦ elim (Option-cases (lookup k c.items)) [
          | inl gone ↦ ground (arith, lookup-insert key k c.next_id c.items)
          | inr (i, there) ↦
              let at : id_of k c.list ≡ some i = sym (v.index k) ∙ there in
              let (x, f', named) = find_id-id_of k i c.list v.unique at in
              let below = v.below i x f' in
              ground
                (arith, lookup-insert key k c.next_id c.items, find_id-append i c.list e new_id)
        ]
      ]
