-- ===== src/Store/Lru/Entries.antt =====
-- The invariant of lru.go, and that adding, changing and removing one entry keeps it.
use go.Common.{
  ℕ, ◌+◌, ◌%◌, ◌^◌, ◌<◌, ◌≡◌, inl, inr, ap, sym, ◌∙◌, none, some, List, [], ◌∷◌, ◌++◌, arith,
  nat_beq, Bytes, bytes_eq, All, Bool-cases, Option-cases,
}
use go.Common.Map.{Once, delete-Once, lookup, lookup-insert, lookup-delete}
use go.Store.Options.{Value}
use go.Store.Lru.Elements.{
  Element, find_id, remove_id, set_value, move_to_back, id_of, Unique, find_id-remove_id,
  id_of-remove_id, remove_id-Unique, find_id-append, id_of-append, append-Unique, find_id-id,
  find_id-id_of, id_of-set_value, find_id-set_value, set_value-Unique, move_to_back_lem,
  move_to_back-Unique, id_of-move_to_back, find_id-move_to_back,
}
use go.Store.Lru.{
  LruCache, entry_size, element_of, remove_element, update_entry, add_entry, get_promote,
}

module _ {V : Type 0} ⦃value : Value V⦄ where
  unfoldable pub total : List (Element V) → ℕ
  total [] = 0
  total (e ∷ l) = entry_size e + total l

  total-append :
      (l : List (Element V)) (e : Element V) → total (l ++ e ∷ []) ≡ total l + entry_size e
  unfolding total
  total-append [] e = omega arith
  total-append (x ∷ l) e = omega (arith, total-append l e)

  total-remove_id :
      (i : ℕ) (l : List (Element V)) {e : Element V}
      → find_id i l ≡ some e
      → total (remove_id i l) + entry_size e ≡ total l
  unfolding find_id remove_id total
  total-remove_id i [] f = ground arith
  total-remove_id i (x ∷ l) {e} f = elim (Bool-cases (nat_beq x.id i)) [
    | inl here ↦ let same : x ≡ e = ground arith in rw (here, same) (omega arith)
    | inr later ↦
        let f' : find_id i l ≡ some e = ground arith in
        rw later (omega (arith, total-remove_id i l f'))
  ]

  total-set_value :
      (i : ℕ) (v : V) (l : List (Element V)) {e : Element V}
      → find_id i l ≡ some e
      → total (set_value i v l) + value.len e.value ≡ total l + value.len v
  unfolding find_id set_value total
  total-set_value i v [] f = ground arith
  total-set_value i v (x ∷ l) {e} f = elim (Bool-cases (nat_beq x.id i)) [
    | inl here ↦ let same : x ≡ e = ground arith in rw (here, same) (omega arith)
    | inr later ↦
        let f' : find_id i l ≡ some e = ground arith in
        rw later (omega (arith, total-set_value i v l f'))
  ]

  abbrev Below : ℕ → List (Element V) → Type 0
  Below n l = All (λ e. e.id < n) l

  pub record IsValid (c : LruCache V) : Type 0 where
    pub unique : Unique c.list
    pub below : (i : ℕ) (e : Element V) → find_id i c.list ≡ some e → i < c.next_id
    pub index : (k : Bytes) → lookup k c.items ≡ id_of k c.list
    pub used : c.used_bytes ≡ total c.list % 2 ^ 64
    pub once : Once c.expires

  -- `items` and the list agree on where a key is.
  pub element_of-find :
      (key : Bytes) (c : LruCache V) {e : Element V}
      → IsValid c
      → element_of key c ≡ some e
      → (find_id e.id c.list ≡ some e) × (e.key ≡ key)
  unfolding element_of
  element_of-find key c {e} v h = elim (Option-cases (id_of key c.list)) [
    | inl missing ↦ absurd (ground (arith, v.index key))
    | inr (i, there) ↦
        let (x, f, named) = find_id-id_of key i c.list v.unique there in
        let same : x ≡ e = ground (arith, v.index key) in
        (rw (← same) (rw (find_id-id i c.list f) f), rw (← same) named)
  ]

  pub element_of-none :
      (key : Bytes) (c : LruCache V) → IsValid c → element_of key c ≡ none → id_of key c.list ≡ none
  unfolding element_of
  element_of-none key c v h = elim (Option-cases (id_of key c.list)) [
    | inl missing ↦ missing
    | inr (i, there) ↦
        let (x, f, named) = find_id-id_of key i c.list v.unique there in
        absurd (ground (arith, v.index key))
  ]

  pub remove_element-IsValid :
      (e : Element V) (c : LruCache V)
      → IsValid c
      → find_id e.id c.list ≡ some e
      → IsValid (remove_element e c)
  unfolding remove_element
  remove_element-IsValid e c v f = record {
    unique = remove_id-Unique e.id c.list v.unique f;
    below = λ i x h. v.below i x (ground (arith, find_id-remove_id e.id i c.list v.unique));
    index = λ k.
        ground (
          arith,
          lookup-delete e.key k c.items,
          v.index k,
          id_of-remove_id k e.id c.list v.unique f,
        );
    used = omega (arith, v.used, total-remove_id e.id c.list f);
    once = delete-Once e.key c.expires v.once;
  }

  total-move_to_back :
      (i : ℕ) (l : List (Element V)) {e : Element V}
      → Unique l
      → find_id i l ≡ some e
      → total (move_to_back i l) ≡ total l
  total-move_to_back i l {e} u f =
      rw (move_to_back_lem i l u f)
        (omega (arith, total-append (remove_id i l) e, total-remove_id i l f))

  pub get_promote-IsValid :
      (key : Bytes) (e : Element V) (c : LruCache V)
      → IsValid c
      → find_id e.id c.list ≡ some e
      → IsValid (get_promote key e c)
  unfolding get_promote
  get_promote-IsValid key e c v f = elim (Option-cases (lookup key c.items)) [
    | inl gone ↦ rw gone v
    | inr (i, there) ↦ rw there (record {
      unique = move_to_back-Unique e.id c.list v.unique f;
      below = λ i x h. v.below i x (sym (find_id-move_to_back e.id c.list v.unique f i) ∙ h);
      index = λ k. v.index k ∙ sym (id_of-move_to_back e.id c.list v.unique f k);
      used = v.used ∙ ap (λ (n : ℕ). n % 2 ^ 64) (sym (total-move_to_back e.id c.list v.unique f));
      once = v.once;
    })
  ]

  pub update_entry-IsValid :
      (e : Element V) (w : V) (c : LruCache V)
      → IsValid c
      → find_id e.id c.list ≡ some e
      → IsValid (update_entry e w c)
  unfolding update_entry
  update_entry-IsValid e w c v f =
      let l = set_value e.id w c.list in
      let e' = record e { value = w } in
      let u = set_value-Unique e.id w c.list v.unique f in
      let f' : find_id e.id l ≡ some e' = ground (arith, find_id-set_value e.id e.id w c.list f) in
      record {
        unique = move_to_back-Unique e.id l u f';
        below = λ i x h. elim (Bool-cases (nat_beq e.id i)) [
          | inl here ↦ let same : i ≡ e.id = ground arith in rw same (v.below e.id e f)
          | inr other ↦ v.below i x (
              ground
                (arith, find_id-move_to_back e.id l u f' i, find_id-set_value i e.id w c.list f))
        ];
        index = λ k.
            v.index k
            ∙ sym (id_of-set_value k e.id w c.list)
            ∙ sym (id_of-move_to_back e.id l u f' k);
        used =
            omega (arith, v.used, total-move_to_back e.id l u f', total-set_value e.id w c.list f);
        once = v.once;
      }

  pub add_entry-IsValid :
      (key : Bytes) (w : V) (c : LruCache V)
      → IsValid c
      → id_of key c.list ≡ none
      → IsValid (add_entry key w c)
  unfolding add_entry
  add_entry-IsValid key w c v new_key =
      let e : Element V = record { id = c.next_id; key = key; value = w } in
      let new_id : find_id c.next_id c.list ≡ none =
        elim (Option-cases (find_id c.next_id c.list)) [
          | inl n ↦ n
          | inr (x, f) ↦ absurd (omega (arith, v.below c.next_id x f))
        ] in
      record {
        unique = append-Unique c.list e v.unique new_id new_key;
        below = λ i x h. elim (Bool-cases (nat_beq c.next_id i)) [
          | inl here ↦ ground arith
          | inr other ↦
              let old = v.below i x (ground (arith, find_id-append i c.list e new_id)) in
              omega arith
        ];
        index = λ k. ground (
          arith,
          lookup-insert key k c.next_id c.items,
          v.index k,
          id_of-append k c.list e new_key,
        );
        used = omega (arith, v.used, total-append c.list e);
        once = v.once;
      }
