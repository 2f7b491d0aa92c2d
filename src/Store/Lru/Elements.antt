-- ===== src/Store/Lru/Elements.antt =====
-- The operations of `container/list` that lru.go uses, on elements known by a number.
use go.Common.{
  ℕ, ◌≡◌, inl, inr, refl, false, Option, none, some, List, [], ◌∷◌, ◌++◌, ◌∙◌, arith, nat_beq,
  if◌then◌else◌, Bytes, bytes_beq, bytes_beq_iff, Bool-cases,
}

-- `*list.Element` with the `lruEntry` that it holds.
pub record Element (V : Type 0) : Type 0 where
  pub id : ℕ
  pub key : Bytes
  pub value : V

module _ {V : Type 0} where
  unfoldable pub find_id : ℕ → List (Element V) → Option (Element V)
  find_id i [] = none
  find_id i (e ∷ l) = if nat_beq e.id i then some e else find_id i l

  -- `Remove`
  unfoldable pub remove_id : ℕ → List (Element V) → List (Element V)
  remove_id i [] = []
  remove_id i (e ∷ l) = if nat_beq e.id i then l else e ∷ remove_id i l

  -- `entry.value = v` through the pointer
  unfoldable pub set_value : ℕ → V → List (Element V) → List (Element V)
  set_value i v [] = []
  set_value i v (e ∷ l) = if nat_beq e.id i then record e { value = v } ∷ l else e ∷ set_value i v l

  -- `MoveToBack`, which does nothing to an element of no list
  unfoldable pub move_to_back : ℕ → List (Element V) → List (Element V)
  move_to_back i l = elim (find_id i l) [ none ↦ l | some e ↦ remove_id i l ++ e ∷ [] ]

  -- The number of the first element with the key.
  unfoldable pub id_of : Bytes → List (Element V) → Option ℕ
  id_of k [] = none
  id_of k (e ∷ l) = if bytes_beq e.key k then some e.id else id_of k l

  -- No number and no key occurs twice.
  abbrev pub Unique : List (Element V) → Type 0
  Unique [] = Unit
  Unique (e ∷ l) = (find_id e.id l ≡ none) × (id_of e.key l ≡ none) × Unique l

  pub find_id-remove_id :
      (i j : ℕ) (l : List (Element V))
      → Unique l
      → find_id j (remove_id i l) ≡ (if nat_beq i j then none else find_id j l)
  unfolding find_id remove_id
  find_id-remove_id i j [] u = ground arith
  find_id-remove_id i j (e ∷ l) u = ground (arith, find_id-remove_id i j l u.2)

  pub id_of-none_of_find :
      (k : Bytes) (i : ℕ) (l : List (Element V)) {e : Element V}
      → id_of k l ≡ none
      → find_id i l ≡ some e
      → bytes_beq e.key k ≡ false
  unfolding find_id id_of
  id_of-none_of_find k i [] n f = ground arith
  id_of-none_of_find k i (x ∷ l) {e} n f = ground (arith, id_of-none_of_find k i l {e = e})

  pub id_of-remove_id :
      (k : Bytes) (i : ℕ) (l : List (Element V)) {e : Element V}
      → Unique l
      → find_id i l ≡ some e
      → id_of k (remove_id i l) ≡ (if bytes_beq e.key k then none else id_of k l)
  unfolding find_id id_of remove_id
  id_of-remove_id k i [] u f = ground arith
  id_of-remove_id k i (x ∷ l) {e} u f = ground (
    arith,
    id_of-remove_id k i l {e = e} u.2,
    id_of-none_of_find x.key i l {e = e},
    bytes_beq_iff x.key k,
    bytes_beq_iff e.key x.key,
    bytes_beq_iff e.key k,
  )

  pub remove_id-Unique :
      (i : ℕ) (l : List (Element V)) {e : Element V}
      → Unique l
      → find_id i l ≡ some e
      → Unique (remove_id i l)
  unfolding find_id id_of remove_id
  remove_id-Unique i [] u f = tt
  remove_id-Unique i (x ∷ l) {e} u f = elim (Bool-cases (nat_beq x.id i)) [
    | inl here ↦ rw here u.2
    | inr later ↦
        let f' : find_id i l ≡ some e = ground arith in
        rw later (
          ground (arith, find_id-remove_id i x.id l u.2),
          ground (arith, id_of-remove_id x.key i l u.2 f'),
          remove_id-Unique i l u.2 f',
        )
  ]

  pub find_id-append :
      (i : ℕ) (l : List (Element V)) (e : Element V)
      → find_id e.id l ≡ none
      → find_id i (l ++ e ∷ []) ≡ (if nat_beq e.id i then some e else find_id i l)
  unfolding find_id
  find_id-append i [] e n = refl
  find_id-append i (x ∷ l) e n = ground (arith, find_id-append i l e)

  pub id_of-append :
      (k : Bytes) (l : List (Element V)) (e : Element V)
      → id_of e.key l ≡ none
      → id_of k (l ++ e ∷ []) ≡ (if bytes_beq e.key k then some e.id else id_of k l)
  unfolding id_of
  id_of-append k [] e n = refl
  id_of-append k (x ∷ l) e n = ground (
    arith,
    id_of-append k l e,
    bytes_beq_iff x.key k,
    bytes_beq_iff e.key k,
    bytes_beq_iff x.key e.key,
  )

  pub append-Unique :
      (l : List (Element V)) (e : Element V)
      → Unique l
      → find_id e.id l ≡ none
      → id_of e.key l ≡ none
      → Unique (l ++ e ∷ [])
  unfolding find_id id_of
  append-Unique [] e u f g = (refl, refl, tt)
  append-Unique (x ∷ l) e u f g = (
    ground (arith, find_id-append x.id l e),
    ground (arith, id_of-append x.key l e, bytes_beq_iff x.key e.key, bytes_beq_iff e.key x.key),
    append-Unique l e u.2 (ground arith) (ground arith),
  )

  pub find_id-id : (i : ℕ) (l : List (Element V)) {e : Element V} → find_id i l ≡ some e → e.id ≡ i
  unfolding find_id
  find_id-id i [] f = ground arith
  find_id-id i (x ∷ l) {e} f = ground (arith, find_id-id i l {e = e})

  -- The number that a key has leads to an element with the key.
  pub find_id-id_of :
      (k : Bytes) (i : ℕ) (l : List (Element V))
      → Unique l
      → id_of k l ≡ some i
      → (e : Element V) × (find_id i l ≡ some e) × (e.key ≡ k)
  unfolding find_id id_of
  find_id-id_of k i [] u h = ground arith
  find_id-id_of k i (x ∷ l) u h = elim (Bool-cases (bytes_beq x.key k)) [
    | inl here ↦ (x, ground arith, (bytes_beq_iff x.key k).0 here)
    | inr later ↦
        let (e, f, named) = find_id-id_of k i l u.2 (ground arith) in
        (e, ground (arith, find_id-id i l {e = e}), named)
  ]

  pub id_of-find_id :
      (i : ℕ) (l : List (Element V)) {e : Element V}
      → Unique l
      → find_id i l ≡ some e
      → id_of e.key l ≡ some i
  unfolding find_id id_of
  id_of-find_id i [] u f = ground arith
  id_of-find_id i (x ∷ l) {e} u f =
      ground (arith, id_of-find_id i l {e = e} u.2, bytes_beq_iff x.key e.key)

  -- Storing a value keeps every number and key.
  pub id_of-set_value :
      (k : Bytes) (i : ℕ) (v : V) (l : List (Element V)) → id_of k (set_value i v l) ≡ id_of k l
  unfolding set_value id_of
  id_of-set_value k i v [] = refl
  id_of-set_value k i v (x ∷ l) = ground (arith, id_of-set_value k i v l)

  pub find_id-set_value :
      (j i : ℕ) (v : V) (l : List (Element V)) {e : Element V}
      → find_id i l ≡ some e
      → find_id j (set_value i v l)
        ≡ (if nat_beq i j then some (record e { value = v }) else find_id j l)
  unfolding set_value find_id
  find_id-set_value j i v [] f = ground arith
  find_id-set_value j i v (x ∷ l) {e} f = ground (arith, find_id-set_value j i v l {e = e})

  pub set_value-Unique :
      (i : ℕ) (v : V) (l : List (Element V)) {e : Element V}
      → Unique l
      → find_id i l ≡ some e
      → Unique (set_value i v l)
  unfolding set_value find_id
  set_value-Unique i v [] u f = tt
  set_value-Unique i v (x ∷ l) {e} u f = elim (Bool-cases (nat_beq x.id i)) [
    | inl here ↦ rw here u
    | inr later ↦
        let f' : find_id i l ≡ some e = ground arith in
        rw later (
          ground (arith, find_id-set_value x.id i v l f'),
          id_of-set_value x.key i v l ∙ u.1,
          set_value-Unique i v l u.2 f',
        )
  ]

-- What `MoveToBack` does to an element of the list.
module _ {V : Type 0} (i : ℕ) (l : List (Element V)) {e : Element V} (u : Unique l)
    (f : find_id i l ≡ some e) where
  private_id : find_id e.id (remove_id i l) ≡ none
  private_id = ground (arith, find_id-remove_id i e.id l u, find_id-id i l f)

  private_key : id_of e.key (remove_id i l) ≡ none
  private_key = ground (arith, id_of-remove_id e.key i l u f, bytes_beq_iff e.key e.key)

  pub move_to_back_lem : move_to_back i l ≡ remove_id i l ++ e ∷ []
  unfolding move_to_back
  move_to_back_lem = rw (f, move_to_back)

  pub move_to_back-Unique : Unique (move_to_back i l)
  move_to_back-Unique =
      rw move_to_back_lem
        (append-Unique (remove_id i l) e (remove_id-Unique i l u f) private_id private_key)

  pub id_of-move_to_back : (k : Bytes) → id_of k (move_to_back i l) ≡ id_of k l
  id_of-move_to_back k = rw move_to_back_lem (
      ground (
        arith,
        id_of-append k (remove_id i l) e private_key,
        id_of-remove_id k i l u f,
        id_of-find_id i l u f,
        find_id-id i l f,
        bytes_beq_iff e.key k,
      ))

  pub find_id-move_to_back : (j : ℕ) → find_id j (move_to_back i l) ≡ find_id j l
  find_id-move_to_back j = rw move_to_back_lem (
      ground (
        arith,
        find_id-append j (remove_id i l) e private_id,
        find_id-remove_id i j l u,
        find_id-id i l f,
      ))
