-- ===== src/Store/Lru/Coherence/Newest.antt =====
-- The most recent entry of lru.go under the two loops of `evict`, which do not remove it.
use go.Common.{
  ℕ, zero, suc, ◌+◌, ◌%◌, ◌^◌, ◌≤◌, ◌≡◌, ◌≢◌, ◌⊎◌, inl, inr, refl, ap, sym, ◌∙◌, false, Option,
  none, some, List, [], ◌∷◌, ◌++◌, arith, ltb, length, nat_beq, Bytes, bytes_beq, bytes_beq_iff,
  bytes_eq, if◌then◌else◌, Bool-cases, Option-cases,
}
use mathlib.Core.Path.{subst}
use go.Common.Int64
use go.Common.Map.{Map, Once, lookup}
use go.Store.Options.{Value}
use go.Store.Lru.Elements.{
  Element, find_id, id_of, remove_id, Unique, find_id-remove_id, find_id-append,
}
use go.Store.Lru.Entries.{
  IsValid, total, element_of-find, add_entry-IsValid, remove_element-IsValid,
}
use go.Store.Lru.Eviction.{expire_loop-IsValid, remove_front, find_front, shrink_loop-front}
use go.Store.Lru.{
  LruCache, entry_size, element_of, remove_element, add_entry, expire_entry, expire_loop, is_over,
  shrink_loop, evict,
}
use go.Store.Lru.Coherence.{seen, seen-remove_element}

-- The key's expiry time, if the list has one, is not over.
abbrev pub Spared : (now : ℕ) → Bytes → Map Bytes ℕ → Type 0
Spared now key times = (t : ℕ) → lookup key times ≡ some t → ltb t now ≡ false

-- There is no limit, or the one entry fits into it.
abbrev pub FitsAlone : (size : ℕ) → (max_bytes : ℕ) → Type 0
FitsAlone size max_bytes =
    (Int64.lt 0 max_bytes ≡ false) ⊎ (Int64.lt max_bytes (size % 2 ^ 64) ≡ false)

-- The expiry time that a `Set` gives.
abbrev pub expiry : (now d : ℕ) → Option ℕ
expiry now d = if Int64.lt 0 d then some (now + d) else none

-- The time is not past the expiry.
abbrev pub NotPast : ℕ → Option ℕ → Type 0
NotPast now none = Unit
NotPast now (some t) = now ≤ t

pub NotPast-Spared :
    (now : ℕ) (key : Bytes) (times : Map Bytes ℕ) (o : Option ℕ)
    → lookup key times ≡ o
    → NotPast now o
    → Spared now key times
NotPast-Spared now key times none is live t found = absurd (ground arith)
NotPast-Spared now key times (some t') is live t found = ground arith

module _ {V : Type 0} ⦃value : Value V⦄ where
  -- The element is the last of the list, which is the most recent one.
  pub record Newest (e : Element V) (c : LruCache V) : Type 0 where
    valid : IsValid c
    there : find_id e.id c.list ≡ some e
    older : List (Element V)
    last : c.list ≡ older ++ e ∷ []

  remove_id-last :
      (i : ℕ) (older : List (Element V)) (e : Element V)
      → nat_beq e.id i ≡ false
      → remove_id i (older ++ e ∷ []) ≡ remove_id i older ++ e ∷ []
  unfolding remove_id
  remove_id-last i [] e apart = ground arith
  remove_id-last i (x ∷ older) e apart = ground (arith, remove_id-last i older e apart)

  -- The removal of another key's element.
  remove_other :
      (x e : Element V) (c : LruCache V)
      → Newest e c
      → find_id x.id c.list ≡ some x
      → bytes_beq x.key e.key ≡ false
      → Newest e (remove_element x c) × (seen e.key (remove_element x c) ≡ seen e.key c)
  unfolding remove_element
  remove_other x e c n f apart =
      let ids : nat_beq x.id e.id ≡ false = elim (Bool-cases (nat_beq x.id e.id)) [
        | inr other ↦ other
        | inl same ↦
            let one : x.id ≡ e.id = ground arith in
            let f' : find_id e.id c.list ≡ some x = rw (← one) f in
            let x_is_e : x ≡ e = ground (arith, n.there) in
            let keys_same : x.key ≡ e.key = ap (λ (y : Element V). y.key) x_is_e in
            absurd (ground (arith, bytes_beq_iff x.key e.key))
      ] in
      (
        record {
          valid = remove_element-IsValid x c n.valid f;
          there = ground (arith, find_id-remove_id x.id e.id c.list n.valid.unique, n.there);
          older = remove_id x.id n.older;
          last = rw n.last (remove_id-last x.id n.older e (ground arith));
        },
        seen-remove_element e.key x c n.valid f ∙ ground arith,
      )

  expire_entry-Newest :
      (now : ℕ) (key : Bytes) (time : ℕ) (e : Element V) (c : LruCache V)
      → Newest e c
      → (bytes_beq key e.key ≡ false) ⊎ (ltb time now ≡ false)
      → Newest e (expire_entry now key time c)
        × (seen e.key (expire_entry now key time c) ≡ seen e.key c)
  unfolding expire_entry
  expire_entry-Newest now key time e c n spared = elim (Bool-cases (ltb time now)) [
    | inr live ↦ rw live (n, refl)
    | inl dead ↦ elim (Option-cases (element_of key c)) [
      | inl gone ↦ rw (dead, gone) (n, refl)
      | inr (x, there) ↦
          let (f, named) = element_of-find key c n.valid there in
          let apart : bytes_beq x.key e.key ≡ false = ground arith in
          rw (dead, there) (remove_other x e c n f apart)
    ]
  ]

  expire_loop-Newest :
      (now : ℕ) (times : Map Bytes ℕ) (e : Element V) (c : LruCache V)
      → Once times
      → Spared now e.key times
      → Newest e c
      → Newest e (expire_loop now times c) × (seen e.key (expire_loop now times c) ≡ seen e.key c)
  unfolding expire_loop Once lookup
  expire_loop-Newest now [] e c once spared n = (n, refl)
  expire_loop-Newest now ((key, time) ∷ rest) e c once spared n =
      let here : (bytes_beq key e.key ≡ false) ⊎ (ltb time now ≡ false) =
        elim (Bool-cases (bytes_beq key e.key)) [
          | inr apart ↦ inl apart
          | inl same ↦ inr (spared time (rw same refl))
        ] in
      let later : Spared now e.key rest = λ t found. elim (Bool-cases (bytes_beq key e.key)) [
        | inr apart ↦ spared t (rw apart found)
        | inl same ↦
            let one : key ≡ e.key = (bytes_beq_iff key e.key).0 same in
            let absent : lookup e.key rest ≡ none = rw (← one) once.0 in absurd (ground arith)
      ] in
      let (n', kept) = expire_entry-Newest now key time e c n here in
      let (n'', kept') =
        expire_loop-Newest now rest e (expire_entry now key time c) once.1 later n' in
      (n'', kept' ∙ kept)

  alone :
      (e : Element V) (c : LruCache V)
      → IsValid c
      → c.list ≡ e ∷ []
      → FitsAlone (entry_size e) c.max_bytes
      → is_over c ≡ false
  unfolding is_over total
  alone e c v one fits =
      let used : c.used_bytes ≡ (entry_size e + 0) % 2 ^ 64 =
        v.used ∙ ap (λ l. total l % 2 ^ 64) one in
      let used' : c.used_bytes ≡ entry_size e % 2 ^ 64 = omega (arith, used) in
      rw used' (ground arith)

  some_id : (older : List (Element V)) (e : Element V) → id_of e.key (older ++ e ∷ []) ≢ none
  unfolding id_of
  some_id [] e none' = ground (arith, bytes_beq_iff e.key e.key)
  some_id (x ∷ older) e none' = elim (Bool-cases (bytes_beq x.key e.key)) [
    | inl here ↦ ground arith
    | inr apart ↦ some_id older e (ground arith)
  ]

  front_other :
      (x : Element V) (older : List (Element V)) (e : Element V)
      → Unique (x ∷ older ++ e ∷ [])
      → bytes_beq x.key e.key ≡ false
  front_other x older e u = elim (Bool-cases (bytes_beq x.key e.key)) [
    | inr apart ↦ apart
    | inl here ↦
        let one : x.key ≡ e.key = (bytes_beq_iff x.key e.key).0 here in
        let absent : id_of e.key (older ++ e ∷ []) ≡ none =
          subst (λ k. id_of k (older ++ e ∷ []) ≡ none) one u.1 in
        absurd (some_id older e absent)
  ]

  shrink_loop-keeps :
      (fuel : ℕ) (older : List (Element V)) (e : Element V) (c : LruCache V)
      → c.list ≡ older ++ e ∷ []
      → Newest e c
      → FitsAlone (entry_size e) c.max_bytes
      → seen e.key (shrink_loop fuel c) ≡ seen e.key c
  unfolding shrink_loop remove_element
  shrink_loop-keeps zero older e c is n fits = refl
  shrink_loop-keeps (suc fuel) [] e c is n fits =
      let done = alone e c n.valid is fits in rw (shrink_loop-front fuel c e [] is) (rw done refl)
  shrink_loop-keeps (suc fuel) (x ∷ older) e c is n fits =
      rw (shrink_loop-front fuel c x (older ++ e ∷ []) is) (elim (Bool-cases (is_over c)) [
        | inr done ↦ rw done refl
        | inl over ↦
            let c' = remove_element x c in
            let (n', kept) =
              remove_other x e c n (find_front c x (older ++ e ∷ []) is)
                (front_other x older e (rw is at n.valid.unique)) in
            rw over (
              shrink_loop-keeps fuel older e c' (remove_front c x (older ++ e ∷ []) is) n' fits
              ∙ kept)
      ])

  pub evict-keeps :
      (now : ℕ) (e : Element V) (c : LruCache V)
      → Newest e c
      → Spared now e.key c.expires
      → FitsAlone (entry_size e) c.max_bytes
      → seen e.key (evict now c) ≡ seen e.key c
  unfolding evict
  evict-keeps now e c n spared fits =
      let c' = expire_loop now c.expires c in
      let (n', kept) = expire_loop-Newest now c.expires e c n.valid.once spared n in
      let (_, same) = expire_loop-IsValid now c.expires c n.valid in
      shrink_loop-keeps (length c'.list) n'.older e c' n'.last n'
        (subst (λ (m : ℕ). FitsAlone (entry_size e) m) (sym same) fits)
      ∙ kept

  pub add_entry-Newest :
      (key : Bytes) (w : V) (c : LruCache V)
      → IsValid c
      → id_of key c.list ≡ none
      → Newest (record { id = c.next_id; key = key; value = w }) (add_entry key w c)
  unfolding add_entry
  add_entry-Newest key w c v absent =
      let e : Element V = record { id = c.next_id; key = key; value = w } in
      let new_id : find_id c.next_id c.list ≡ none =
        elim (Option-cases (find_id c.next_id c.list)) [
          | inl n ↦ n
          | inr (x, f) ↦ absurd (omega (arith, v.below c.next_id x f))
        ] in
      record {
        valid = add_entry-IsValid key w c v absent;
        there = ground (arith, find_id-append c.next_id c.list e new_id);
        older = c.list;
        last = refl;
      }
