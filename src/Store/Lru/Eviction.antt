-- ===== src/Store/Lru/Eviction.antt =====
-- `evict` of lru.go: what it removes, and the bound that it restores.
pub mod Evicted
use go.Common.{
  ℕ, zero, suc, ◌%◌, ◌^◌, ◌≤◌, ◌≡◌, inl, inr, refl, ap, sym, ◌∙◌, false, some, List, [], ◌∷◌, ◌++◌,
  arith, ltb, if◌then◌else◌, Bytes, bytes_eq, Bool-cases, Option-cases, length,
}
use go.Common.Map.{Map}
use go.Store.Options.{Value}
use go.Store.Lru.Elements.{Element, find_id, remove_id}
use go.Store.Lru.Entries.{IsValid, total, element_of-find, remove_element-IsValid}
use go.Store.Lru.{
  LruCache, element_of, remove_element, expire_entry, is_over, expire_loop, shrink_loop, evict,
}

module _ {V : Type 0} ⦃value : Value V⦄ where
  pub expire_entry-IsValid :
      (now : ℕ) (key : Bytes) (time : ℕ) (c : LruCache V)
      → IsValid c
      → IsValid (expire_entry now key time c)
  unfolding expire_entry
  expire_entry-IsValid now key time c v = elim (Bool-cases (ltb time now)) [
    | inr live ↦ rw live v
    | inl dead ↦ elim (Option-cases (element_of key c)) [
      | inl gone ↦ rw (dead, gone) v
      | inr (e, there) ↦
          rw (dead, there) (remove_element-IsValid e c v (element_of-find key c v there).0)
    ]
  ]

  expire_entry-max_bytes :
      (now : ℕ) (key : Bytes) (time : ℕ) (c : LruCache V)
      → (expire_entry now key time c).max_bytes ≡ c.max_bytes
  unfolding expire_entry remove_element
  expire_entry-max_bytes now key time c = ground arith

  pub expire_loop-IsValid :
      (now : ℕ) (times : Map Bytes ℕ) (c : LruCache V)
      → IsValid c
      → IsValid (expire_loop now times c) × ((expire_loop now times c).max_bytes ≡ c.max_bytes)
  unfolding expire_loop
  expire_loop-IsValid now [] c v = (v, refl)
  expire_loop-IsValid now ((key, t) ∷ rest) c v =
      let (v', same) =
        expire_loop-IsValid now rest (expire_entry now key t c)
          (expire_entry-IsValid now key t c v) in
      (v', same ∙ expire_entry-max_bytes now key t c)

  pub remove_front :
      (c : LruCache V) (front : Element V) (rest : List (Element V))
      → c.list ≡ front ∷ rest
      → (remove_element front c).list ≡ rest
  unfolding remove_element remove_id
  remove_front c front rest e = rw e (ground arith)

  pub find_front :
      (c : LruCache V) (front : Element V) (rest : List (Element V))
      → c.list ≡ front ∷ rest
      → find_id front.id c.list ≡ some front
  unfolding find_id
  find_front c front rest e = rw e (ground arith)

  remove_max : (c : LruCache V) (e : Element V) → (remove_element e c).max_bytes ≡ c.max_bytes
  unfolding remove_element
  remove_max c e = refl

  -- What the second loop leaves: a suffix of the list, within the limit.
  pub record Shrunk (c c' : LruCache V) : Type 0 where
    pub valid : IsValid c'
    pub fits : is_over c' ≡ false
    pub dropped : List (Element V)
    pub suffix : c.list ≡ dropped ++ c'.list
    pub same_limit : c'.max_bytes ≡ c.max_bytes

  Shrunk-refl : (c : LruCache V) → IsValid c → is_over c ≡ false → Shrunk c c
  Shrunk-refl c v fits = record {
    valid = v;
    fits = fits;
    dropped = [];
    suffix = refl;
    same_limit = refl;
  }

  is_over-empty : (c : LruCache V) → IsValid c → c.list ≡ [] → is_over c ≡ false
  unfolding is_over total
  is_over-empty c v e =
      let used : c.used_bytes ≡ 0 = v.used ∙ ap (λ l. total l % 2 ^ 64) e in ground arith

  pub shrink_loop-empty : (fuel : ℕ) (c : LruCache V) → c.list ≡ [] → shrink_loop fuel c ≡ c
  unfolding shrink_loop
  shrink_loop-empty zero c e = refl
  shrink_loop-empty (suc fuel) c e = ground arith

  pub shrink_loop-front :
      (fuel : ℕ) (c : LruCache V) (front : Element V) (rest : List (Element V))
      → c.list ≡ front ∷ rest
      → shrink_loop (suc fuel) c
        ≡ (if is_over c then shrink_loop fuel (remove_element front c) else c)
  unfolding shrink_loop
  shrink_loop-front fuel c front rest e = ground arith

  shrink_list :
      (fuel : ℕ) (c : LruCache V) (l : List (Element V))
      → c.list ≡ l
      → length l ≤ fuel
      → IsValid c
      → Shrunk c (shrink_loop fuel c)
  shrink_list fuel c [] e fits v =
      rw (shrink_loop-empty fuel c e) (Shrunk-refl c v (is_over-empty c v e))
  shrink_list zero c (x ∷ l) e fits v = absurd (omega arith)
  shrink_list (suc fuel) c (front ∷ rest) e fits v =
      rw (shrink_loop-front fuel c front rest e) (elim (Bool-cases (is_over c)) [
        | inr done ↦ rw done (Shrunk-refl c v done)
        | inl over ↦
            let left : (remove_element front c).list ≡ rest = remove_front c front rest e in
            let s =
              shrink_list fuel (remove_element front c) rest left (omega arith)
                (remove_element-IsValid front c v (find_front c front rest e)) in
            rw over (record {
              valid = s.valid;
              fits = s.fits;
              dropped = front ∷ s.dropped;
              suffix = e ∙ ap (◌∷◌ front) (sym left ∙ s.suffix);
              same_limit = s.same_limit ∙ remove_max c front;
            })
      ])

  -- The second loop of `evict` drops entries from the old end of the list, and keeps the limit.
  pub evict-Shrunk :
      (now : ℕ) (c : LruCache V)
      → IsValid c
      → Shrunk (expire_loop now c.expires c) (evict now c) × ((evict now c).max_bytes ≡ c.max_bytes)
  unfolding evict
  evict-Shrunk now c v =
      let c' = expire_loop now c.expires c in
      let (v', same) = expire_loop-IsValid now c.expires c v in
      let s = shrink_list (length c'.list) c' c'.list refl (omega arith) v' in
      (s, s.same_limit ∙ same)
