-- ===== src/Store/Lru/Eviction/Evicted.antt =====
-- `evict` of lru.go against a description without loops: which entries stay.
use go.Common.{
  ℕ, zero, suc, ◌%◌, ◌^◌, ◌≤◌, ◌≡◌, inl, inr, refl, ap, sym, ◌∙◌, Bool, true, false, ◌&&◌, none,
  some, List, [], ◌∷◌, ◌++◌, arith, ltb, leb, if◌then◌else◌, Bytes, bytes_eq, bytes_beq,
  bytes_beq_iff, Bool-cases, Option-cases, length, nat_beq,
}
use mathlib.Core.Path.{subst}
use go.Common.Int64
use go.Common.Map.{Map, lookup, Once}
use go.Store.Options.{Value}
use go.Store.Lru.Elements.{Element, remove_id, id_of, Unique, find_id-id_of, find_id-id}
use go.Store.Lru.Entries.{IsValid, total, remove_element-IsValid}
use go.Store.Lru.{
  LruCache, element_of, remove_element, expire_entry, is_over, expire_loop, shrink_loop, evict,
}
use go.Store.Lru.Eviction.{
  expire_entry-IsValid, expire_loop-IsValid, shrink_loop-empty, shrink_loop-front, remove_front,
  find_front, evict-Shrunk,
}

-- A key lives until its time, if it has one.
abbrev pub is_live : (now : ℕ) → Map Bytes ℕ → Bytes → Bool
is_live now times key = elim (lookup key times) [ none ↦ true | some t ↦ leb now t ]

-- More bytes than a limit that is set allows.
abbrev pub exceeds : (max_bytes used : ℕ) → Bool
exceeds max_bytes used = Int64.lt 0 max_bytes && Int64.lt max_bytes used

module _ {V : Type 0} where
  abbrev pub live : (now : ℕ) → Map Bytes ℕ → List (Element V) → List (Element V)
  live now times [] = []
  live now times (e ∷ l) =
      let rest = live now times l in if is_live now times e.key then e ∷ rest else rest

  live-all : (now : ℕ) (l : List (Element V)) → live now [] l ≡ l
  unfolding lookup
  live-all now [] = refl
  live-all now (e ∷ l) = ap (◌∷◌ e) (live-all now l)

  module _ (now time : ℕ) (key : Bytes) (rest : Map Bytes ℕ) where
    live-late :
        (l : List (Element V))
        → ltb time now ≡ false
        → lookup key rest ≡ none
        → live now ((key, time) ∷ rest) l ≡ live now rest l
    unfolding lookup
    live-late [] late once = refl
    live-late (e ∷ l) late once = ground (arith, live-late l late once, bytes_beq_iff key e.key)

    live-missing :
        (l : List (Element V))
        → id_of key l ≡ none
        → live now ((key, time) ∷ rest) l ≡ live now rest l
    unfolding lookup id_of
    live-missing [] gone = refl
    live-missing (e ∷ l) gone =
        ground (arith, live-missing l, bytes_beq_iff key e.key, bytes_beq_iff e.key key)

    live-removed :
        (i : ℕ) (l : List (Element V))
        → ltb time now ≡ true
        → Unique l
        → id_of key l ≡ some i
        → live now ((key, time) ∷ rest) l ≡ live now rest (remove_id i l)
    unfolding lookup id_of remove_id
    live-removed i [] dead u there = absurd (ground arith)
    live-removed i (e ∷ l) dead u there = elim (Bool-cases (bytes_beq e.key key)) [
      | inl here ↦
          let same : e.key ≡ key = (bytes_beq_iff e.key key).0 here in
          let gone : id_of key l ≡ none = rw (← same) u.1 in
          ground (arith, live-missing l gone, bytes_beq_iff key e.key)
      | inr other ↦
          let later : id_of key l ≡ some i = ground arith in
          let (x, found, named) = find_id-id_of key i l u.2 later in
          let apart : nat_beq e.id i ≡ false = ground (arith, u.0, found) in
          ground (
            arith,
            live-removed i l dead u.2 later,
            bytes_beq_iff key e.key,
            bytes_beq_iff e.key key,
          )
    ]

module _ {V : Type 0} ⦃value : Value V⦄ where
  expire_entry-live :
      (now : ℕ) (key : Bytes) (time : ℕ) (rest : Map Bytes ℕ) (c : LruCache V)
      → IsValid c
      → lookup key rest ≡ none
      → live now rest (expire_entry now key time c).list ≡ live now ((key, time) ∷ rest) c.list
  unfolding expire_entry element_of remove_element
  expire_entry-live now key time rest c v once = elim (Bool-cases (ltb time now)) [
    | inr late ↦ rw late (sym (live-late now time key rest c.list late once))
    | inl dead ↦ elim (Option-cases (id_of key c.list)) [
      | inl gone ↦
          let unlisted : lookup key c.items ≡ none = v.index key ∙ gone in
          rw (dead, unlisted) (sym (live-missing now time key rest c.list gone))
      | inr (i, there) ↦
          let listed : lookup key c.items ≡ some i = v.index key ∙ there in
          let (x, found, named) = find_id-id_of key i c.list v.unique there in
          let same : x.id ≡ i = find_id-id i c.list found in
          rw (dead, listed, found, same)
            (sym (live-removed now time key rest i c.list dead v.unique there))
    ]
  ]

  expire_loop-live :
      (now : ℕ) (times : Map Bytes ℕ) (c : LruCache V)
      → Once times
      → IsValid c
      → (expire_loop now times c).list ≡ live now times c.list
  unfolding expire_loop Once
  expire_loop-live now [] c once v = sym (live-all now c.list)
  expire_loop-live now ((key, time) ∷ rest) c once v =
      expire_loop-live now rest (expire_entry now key time c) once.1
        (expire_entry-IsValid now key time c v)
      ∙ expire_entry-live now key time rest c v once.0

  -- Before each of these entries was removed from the front, what was left exceeded the limit.
  abbrev pub AllOver : (max_bytes : ℕ) → (kept dropped : List (Element V)) → Type 0
  AllOver max_bytes kept [] = Unit
  AllOver max_bytes kept (e ∷ dropped) =
      (exceeds max_bytes (total (e ∷ dropped ++ kept) % 2 ^ 64) ≡ true)
      × AllOver max_bytes kept dropped

  abbrev Shortened : (c c' : LruCache V) → Type 0
  Shortened c c' =
      (dropped : List (Element V)) × (c.list ≡ dropped ++ c'.list)
      × AllOver c.max_bytes c'.list dropped

  shrink_loop-Shortened :
      (fuel : ℕ) (c : LruCache V) (l : List (Element V))
      → c.list ≡ l
      → length l ≤ fuel
      → IsValid c
      → Shortened c (shrink_loop fuel c)
  unfolding is_over remove_element
  shrink_loop-Shortened fuel c [] e fits v = rw (shrink_loop-empty fuel c e) ([], refl, tt)
  shrink_loop-Shortened zero c (x ∷ l) e fits v = absurd (omega arith)
  shrink_loop-Shortened (suc fuel) c (front ∷ rest) e fits v =
      rw (shrink_loop-front fuel c front rest e) (elim (Bool-cases (is_over c)) [
        | inr done ↦ rw done ([], refl, tt)
        | inl over ↦
            let left : (remove_element front c).list ≡ rest = remove_front c front rest e in
            let (dropped, suffix, all) =
              shrink_loop-Shortened fuel (remove_element front c) rest left (omega arith)
                (remove_element-IsValid front c v (find_front c front rest e)) in
            let whole = e ∙ ap (◌∷◌ front) (sym left ∙ suffix) in
            let used = v.used ∙ ap (λ l. total l % 2 ^ 64) whole in
            rw over (front ∷ dropped, whole, (rw (← used) over, all))
      ])

  -- On a well-formed cache `evict` keeps it well formed and its limit as it was. Of the entries whose
  -- time has not passed it drops some from the old end of the list and keeps the others in their
  -- order; the bytes of those kept do not exceed the limit, and no entry was dropped before they did.
  pub evict-Evicted :
      (now : ℕ) (c : LruCache V)
      → IsValid c
      → IsValid (evict now c)
        × ((evict now c).max_bytes ≡ c.max_bytes)
        × (exceeds c.max_bytes (total (evict now c).list % 2 ^ 64) ≡ false)
        × ((dropped : List (Element V)) × (live now c.expires c.list
              ≡ dropped ++ (evict now c).list)
            × AllOver c.max_bytes (evict now c).list dropped)
  unfolding evict is_over
  evict-Evicted now c v =
      let c' = expire_loop now c.expires c in
      let (v', same) = expire_loop-IsValid now c.expires c v in
      let (s, limit) = evict-Shrunk now c v in
      let (dropped, suffix, all) =
        shrink_loop-Shortened (length c'.list) c' c'.list refl (omega arith) v' in
      (
        s.valid,
        limit,
        subst (λ m. exceeds m (total (evict now c).list % 2 ^ 64) ≡ false) limit
            (subst (λ u. exceeds (evict now c).max_bytes u ≡ false) s.valid.used s.fits),
        (
          dropped,
          sym (expire_loop-live now c.expires c v.once v) ∙ suffix,
          subst (λ m. AllOver m (evict now c).list dropped) same all,
        ),
      )
