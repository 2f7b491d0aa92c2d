-- ===== src/Store/Lru2/Bucket/Relink.antt =====
-- How the assignments of `adjust` and `put` in lru2.go change a chain: a node is taken out, put in
-- front, or put at the end.
use go.Common.{
  ℕ, ◌≡◌, ◌≢◌, true, false, List, [], ◌∷◌, ◌++◌, arith, nat_beq, nat_beq_iff, Bool-cases, inl, inr,
}
use go.Store.Lru2.Bucket.{Side, Links}
use go.Store.Lru2.Bucket.Chain.{
  has, Apart, erase, has-append, Seg, Seg-frame, Seg-before, Seg-after, Seg-last,
}

module _ (t f : Side) (d e : Links) (i : ℕ) where
  -- The neighbours of node `i` are linked to each other; every other link is as before.
  pub record Unlinked : Type 0 where
    pub on : e (d i f) t ≡ d i t
    pub back : e (d i t) f ≡ d i f
    pub on_else : (j : ℕ) → j ≢ d i f → e j t ≡ d j t
    pub back_else : (j : ℕ) → j ≢ d i t → e j f ≡ d j f

  -- Node `i` stands between the sentinel and what was first.
  pub record Fronted : Type 0 where
    pub first : e 0 t ≡ i
    pub own_back : e i f ≡ 0
    pub own_on : e i t ≡ d 0 t
    pub second : e (d 0 t) f ≡ i
    pub on_else : (j : ℕ) → j ≢ 0 → j ≢ i → e j t ≡ d j t
    pub back_else : (j : ℕ) → j ≢ i → j ≢ d 0 t → e j f ≡ d j f

  pub unlink-Seg :
      Unlinked
      → (a : ℕ) (xs : List ℕ) (b : ℕ) → Seg t f d a xs b
      → has xs i ≡ true
      → has xs a ≡ false
      → has xs b ≡ false
      → Apart xs
      → Seg t f e a (erase i xs) b
  unlink-Seg u a [] b s m ha hb ap' = absurd (ground arith)
  unlink-Seg u a (x ∷ []) b s m ha hb ap' =
      let same : x ≡ i = ground (arith, nat_beq_iff x i) in
      let test : nat_beq x i ≡ true = ground (arith, nat_beq_iff x i) in
      rw test (ground (arith, u.on), ground (arith, u.back))
  unlink-Seg u a (x ∷ y ∷ ys) b s m ha hb ap' = elim (Bool-cases (nat_beq x i)) [
    | inl test ↦
        let same : x ≡ i = ground (arith, nat_beq_iff x i) in
        let from : d i f ≡ a = ground arith in
        let to : d i t ≡ y = ground arith in
        rw test (
          ground (arith, u.on),
          ground (arith, u.back),
          Seg-frame t f d e y ys b
              (λ j h. u.on_else j (λ eq. ground (arith, nat_beq_iff y j, nat_beq_iff y a)))
              (λ j h.
                u.back_else j (λ eq.
                  ground (arith, has-append ys (b ∷ []) j, nat_beq_iff y b, nat_beq_iff b j)))
              s.2.2,
        )
    | inr other ↦
        let m' : has (y ∷ ys) i ≡ true = ground arith in
        let before = Seg-before t f d x (y ∷ ys) b i s.2 m' in
        let after = Seg-after t f d x (y ∷ ys) b i s.2 m' in
        rw other (
          ground
              (arith, u.on_else a (λ eq. ground (arith, nat_beq_iff x a, nat_beq_iff x (d i f)))),
          ground (
            arith,
            u.back_else x (λ eq.
                ground (arith, has-append (y ∷ ys) (b ∷ []) x, nat_beq_iff b x, nat_beq_iff x b)),
          ),
          unlink-Seg u x (y ∷ ys) b s.2 m' ap'.0 (ground arith) ap'.1,
        )
  ]

  pub front-Seg :
      Fronted
      → (xs : List ℕ) → Seg t f d 0 xs 0
      → i ≢ 0
      → has xs i ≡ false
      → has xs 0 ≡ false
      → Apart xs
      → Seg t f e 0 (i ∷ xs) 0
  front-Seg w [] s nz fresh pos ap' =
      (w.first, w.own_back, (ground (arith, w.own_on), ground (arith, w.second)))
  front-Seg w (x ∷ xs) s nz fresh pos ap' = (
    w.first,
    w.own_back,
    (
      ground (arith, w.own_on),
      ground (arith, w.second),
      Seg-frame t f d e x xs 0
          (λ j h.
            w.on_else j (λ eq. ground (arith, nat_beq_iff x j))
              (λ eq. ground (arith, nat_beq_iff x j)))
          (λ j h.
            w.back_else j (λ eq. ground (arith, has-append xs (0 ∷ []) j, nat_beq_iff 0 j))
              (λ eq. ground (arith, has-append xs (0 ∷ []) j, nat_beq_iff 0 j, nat_beq_iff x 0)))
          s.2,
    ),
  )

-- The same seen from the other end: node `i` comes behind what was last.
module _ (t f : Side) (d e : Links) (i : ℕ) (w : Fronted f t d e i) where
  pub end-Seg :
      (a : ℕ) (xs : List ℕ)
      → Seg t f d a xs 0
      → i ≢ 0
      → a ≢ i
      → has xs i ≡ false
      → has xs 0 ≡ false
      → has xs a ≡ false
      → Apart xs
      → Seg t f e a (xs ++ i ∷ []) 0
  end-Seg a [] s nz ai fresh pos ha ap' =
      (ground (arith, w.second), ground (arith, w.own_on), (w.own_back, w.first))
  end-Seg a (x ∷ xs) s nz ai fresh pos ha ap' =
      let last = Seg-last t f d x xs 0 s.2 in
      let keep : e x f ≡ d x f =
        w.on_else x (λ eq. ground (arith, nat_beq_iff x 0))
          (λ eq. ground (arith, nat_beq_iff x i)) in
      (
        ground (
          arith,
          w.back_else a ai (λ eq. ground (arith, nat_beq_iff x a, nat_beq_iff x (d 0 f))),
        ),
        ground arith,
        end-Seg x xs s.2 nz (λ eq. ground (arith, nat_beq_iff x i)) (ground arith) (ground arith)
            ap'.0 ap'.1,
      )
