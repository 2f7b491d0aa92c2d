-- ===== src/Store/Lru2/Bucket/Chain.antt =====
-- Doubly linked chains in the link array of a bucket of lru2.go, read in either direction: `t` is the
-- side that leads on, `f` the side that leads back. Node 0 is the sentinel of both ends.
use go.Common.{
  ℕ, ◌≡◌, ◌≢◌, refl, true, false, ◌||◌, List, [], ◌∷◌, ◌++◌, arith, nat_beq, nat_beq_iff, nat_eq,
  contains, Bool-cases, inl, inr, if◌then◌else◌, ap, suc, length,
}
use go.Store.Lru2.Bucket.{Side, Links}

abbrev pub has : List ℕ → ℕ → go.Common.Bool
has [] i = false
has (x ∷ xs) i = nat_beq x i || has xs i

-- No node twice.
abbrev pub Apart : List ℕ → Type 0
Apart [] = Unit
Apart (x ∷ xs) = (has xs x ≡ false) × Apart xs

abbrev pub erase : ℕ → List ℕ → List ℕ
erase i [] = []
erase i (x ∷ xs) = if nat_beq x i then xs else x ∷ erase i xs

abbrev pub drop_last {ℓ} : {A : Type ℓ} → List A → List A
drop_last [] = []
drop_last (x ∷ []) = []
drop_last (x ∷ y ∷ xs) = x ∷ drop_last (y ∷ xs)

pub has-erase : (i j : ℕ) (xs : List ℕ) → has xs j ≡ false → has (erase i xs) j ≡ false
has-erase i j [] h = refl
has-erase i j (x ∷ xs) h = ground (arith, has-erase i j xs)

pub has-erase_self : (i : ℕ) (xs : List ℕ) → Apart xs → has (erase i xs) i ≡ false
has-erase_self i [] a = refl
has-erase_self i (x ∷ xs) a = ground (arith, nat_beq_iff x i, has-erase_self i xs a.1)

pub has-erase_ne : (i j : ℕ) (xs : List ℕ) → j ≢ i → has (erase i xs) j ≡ has xs j
has-erase_ne i j [] h = refl
has-erase_ne i j (x ∷ xs) h =
    ground (arith, nat_beq_iff x i, nat_beq_iff x j, has-erase_ne i j xs h)

pub erase-Apart : (i : ℕ) (xs : List ℕ) → Apart xs → Apart (erase i xs)
erase-Apart i [] a = tt
erase-Apart i (x ∷ xs) a = elim (Bool-cases (nat_beq x i)) [
  | inl same ↦ rw same a.1
  | inr other ↦ rw other (has-erase i x xs a.0, erase-Apart i xs a.1)
]

pub has-append : (xs ys : List ℕ) (i : ℕ) → has (xs ++ ys) i ≡ (has xs i || has ys i)
has-append [] ys i = refl
has-append (x ∷ xs) ys i = ground (arith, has-append xs ys i)

pub append-Apart : (xs : List ℕ) (i : ℕ) → Apart xs → has xs i ≡ false → Apart (xs ++ i ∷ [])
append-Apart [] i a h = (refl, tt)
append-Apart (x ∷ xs) i a h = (
  ground (arith, has-append xs (i ∷ []) x, nat_beq_iff i x, nat_beq_iff x i),
  append-Apart xs i a.1 (ground arith),
)

module _ (t f : Side) where
  -- From node `a` over `xs` to node `b`, with the links back.
  abbrev pub Seg : Links → ℕ → List ℕ → ℕ → Type 0
  Seg d a [] b = (d a t ≡ b) × (d b f ≡ a)
  Seg d a (x ∷ xs) b = (d a t ≡ x) × (d x f ≡ a) × Seg d x xs b

  pub Seg-frame :
      (d e : Links) (a : ℕ) (xs : List ℕ) (b : ℕ)
      → ((j : ℕ) → has (a ∷ xs) j ≡ true → e j t ≡ d j t)
      → ((j : ℕ) → has (xs ++ b ∷ []) j ≡ true → e j f ≡ d j f)
      → Seg d a xs b
      → Seg e a xs b
  Seg-frame d e a [] b on back s =
      (ground (arith, on a, nat_beq_iff a a), ground (arith, back b, nat_beq_iff b b))
  Seg-frame d e a (x ∷ xs) b on back s = (
    ground (arith, on a, nat_beq_iff a a),
    ground (arith, back x, nat_beq_iff x x),
    Seg-frame d e x xs b (λ j h. on j (ground arith)) (λ j h. back j (ground arith)) s.2,
  )

  -- The node before one on the chain, the node after it, and the last node.
  pub Seg-before :
      (d : Links) (a : ℕ) (xs : List ℕ) (b i : ℕ)
      → Seg d a xs b
      → has xs i ≡ true
      → has (a ∷ xs) (d i f) ≡ true
  Seg-before d a [] b i s h = absurd (ground arith)
  Seg-before d a (x ∷ xs) b i s h = elim (Bool-cases (nat_beq x i)) [
    | inl same ↦ ground (arith, nat_beq_iff x i, nat_beq_iff a a, nat_beq_iff a (d i f))
    | inr other ↦ ground (arith, Seg-before d x xs b i s.2)
  ]

  pub Seg-after :
      (d : Links) (a : ℕ) (xs : List ℕ) (b i : ℕ)
      → Seg d a xs b
      → has xs i ≡ true
      → has (xs ++ b ∷ []) (d i t) ≡ true
  Seg-after d a [] b i s h = absurd (ground arith)
  Seg-after d a (x ∷ []) b i s h = ground (arith, nat_beq_iff x i, nat_beq_iff b (d i t))
  Seg-after d a (x ∷ y ∷ ys) b i s h = elim (Bool-cases (nat_beq x i)) [
    | inl same ↦ ground (arith, nat_beq_iff x i, nat_beq_iff y (d i t))
    | inr other ↦ ground (arith, Seg-after d x (y ∷ ys) b i s.2)
  ]

  pub Seg-last :
      (d : Links) (a : ℕ) (xs : List ℕ) (b : ℕ) → Seg d a xs b → has (a ∷ xs) (d b f) ≡ true
  Seg-last d a [] b s = ground (arith, nat_beq_iff a (d b f))
  Seg-last d a (x ∷ xs) b s = ground (arith, Seg-last d x xs b s.2)

  pub erase-last :
      (d : Links) (a : ℕ) (xs : List ℕ) (b : ℕ)
      → Seg d a xs b
      → Apart xs
      → has xs b ≡ false
      → has xs (d b f) ≡ true
      → erase (d b f) xs ≡ drop_last xs
  erase-last d a [] b s ap' h m = refl
  erase-last d a (x ∷ []) b s ap' h m = ground (arith, nat_beq_iff x (d b f))
  erase-last d a (x ∷ y ∷ ys) b s ap' h m =
      let later = Seg-last d y ys b s.2.2 in
      let x_off : nat_beq x (d b f) ≡ false = ground (arith, nat_beq_iff x (d b f)) in
      rw x_off (ap (λ l. x ∷ l) (erase-last d x (y ∷ ys) b s.2 ap'.1 (ground arith) later))

  -- No node of a chain is linked to itself.
  pub Seg-no-loop :
      (d : Links) (a : ℕ) (xs : List ℕ) (b i : ℕ)
      → Seg d a xs b
      → Apart xs
      → has xs a ≡ false
      → has xs b ≡ false
      → has xs i ≡ true
      → (d i t ≢ i) × (d i f ≢ i)
  Seg-no-loop d a [] b i s ap' ha hb m = absurd (ground arith)
  Seg-no-loop d a (x ∷ []) b i s ap' ha hb m = (
    λ e. ground (arith, nat_beq_iff x i, nat_beq_iff x b),
    λ e. ground (arith, nat_beq_iff x i, nat_beq_iff x a),
  )
  Seg-no-loop d a (x ∷ y ∷ ys) b i s ap' ha hb m = elim (Bool-cases (nat_beq x i)) [
    | inl test ↦ (
      λ e. ground (arith, nat_beq_iff x i, nat_beq_iff y x),
      λ e. ground (arith, nat_beq_iff x i, nat_beq_iff x a),
    )
    | inr other ↦ Seg-no-loop d x (y ∷ ys) b i s.2 ap'.1 ap'.0 (ground arith) (ground arith)
  ]

  -- A node with nothing before it is first, one with nothing after it last.
  pub front_of :
      (d : Links) (xs : List ℕ) (i : ℕ)
      → Seg d 0 xs 0
      → Apart xs
      → has xs 0 ≡ false
      → has xs i ≡ true
      → d i f ≡ 0
      → i ∷ erase i xs ≡ xs
  front_of d [] i s ap' pos m e = absurd (ground arith)
  front_of d (x ∷ xs) i s ap' pos m e = elim (Bool-cases (nat_beq x i)) [
    | inl test ↦ rw test (ground (arith, nat_beq_iff x i))
    | inr other ↦ absurd (ground (arith, Seg-before d x xs 0 i s.2))
  ]

  pub end_of :
      (d : Links) (a : ℕ) (xs : List ℕ) (b i : ℕ)
      → Seg d a xs b
      → Apart xs
      → has xs b ≡ false
      → has xs i ≡ true
      → d i t ≡ b
      → erase i xs ++ i ∷ [] ≡ xs
  end_of d a [] b i s ap' hb m e = absurd (ground arith)
  end_of d a (x ∷ []) b i s ap' hb m e = ground (arith, nat_beq_iff x i)
  end_of d a (x ∷ y ∷ ys) b i s ap' hb m e = elim (Bool-cases (nat_beq x i)) [
    | inl test ↦ absurd (ground (arith, nat_beq_iff x i, nat_beq_iff y b))
    | inr other ↦
        rw other
          (ap (λ l. x ∷ l) (end_of d x (y ∷ ys) b i s.2 ap'.1 (ground arith) (ground arith) e))
  ]

pub length-erase : (i : ℕ) (xs : List ℕ) → has xs i ≡ true → suc (length (erase i xs)) ≡ length xs
length-erase i [] m = absurd (ground arith)
length-erase i (x ∷ xs) m = ground (arith, length-erase i xs)
