-- ===== src/ConsistentHash/Sorting.antt =====
-- What con_hash.go uses of the standard library: `sort.Ints`, `sort.Search` and `%d`.
use go.Common.{
  ℕ, zero, suc, ◌+◌, ◌/◌, ◌%◌, ◌≤◌, ◌<◌, ◌≡◌, refl, inl, inr, Bool, true, false, List, [], ◌∷◌,
  arith, nat_beq, ltb, leb, if◌then◌else◌, length, get_or, All, All-weaken, Bool-cases,
}

unfoldable pub insert_sorted : ℕ → List ℕ → List ℕ
insert_sorted x [] = x ∷ []
insert_sorted x (y ∷ ys) = if leb x y then x ∷ y ∷ ys else y ∷ insert_sorted x ys

-- `sort.Ints`: the ascending rearrangement, which is unique for numbers.
unfoldable pub sort_ints : List ℕ → List ℕ
unfolding insert_sorted
sort_ints [] = []
sort_ints (x ∷ xs) = insert_sorted x (sort_ints xs)

-- `sort.Search`: the binary search over `[i, j)`, with fuel for `j - i` rounds.
unfoldable pub search : ℕ → (ℕ → Bool) → (i j : ℕ) → ℕ
search zero f i j = i
search (suc k) f i j =
    let h = (i + j) / 2 in
    let right = search k f (h + 1) j in
    let left = search k f i h in if ltb i j then (if f h then left else right) else i

unfoldable pub decimal_fuel : ℕ → ℕ → List ℕ → List ℕ
decimal_fuel zero n acc = acc
decimal_fuel (suc k) n acc =
    let acc' = (b'0' + n % 10) ∷ acc in
    let more = decimal_fuel k (n / 10) acc' in if ltb n 10 then acc' else more

-- `%d` of a number that is not negative; a number has at most as many digits as its value plus one.
unfoldable pub decimal : ℕ → List ℕ
unfolding decimal_fuel
decimal n = decimal_fuel (n + 1) n []

-- Ascending, in the form in which each element is below all later ones.
abbrev pub IsSorted : List ℕ → Type 0
IsSorted [] = Unit
IsSorted (x ∷ xs) = All (λ y. x ≤ y) xs × IsSorted xs

-- How often a number occurs.
unfoldable pub count : ℕ → List ℕ → ℕ
count a [] = 0
count a (x ∷ xs) = (if nat_beq x a then 1 else 0) + count a xs

All-insert_sorted :
    (b x : ℕ) (ys : List ℕ) → b ≤ x → All (λ y. b ≤ y) ys → All (λ y. b ≤ y) (insert_sorted x ys)
unfolding insert_sorted
All-insert_sorted b x [] h hy = (h, tt)
All-insert_sorted b x (y ∷ ys) h hy = elim (Bool-cases (leb x y)) [
  | inl e ↦ rw e (h, hy)
  | inr e ↦ rw e (hy.0, All-insert_sorted b x ys h hy.1)
]

insert_sorted-IsSorted : (x : ℕ) (ys : List ℕ) → IsSorted ys → IsSorted (insert_sorted x ys)
unfolding insert_sorted
insert_sorted-IsSorted x [] h = (tt, tt)
insert_sorted-IsSorted x (y ∷ ys) h = elim (Bool-cases (leb x y)) [
  | inl e ↦
      rw e ((ground arith, All-weaken (λ z. y ≤ z) (λ z. x ≤ z) ys (λ z q. ground arith) h.0), h)
  | inr e ↦ rw e (All-insert_sorted y x ys (ground arith) h.0, insert_sorted-IsSorted x ys h.1)
]

pub sort_ints-IsSorted : (xs : List ℕ) → IsSorted (sort_ints xs)
unfolding sort_ints
sort_ints-IsSorted [] = tt
sort_ints-IsSorted (x ∷ xs) = insert_sorted-IsSorted x (sort_ints xs) (sort_ints-IsSorted xs)

count-insert_sorted :
    (a x : ℕ) (ys : List ℕ)
    → count a (insert_sorted x ys) ≡ (if nat_beq x a then 1 else 0) + count a ys
unfolding insert_sorted count
count-insert_sorted a x [] = refl
count-insert_sorted a x (y ∷ ys) = ground (arith, count-insert_sorted a x ys)

pub count-sort_ints : (a : ℕ) (xs : List ℕ) → count a (sort_ints xs) ≡ count a xs
unfolding sort_ints count
count-sort_ints a [] = refl
count-sort_ints a (x ∷ xs) =
    omega (arith, count-insert_sorted a x (sort_ints xs), count-sort_ints a xs)

pub length-sort_ints : (xs : List ℕ) → length (sort_ints xs) ≡ length xs
unfolding sort_ints
length-sort_ints [] = refl
length-sort_ints (x ∷ xs) =
    omega (arith, length-insert_sorted x (sort_ints xs), length-sort_ints xs)
  where
    length-insert_sorted : (x : ℕ) (ys : List ℕ) → length (insert_sorted x ys) ≡ suc (length ys)
    length-insert_sorted x [] = refl
    length-insert_sorted x (y ∷ ys) = ground (arith, length-insert_sorted x ys)

-- The answer of a binary search: `f` fails below it, and holds at it unless it is the end.
pub record Found (f : ℕ → Bool) (n r : ℕ) : Type 0 where
  pub within : r ≤ n
  pub below : (q : ℕ) → q < r → f q ≡ false
  pub at : r < n → f r ≡ true

module _ (f : ℕ → Bool) (n : ℕ) (mono : (p q : ℕ) → p ≤ q → q < n → f p ≡ true → f q ≡ true) where
  pub search-Found :
      (k i j : ℕ)
      → i ≤ j
      → j ≤ n
      → j ≤ i + k
      → ((q : ℕ) → q < i → f q ≡ false)
      → (j < n → f j ≡ true)
      → Found f n (search k f i j)
  unfolding search
  search-Found zero i j ij jn fuel lo hi =
      let same : i ≡ j = omega arith in record { within = omega arith; below = lo; at = rw same hi }
  search-Found (suc k) i j ij jn fuel lo hi = elim (Bool-cases (ltb i j)) [
    | inr done ↦
        let same : i ≡ j = ground arith in
        rw done (record { within = omega arith; below = lo; at = rw same hi })
    | inl more ↦
        let h = (i + j) / 2 in
        let lt : i < j = ground arith in
        elim (Bool-cases (f h)) [
          | inl yes' ↦
              rw (more, yes')
                (search-Found k i h (omega arith) (omega arith) (omega arith) lo (λ _. yes'))
          | inr no' ↦
              rw (more, no')
                (search-Found k (h + 1) j (omega arith) jn (omega arith)
                  (λ q ql. elim (Bool-cases (f q)) [
                    | inl t ↦ absurd (ground (arith, mono q h (omega arith) (omega arith) t))
                    | inr e ↦ e
                  ])
                  hi)
        ]
  ]

get_or-All : (b i : ℕ) (xs : List ℕ) → All (λ y. b ≤ y) xs → i < length xs → b ≤ get_or xs i 0
get_or-All b i [] h lt = absurd (omega arith)
get_or-All b zero (x ∷ xs) h lt = h.0
get_or-All b (suc i) (x ∷ xs) h lt = get_or-All b i xs h.1 (omega arith)

pub get_or_mono :
    (xs : List ℕ) (p q : ℕ) → IsSorted xs → p ≤ q → q < length xs → get_or xs p 0 ≤ get_or xs q 0
get_or_mono [] p q s le lt = absurd (omega arith)
get_or_mono (x ∷ xs) zero zero s le lt = omega arith
get_or_mono (x ∷ xs) zero (suc q) s le lt = get_or-All x q xs s.0 (omega arith)
get_or_mono (x ∷ xs) (suc p) zero s le lt = absurd (omega arith)
get_or_mono (x ∷ xs) (suc p) (suc q) s le lt = get_or_mono xs p q s.1 (omega arith) (omega arith)

decimal_seven_hundred_nine : decimal 709 ≡ b'7' ∷ b'0' ∷ b'9' ∷ []
unfolding decimal
decimal_seven_hundred_nine = refl
