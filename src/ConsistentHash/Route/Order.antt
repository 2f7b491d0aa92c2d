-- ===== src/ConsistentHash/Route/Order.antt =====
-- `GetN` and `GetNHealthy` of con_hash.go against a description without loops: the owners of the
-- virtual nodes clockwise from the key, each at its first place, of which the first n are taken.
use go.Common.{
  ◌<◌, ◌^◌, ℕ, zero, suc, ◌+◌, ◌-◌, ◌%◌, ◌≡◌, ◌≢◌, refl, sym, ap, ◌∙◌, Bool, true, false, not, ◌&&◌,
  ◌||◌, List, [], ◌∷◌, ◌++◌, arith, nat_beq, ltb, length, length-append, take, Bytes, ◌==◌,
  bytes_beq, bytes_beq_iff, bytes_eq, contains, Bool-cases, inl, inr, if◌then◌else◌,
}
use mathlib.Core.List.{append-nil, append_assoc}
use go.ConsistentHash.Sorting.{IsSorted}
use go.ConsistentHash.Route.Clockwise.{Successor, start_index-Successor}
use go.ConsistentHash.Ring.{Ring, is_healthy, without}
use go.ConsistentHash.Route.{start_index, node_at, get_n_loop, get_n, get_n_healthy}

-- The owners of `n` virtual nodes in a row, from the one `i` places after `idx`.
abbrev pub owners_from : Ring → (idx n i : ℕ) → List Bytes
owners_from r idx zero i = []
owners_from r idx (suc n) i = node_at r ((idx + i) % length r.hashes) ∷ owners_from r idx n (i + 1)

-- The owners of all virtual nodes, clockwise from where the lookups start.
abbrev clockwise : Bytes → Ring → List Bytes
clockwise key r = owners_from r (start_index key r) (length r.hashes) 0

abbrev pub keep_if : (Bytes → Bool) → List Bytes → List Bytes
keep_if admit [] = []
keep_if admit (x ∷ xs) = if admit x then x ∷ keep_if admit xs else keep_if admit xs

-- Each element at its first place only.
abbrev pub firsts : List Bytes → List Bytes
firsts [] = []
firsts (x ∷ xs) = x ∷ without x (firsts xs)

unseen : (Bytes → Bool) → (seen : List Bytes) → List Bytes → List Bytes
unseen admit seen [] = []
unseen admit seen (x ∷ xs) =
    let fresh = not (contains seen x) && admit x in
    let kept = unseen admit (x ∷ seen) xs in
    let rest = unseen admit seen xs in if fresh then x ∷ kept else rest

without_all : (seen : List Bytes) → List Bytes → List Bytes
without_all seen [] = []
without_all seen (x ∷ xs) = if contains seen x then without_all seen xs else x ∷ without_all seen xs

without_all-cons :
    (x : Bytes) (seen ys : List Bytes) → without_all (x ∷ seen) ys ≡ without_all seen (without x ys)
unfolding without_all contains
without_all-cons x seen [] = refl
without_all-cons x seen (y ∷ ys) =
    ground (arith, without_all-cons x seen ys, bytes_beq_iff x y, bytes_beq_iff y x)

without_all-without :
    (x : Bytes) (seen ys : List Bytes)
    → contains seen x ≡ true
    → without_all seen (without x ys) ≡ without_all seen ys
unfolding without_all
without_all-without x seen [] has = refl
without_all-without x seen (y ∷ ys) has = elim (Bool-cases (bytes_beq y x)) [
  | inl same ↦
      let one : y ≡ x = (bytes_beq_iff y x).0 same in
      let has' : contains seen y ≡ true = rw one has in
      ground (arith, without_all-without x seen ys has)
  | inr apart ↦ ground (arith, without_all-without x seen ys has)
]

without_all-nil : (ys : List Bytes) → without_all [] ys ≡ ys
unfolding without_all contains
without_all-nil [] = refl
without_all-nil (y ∷ ys) = ap (◌∷◌ y) (without_all-nil ys)

unseen-firsts :
    (admit : Bytes → Bool) (seen xs : List Bytes)
    → unseen admit seen xs ≡ without_all seen (firsts (keep_if admit xs))
unfolding unseen without_all
unseen-firsts admit seen [] = refl
unseen-firsts admit seen (x ∷ xs) = elim (Bool-cases (admit x)) [
  | inr refused ↦ ground (arith, unseen-firsts admit seen xs)
  | inl admits ↦
      let later = firsts (keep_if admit xs) in
      elim (Bool-cases (contains seen x)) [
        | inl has ↦
            ground (arith, unseen-firsts admit seen xs, without_all-without x seen later has)
        | inr new ↦ ground (arith, unseen-firsts admit (x ∷ seen) xs, without_all-cons x seen later)
      ]
]

take-nil : (n : ℕ) → take {A = Bytes} n [] ≡ []
take-nil zero = refl
take-nil (suc n) = refl

take-none :
    (limit : ℕ) (result xs : List Bytes)
    → ltb (length result) limit ≡ false
    → result ≡ result ++ take (limit - length result) xs
take-none limit result xs full =
    let none_left : limit - length result ≡ 0 = ground arith in
    rw none_left (sym (append-nil result))

take-one :
    (limit : ℕ) (result : List Bytes) (x : Bytes) (rest : List Bytes)
    → ltb (length result) limit ≡ true
    → (result ++ x ∷ []) ++ take (limit - length (result ++ x ∷ [])) rest
      ≡ result ++ take (limit - length result) (x ∷ rest)
take-one limit result x rest room =
    let m = limit - length (result ++ x ∷ []) in
    let left : limit - length result ≡ suc m = ground (arith, length-append result (x ∷ [])) in
    rw left (append_assoc result (x ∷ []) (take m rest))

get_n_loop-take :
    (admit : Bytes → Bool) (r : Ring) (idx limit n i : ℕ) (seen result : List Bytes)
    → get_n_loop admit r idx limit n i seen result
      ≡ result ++ take (limit - length result) (unseen admit seen (owners_from r idx n i))
unfolding get_n_loop unseen
get_n_loop-take admit r idx limit zero i seen result =
    rw (take-nil (limit - length result)) (sym (append-nil result))
get_n_loop-take admit r idx limit (suc n) i seen result =
    let x = node_at r ((idx + i) % length r.hashes) in
    elim (Bool-cases (ltb (length result) limit)) [
      | inr full ↦ rw (full, get_n_loop) (take-none limit result _ full)
      | inl room ↦ elim (Bool-cases (not (contains seen x) && admit x)) [
        | inl fresh ↦
            rw (room, fresh, get_n_loop, unseen)
              (get_n_loop-take admit r idx limit n (i + 1) (x ∷ seen) (result ++ x ∷ [])
                ∙ take-one limit result x _ room)
        | inr old ↦
            rw (room, old, get_n_loop, unseen)
              (get_n_loop-take admit r idx limit n (i + 1) seen result)
      ]
    ]

keep_if-true : (xs : List Bytes) → keep_if (λ _. true) xs ≡ xs
keep_if-true [] = refl
keep_if-true (x ∷ xs) = ap (◌∷◌ x) (keep_if-true xs)

loop-take :
    (admit : Bytes → Bool) (key : Bytes) (limit : ℕ) (r : Ring)
    → get_n_loop admit r (start_index key r) limit (length r.hashes) 0 [] []
      ≡ take limit (firsts (keep_if admit (clockwise key r)))
loop-take admit key limit r =
    let xs = clockwise key r in
    let all : limit - 0 ≡ limit = omega arith in
    get_n_loop-take admit r (start_index key r) limit (length r.hashes) 0 [] []
    ∙ ap (λ m. take m (unseen admit [] xs)) all
    ∙ ap (take limit) (unseen-firsts admit [] xs ∙ without_all-nil (firsts (keep_if admit xs)))

guarded :
    (admit : Bytes → Bool) (key : Bytes) (limit : ℕ) (r : Ring)
    → key ≢ []
    → (if key == [] || nat_beq limit 0 || nat_beq (length r.hashes) 0
        then []
        else get_n_loop admit r (start_index key r) limit (length r.hashes) 0 [] [])
      ≡ take limit (firsts (keep_if admit (clockwise key r)))
guarded admit key limit r named =
    let loop = loop-take admit key limit r in
    let open' : bytes_beq key [] ≡ false = ground (arith, bytes_beq_iff key []) in
    elim (Bool-cases (nat_beq limit 0)) [
      | inl nothing ↦ let e : limit ≡ 0 = ground arith in rw (open', nothing) (rw e refl)
      | inr some_wanted ↦ elim (Bool-cases (nat_beq (length r.hashes) 0)) [
        | inl bare ↦
            let e : length r.hashes ≡ 0 = ground arith in
            let empty : clockwise key r ≡ [] = ap (λ n. owners_from r (start_index key r) n 0) e in
            rw (open', some_wanted, bare)
              (sym (ap (λ xs. take limit (firsts (keep_if admit xs))) empty ∙ take-nil limit))
        | inr nodes ↦ rw (open', some_wanted, nodes) loop
      ]
    ]

get_n-clockwise :
    (key : Bytes) (limit : ℕ) (r : Ring)
    → key ≢ []
    → (get_n key limit r ≡ take limit (firsts (clockwise key r)))
      × (get_n_healthy key limit r ≡ take limit (firsts (keep_if (is_healthy r) (clockwise key r))))
unfolding get_n get_n_healthy
get_n-clockwise key limit r named = (
  guarded (λ _. true) key limit r named
      ∙ ap (λ xs. take limit (firsts xs)) (keep_if-true (clockwise key r)),
  guarded (is_healthy r) key limit r named,
)

-- On a ring that is sorted and not empty, for a key that is not empty and a number below 2 ^ 32,
-- start from the virtual node that succeeds the key's hash clockwise: the first one at or after the
-- hash, or the lowest one of all where every virtual node lies before it. `GetN` gives the first n of
-- the nodes that own the virtual nodes from there once around the ring, each node counted at its first
-- place; `GetNHealthy` gives the first n of those that are healthy, in the same order.
pub get_n-take :
    (key : Bytes) (limit : ℕ) (r : Ring)
    → IsSorted r.hashes
    → 0 < length r.hashes
    → key ≢ []
    → limit < 2 ^ 32
    → (i : ℕ) × (i < length r.hashes)
      × Successor r (r.config.hash_func key) i
      × (get_n key limit r ≡ take limit (firsts (owners_from r i (length r.hashes) 0)))
      × (get_n_healthy key limit r
          ≡ take limit (firsts (keep_if (is_healthy r) (owners_from r i (length r.hashes) 0))))
get_n-take key limit r sorted nonempty named small =
    let (inside, next) = start_index-Successor key r sorted nonempty in
    let (all, healthy) = get_n-clockwise key limit r named in
    (start_index key r, inside, next, all, healthy)
