-- ===== src/Store/Lru2/Bucket/Represents.antt =====
-- How the table, the array and the links of a bucket of lru2.go stand for a list of nodes.
use go.Common.{
  ℕ, suc, ◌≤◌, ◌≡◌, refl, true, false, List, [], ◌∷◌, arith, nat_beq, nat_beq_iff, Bool-cases, inl,
  inr, ap, length, none, some, Bytes, bytes_beq, bytes_beq_iff, bytes_eq, map,
}
use go.Common.Map.{Map, lookup}
use go.Store.Lru2.Bucket.{Bucket, Node, store_node}
use go.Store.Lru2.Bucket.Lookup.{IsIndexed}
use go.Store.Lru2.Bucket.Chain.{has, erase, drop_last}
use go.Store.Lru2.Bucket.Recency.{IsChain}
use go.Store.Lru2.Bucket.Spec.{find, others}

pub length-map {ℓ κ} :
    {A : Type ℓ} {B : Type κ} (f : A → B) (xs : List A) → length (map f xs) ≡ length xs
length-map f [] = refl
length-map f (x ∷ xs) = ap suc (length-map f xs)

pub map-drop_last {ℓ κ} :
    {A : Type ℓ} {B : Type κ} (f : A → B) (xs : List A)
    → map f (drop_last xs) ≡ drop_last (map f xs)
map-drop_last f [] = refl
map-drop_last f (x ∷ []) = refl
map-drop_last f (x ∷ y ∷ ys) = ap (λ l. f x ∷ l) (map-drop_last f (y ∷ ys))

module _ {V : Type 0} where
  -- The order of the nodes in use, the most recent first.
  pub record IsOrder (b : Bucket V) (xs : List ℕ) : Type 0 where
    pub chain : IsChain b.dlnk xs
    pub used : (i : ℕ) → has xs i ≡ true → (1 ≤ i) × (i ≤ b.last)
    pub covers : (i : ℕ) → 1 ≤ i → i ≤ b.last → has xs i ≡ true
    pub count : length xs ≡ b.last

  -- The bucket stands for the nodes in this order.
  pub record Represents (b : Bucket V) (nodes : List (Node V)) : Type 0 where
    pub indexed : IsIndexed b
    pub order : List ℕ
    pub ordered : IsOrder b order
    pub reads : map b.m order ≡ nodes

  -- Every index of the list is the one that the table has for its key.
  abbrev pub Listed : Map Bytes ℕ → (ℕ → Node V) → List ℕ → Type 0
  Listed h m xs = (i : ℕ) → has xs i ≡ true → lookup (m i).k h ≡ some i

  pub store_node_self : (i : ℕ) (node : Node V) (m : ℕ → Node V) → store_node i node m i ≡ node
  unfolding store_node
  store_node_self i node m = ground (arith, nat_beq_iff i i)

  pub map-store_node :
      (i : ℕ) (node : Node V) (m : ℕ → Node V) (xs : List ℕ)
      → has xs i ≡ false
      → map (store_node i node m) xs ≡ map m xs
  unfolding store_node
  map-store_node i node m [] h = refl
  map-store_node i node m (x ∷ xs) h =
      ground (arith, nat_beq_iff i x, nat_beq_iff x i, map-store_node i node m xs)

  pub find-absent :
      (key : Bytes) (h : Map Bytes ℕ) (m : ℕ → Node V) (xs : List ℕ)
      → lookup key h ≡ none
      → Listed h m xs
      → find key (map m xs) ≡ none
  find-absent key h m [] gone l = refl
  find-absent key h m (x ∷ xs) gone l = ground (
    arith,
    l x (ground (arith, nat_beq_iff x x)),
    bytes_beq_iff (m x).k key,
    find-absent key h m xs gone (λ i e. l i (ground arith)),
  )

  pub find-present :
      (key : Bytes) (i : ℕ) (h : Map Bytes ℕ) (m : ℕ → Node V) (xs : List ℕ)
      → lookup key h ≡ some i
      → (m i).k ≡ key
      → Listed h m xs
      → has xs i ≡ true
      → (find key (map m xs) ≡ some (m i)) × (others key (map m xs) ≡ map m (erase i xs))
  find-present key i h m [] there named l on = absurd (ground arith)
  find-present key i h m (x ∷ xs) there named l on = elim (Bool-cases (nat_beq x i)) [
    | inl same ↦
        let e : x ≡ i = ground (arith, nat_beq_iff x i) in
        let test : bytes_beq (m x).k key ≡ true = ground (arith, bytes_beq_iff (m x).k key) in
        rw (same, test) (ground arith)
    | inr other ↦
        let own : lookup (m x).k h ≡ some x = l x (ground (arith, nat_beq_iff x x)) in
        let test : bytes_beq (m x).k key ≡ false =
          ground (arith, bytes_beq_iff (m x).k key, nat_beq_iff x i) in
        let rest =
          find-present key i h m xs there named (λ j e. l j (ground arith)) (ground arith) in
        rw (other, test) (rest.0, ap (λ l. m x ∷ l) rest.1)
  ]
