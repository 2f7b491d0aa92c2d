-- ===== src/Store/Lru2/Bucket/Recency.antt =====
-- The order of the nodes of a bucket of lru2.go, from the most recent to the least recent, and what
-- `adjust` makes of it.
use go.Common.{
  ℕ, ◌≡◌, ◌≢◌, refl, true, false, List, [], ◌∷◌, ◌++◌, arith, nat_beq, nat_beq_iff, Bool-cases, inl,
  inr,
}
use go.Store.Lru2.Bucket.{Side, Links, Bucket, p, n, link, side_beq, adjust}
use go.Store.Lru2.Bucket.Chain.{
  has, Apart, erase, has-erase, has-erase_self, erase-Apart, has-append, append-Apart, Seg,
  Seg-last, Seg-no-loop, front_of, end_of,
}
use go.Store.Lru2.Bucket.Relink.{Unlinked, Fronted, unlink-Seg, front-Seg, end-Seg}

-- The assignments of `adjust`, and those of them that take the node out.
abbrev taken_out : (i : ℕ) (f t : Side) → Links → Links
taken_out i f t d = let d1 = link (d i t) f (d i f) d in link (d1 i f) t (d1 i t) d1

abbrev put_first : (i : ℕ) (f t : Side) → Links → Links
put_first i f t d =
    let d3 = link i f 0 d in
    let d4 = link i t (d3 0 t) d3 in let d5 = link (d4 0 t) f i d4 in link 0 t i d5

module _ (t f : Side) (tt' : side_beq t t ≡ true) (ff : side_beq f f ≡ true)
    (tf : side_beq t f ≡ false) (ft : side_beq f t ≡ false) where
  taken_out-Unlinked :
      (d : Links) (i : ℕ) → d i t ≢ i → d i f ≢ i → Unlinked t f d (taken_out i f t d) i
  unfolding link
  taken_out-Unlinked d i on back = record {
    on = ground (arith, nat_beq_iff (d i f) (d i f), nat_beq_iff (d i t) i);
    back = ground (arith, nat_beq_iff (d i t) (d i t));
    on_else = λ j ne. ground (arith, nat_beq_iff (d i f) j, nat_beq_iff (d i t) i);
    back_else = λ j ne. ground (arith, nat_beq_iff (d i t) j);
  }

  put_first-Fronted : (d : Links) (i : ℕ) → i ≢ 0 → d 0 t ≢ i → Fronted t f d (put_first i f t d) i
  unfolding link
  put_first-Fronted d i nz off = record {
    first = ground arith;
    own_back = ground (arith, nat_beq_iff i i, nat_beq_iff (d 0 t) i, nat_beq_iff i 0);
    own_on = ground (arith, nat_beq_iff i i, nat_beq_iff i 0, nat_beq_iff 0 i);
    second = ground (arith, nat_beq_iff i 0, nat_beq_iff (d 0 t) (d 0 t));
    on_else = λ j nz' ne. ground (arith, nat_beq_iff i j, nat_beq_iff 0 j);
    back_else = λ j ne ne'. ground (arith, nat_beq_iff i j, nat_beq_iff (d 0 t) j, nat_beq_iff i 0);
  }

Unlinked-sym : {t f : Side} {d e : Links} {i : ℕ} → Unlinked t f d e i → Unlinked f t d e i
Unlinked-sym u = record { on = u.back; back = u.on; on_else = u.back_else; back_else = u.on_else }

pub first_of :
    (t f : Side) (d : Links) (xs : List ℕ) (i : ℕ)
    → Seg t f d 0 xs 0
    → i ≢ 0
    → has xs i ≡ false
    → d 0 t ≢ i
first_of t f d [] i s nz h e = absurd (ground arith)
first_of t f d (x ∷ xs) i s nz h e = ground (arith, nat_beq_iff x i)

last_of :
    (t f : Side) (d : Links) (xs : List ℕ) (i : ℕ)
    → Seg t f d 0 xs 0
    → i ≢ 0
    → has xs i ≡ false
    → d 0 f ≢ i
last_of t f d xs i s nz h e = ground (arith, Seg-last t f d 0 xs 0 s, nat_beq_iff 0 i)

-- A chain of nodes that are not the sentinel, none twice.
pub record IsChain (d : Links) (xs : List ℕ) : Type 0 where
  pub linked : Seg n p d 0 xs 0
  pub apart : Apart xs
  pub nodes : has xs 0 ≡ false

module _ (d : Links) (xs : List ℕ) (i : ℕ) (c : IsChain d xs) (m : has xs i ≡ true) where
  nonzero : i ≢ 0
  nonzero e = ground (arith, c.nodes)

  no_loop : (d i n ≢ i) × (d i p ≢ i)
  no_loop = Seg-no-loop n p d 0 xs 0 i c.linked c.apart c.nodes c.nodes m

  abbrev rest : List ℕ
  rest = erase i xs

  absent : has rest i ≡ false
  absent = has-erase_self i xs c.apart

  rest_nodes : has rest 0 ≡ false
  rest_nodes = has-erase i 0 xs c.nodes

  pub to_front-IsChain : IsChain (put_first i p n (taken_out i p n d)) (i ∷ rest)
  to_front-IsChain =
      let out : Links = taken_out i p n d in
      let u = taken_out-Unlinked n p refl refl refl refl d i no_loop.0 no_loop.1 in
      let s = unlink-Seg n p d out i u 0 xs 0 c.linked m c.nodes c.nodes c.apart in
      let off = first_of n p out rest i s nonzero absent in
      let w = put_first-Fronted n p refl refl refl refl out i nonzero off in
      record {
        linked =
            front-Seg n p out (put_first i p n out) i w rest s nonzero absent rest_nodes
              (erase-Apart i xs c.apart);
        apart = (absent, erase-Apart i xs c.apart);
        nodes = ground (arith, rest_nodes, nonzero, nat_beq_iff i 0);
      }

  pub to_end-IsChain : IsChain (put_first i n p (taken_out i n p d)) (rest ++ i ∷ [])
  to_end-IsChain =
      let out : Links = taken_out i n p d in
      let u = taken_out-Unlinked p n refl refl refl refl d i no_loop.1 no_loop.0 in
      let s = unlink-Seg n p d out i (Unlinked-sym u) 0 xs 0 c.linked m c.nodes c.nodes c.apart in
      let off = last_of n p out rest i s nonzero absent in
      let w = put_first-Fronted p n refl refl refl refl out i nonzero off in
      record {
        linked =
            end-Seg n p out (put_first i n p out) i w 0 rest s nonzero (λ e. nonzero (ground arith))
              absent rest_nodes rest_nodes (erase-Apart i xs c.apart);
        apart = append-Apart rest i (erase-Apart i xs c.apart) absent;
        nodes = ground (arith, rest_nodes, nonzero, nat_beq_iff i 0, has-append rest (i ∷ []) 0);
      }

module _ {V : Type 0} where
  -- `adjust(idx, p, n)` brings a node to the head, and `adjust(idx, n, p)` to the tail.
  pub adjust-head :
      (i : ℕ) (b : Bucket V) (xs : List ℕ)
      → IsChain b.dlnk xs
      → has xs i ≡ true
      → IsChain (adjust i p n b).dlnk (i ∷ erase i xs)
  unfolding adjust
  adjust-head i b xs c m = elim (Bool-cases (nat_beq (b.dlnk i p) 0)) [
    | inl first ↦
        let e : i ∷ erase i xs ≡ xs =
          front_of n p b.dlnk xs i c.linked c.apart c.nodes m
            (ground (arith, nat_beq_iff (b.dlnk i p) 0)) in
        rw (first, adjust, e) c
    | inr other ↦ rw (other, adjust) (to_front-IsChain b.dlnk xs i c m)
  ]

  pub adjust-tail :
      (i : ℕ) (b : Bucket V) (xs : List ℕ)
      → IsChain b.dlnk xs
      → has xs i ≡ true
      → IsChain (adjust i n p b).dlnk (erase i xs ++ i ∷ [])
  unfolding adjust
  adjust-tail i b xs c m = elim (Bool-cases (nat_beq (b.dlnk i n) 0)) [
    | inl last ↦
        let e : erase i xs ++ i ∷ [] ≡ xs =
          end_of n p b.dlnk 0 xs 0 i c.linked c.apart c.nodes m
            (ground (arith, nat_beq_iff (b.dlnk i n) 0)) in
        rw (last, adjust, e) c
    | inr other ↦ rw (other, adjust) (to_end-IsChain b.dlnk xs i c m)
  ]
