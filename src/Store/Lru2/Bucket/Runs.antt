-- ===== src/Store/Lru2/Bucket/Runs.antt =====
-- Any calls on a bucket of lru2.go answer and leave what they do on the list of its nodes.
use go.Common.{
  ap, sym, true, ◌%◌, ◌+◌, ℕ, zero, suc, ◌<◌, ◌^◌, ◌≡◌, refl, false, List, [], ◌∷◌, arith, nat_beq,
  nat_beq_iff, Bool-cases, inl, inr, Option, none, some, Bytes, bytes_eq, map, Option-cases, length,
  if◌then◌else◌, ◌∙◌,
}
use mathlib.Core.Path.{subst}
use go.Common.Int64
use go.Common.Map.{lookup}
use go.Store.Lru2.Bucket.{
  Bucket, Links, Node, put, get, del, create, put_update, put_replace, put_fresh, adjust,
  store_node, p, n, walk, walk_from,
}
use go.Store.Lru2.Bucket.Lookup.{IsIndexed, create-IsIndexed, adjust-cap}
use go.Store.Lru2.Bucket.Chain.{has, Seg}
use go.Store.Lru2.Bucket.Represents.{IsOrder, Represents, find-absent, find-present, length-map}
use go.Store.Lru2.Bucket.Refinement.{
  put-update, put-replace, put-fresh, get-head, del-tail, listed, indexed_on, last_on,
}
use go.Store.Lru2.Bucket.Spec.{
  Call, put_call, get_call, del_call, find, apply, evicted_of, shown_evicted, replay, run_call, run,
}

module _ {V : Type 0} where
  -- What a call has to answer and to leave.
  pub record Meets (size : ℕ) (c : Call V) (nodes : List (Node V)) (b : Bucket V) : Type 0 where
    pub after : Bucket V
    pub returns : run_call c b ≡ some ((apply size c nodes).0, after)
    pub stands : Represents after (apply size c nodes).1
    pub same_cap : after.cap ≡ size

  update-cap :
      (key : Bytes) (val : Option V) (expire_at idx : ℕ) (b : Bucket V)
      → (put_update idx key val expire_at b).bucket.cap ≡ b.cap
  unfolding put_update
  update-cap key val expire_at idx b = adjust-cap idx p n _

  replace-cap :
      (key : Bytes) (val : Option V) (expire_at : ℕ) (b : Bucket V)
      → (put_replace key val expire_at b).bucket.cap ≡ b.cap
  unfolding put_replace
  replace-cap key val expire_at b = adjust-cap (b.dlnk 0 p) p n _

  fresh-cap :
      (key : Bytes) (val : Option V) (expire_at : ℕ) (b : Bucket V)
      → (put_fresh key val expire_at b).bucket.cap ≡ b.cap
  unfolding put_fresh
  fresh-cap key val expire_at b = refl

  evicted_of-map :
      (m : ℕ → Node V) (d : Links) (a : ℕ) (xs : List ℕ)
      → Seg n p d a xs 0
      → 0 < length xs
      → evicted_of (map m xs) ≡ shown_evicted (m (d 0 p))
  evicted_of-map m d a [] s e = absurd (omega arith)
  evicted_of-map m d a (x ∷ []) s e = rw s.2.1 refl
  evicted_of-map m d a (x ∷ y ∷ ys) s e = evicted_of-map m d x (y ∷ ys) s.2 (omega arith)

  fresh-answer :
      (key : Bytes) (val : Option V) (expire_at : ℕ) (b : Bucket V)
      → ((put_fresh key val expire_at b).added ≡ true)
        × ((put_fresh key val expire_at b).evicted ≡ none)
  unfolding put_fresh
  fresh-answer key val expire_at b = (refl, refl)

  update-answer :
      (key : Bytes) (val : Option V) (expire_at idx : ℕ) (b : Bucket V)
      → ((put_update idx key val expire_at b).added ≡ false)
        × ((put_update idx key val expire_at b).evicted ≡ none)
  unfolding put_update
  update-answer key val expire_at idx b = (refl, refl)

  -- What `put` hands to `onEvicted` is the entry of the oldest node.
  evicted_of-replace :
      (key : Bytes) (val : Option V) (expire_at : ℕ) (b : Bucket V) (xs : List ℕ)
      → Seg n p b.dlnk 0 xs 0
      → length xs ≡ b.last
      → 0 < b.last
      → ((put_replace key val expire_at b).added ≡ true)
        × ((put_replace key val expire_at b).evicted ≡ evicted_of (map b.m xs))
  unfolding put_replace
  evicted_of-replace key val expire_at b xs s count some' =
      (refl, sym (evicted_of-map b.m b.dlnk 0 xs s (omega arith)))

  module _ (b : Bucket V) (xs : List ℕ) (o : IsOrder b xs) (v : IsIndexed b)
      (some_room : 0 < b.cap) where
    abbrev nodes : List (Node V)
    nodes = map b.m xs

    absent_in : (key : Bytes) → lookup key b.hmap ≡ none → find key nodes ≡ none
    absent_in key gone = find-absent key b.hmap b.m xs gone (listed b xs o v)

    present_in :
        (key : Bytes) (idx : ℕ) → lookup key b.hmap ≡ some idx → find key nodes ≡ some (b.m idx)
    present_in key idx there =
        (find-present key idx b.hmap b.m xs there (v.named key idx there).2 (listed b xs o v)
          (indexed_on b xs o v key idx there)).0

    put-Meets :
        (key : Bytes) (val : Option V) (expire_at : ℕ)
        → Meets b.cap (put_call key val expire_at) nodes b
    unfolding run_call put
    put-Meets key val expire_at = elim (Option-cases (lookup key b.hmap)) [
      | inr (idx, there) ↦
          let found = present_in key idx there in
          let out = update-answer key val expire_at idx b in
          record {
            after = (put_update idx key val expire_at b).bucket;
            returns = ground arith;
            stands = rw (found, find) (put-update b xs o v key val expire_at idx there);
            same_cap = update-cap key val expire_at idx b;
          }
      | inl gone ↦
          let missing = absent_in key gone in
          let size = length-map b.m xs ∙ o.count in
          elim (Bool-cases (nat_beq b.last b.cap)) [
            | inl full ↦
                let some' : 0 < b.last = ground (arith, nat_beq_iff b.last b.cap) in
                let on = last_on b.dlnk xs o.chain.linked (omega (arith, o.count)) in
                let tail : nat_beq (b.dlnk 0 p) 0 ≡ false =
                  ground (arith, (o.used (b.dlnk 0 p) on).0) in
                let out = evicted_of-replace key val expire_at b xs o.chain.linked o.count some' in
                record {
                  after = (put_replace key val expire_at b).bucket;
                  returns = ground arith;
                  stands =
                      rw (missing, size, full) (put-replace b xs o v key val expire_at gone some');
                  same_cap = replace-cap key val expire_at b;
                }
            | inr room ↦
                let lt : b.last < b.cap = ground (arith, v.room, nat_beq_iff b.last b.cap) in
                let out = fresh-answer key val expire_at b in
                let linked : nat_beq ((b.cap + 1) % 2 ^ 16) 0 ≡ false = ground (arith, v.small) in
                record {
                  after = (put_fresh key val expire_at b).bucket;
                  returns = ground arith;
                  stands = rw (missing, size, room) (put-fresh b xs o v key val expire_at gone lt);
                  same_cap = fresh-cap key val expire_at b;
                }
          ]
    ]

    get-Meets : (key : Bytes) → Meets b.cap (get_call key) nodes b
    unfolding run_call get
    get-Meets key = elim (Option-cases (lookup key b.hmap)) [
      | inl gone ↦
          let missing = absent_in key gone in
          record {
            after = b;
            returns = ground arith;
            stands =
                rw (missing, apply) (record { indexed = v; order = xs; ordered = o; reads = refl });
            same_cap = refl;
          }
      | inr (idx, there) ↦
          let found = present_in key idx there in
          record {
            after = adjust idx p n b;
            returns = ground arith;
            stands = rw (found, apply) (get-head b xs o v key idx there);
            same_cap = adjust-cap idx p n b;
          }
    ]

    del-Meets : (key : Bytes) → Meets b.cap (del_call key) nodes b
    unfolding run_call del
    del-Meets key = elim (Option-cases (lookup key b.hmap)) [
      | inl gone ↦
          let missing = absent_in key gone in
          record {
            after = b;
            returns = ground arith;
            stands =
                rw (missing, apply) (record { indexed = v; order = xs; ordered = o; reads = refl });
            same_cap = refl;
          }
      | inr (idx, there) ↦
          let found = present_in key idx there in
          elim (Bool-cases (Int64.lt 0 (b.m idx).expire_at)) [
            | inl alive ↦ record {
              after =
                  adjust idx n p
                    (record b { m = store_node idx (record (b.m idx) { expire_at = 0 }) b.m });
              returns = ground arith;
              stands = rw (found, alive, apply) (del-tail b xs o v key idx there);
              same_cap = adjust-cap idx n p _;
            }
            | inr dead ↦ record {
              after = b;
              returns = ground arith;
              stands =
                  rw (found, dead, apply)
                    (record { indexed = v; order = xs; ordered = o; reads = refl });
              same_cap = refl;
            }
          ]
    ]

  pub call-Meets :
      (size : ℕ) (c : Call V) (b : Bucket V) (nodes : List (Node V))
      → Represents b nodes
      → 0 < b.cap
      → b.cap ≡ size
      → Meets size c nodes b
  call-Meets size c b list r some_room e =
      subst (λ k. Meets k c list b) e
        (subst (λ (ns : List (Node V)). Meets b.cap c ns b) r.reads (by_call c))
    where
      by_call : (c : Call V) → Meets b.cap c (map b.m r.order) b
      by_call (put_call key val expire_at) =
          put-Meets b r.order r.ordered r.indexed some_room key val expire_at
      by_call (get_call key) = get-Meets b r.order r.ordered r.indexed some_room key
      by_call (del_call key) = del-Meets b r.order r.ordered r.indexed some_room key

  pub create-Represents : (cap : ℕ) → cap + 1 < 2 ^ 16 → Represents (create {V = V} cap) []
  unfolding create
  create-Represents size small = record {
    indexed = create-IsIndexed size small;
    order = [];
    ordered = record {
      chain = record { linked = (refl, refl); apart = tt; nodes = refl };
      used = λ i e. absurd (ground arith);
      covers = λ i lo hi. absurd (omega arith);
      count = refl;
    };
    reads = refl;
  }

  run-Represents :
      (size : ℕ) (calls : List (Call V)) (b : Bucket V) (list : List (Node V))
      → Represents b list
      → 0 < size
      → b.cap ≡ size
      → (b' : Bucket V) × (run calls b ≡ some ((replay size calls list).0, b'))
        × Represents b' (replay size calls list).1
  unfolding run replay
  run-Represents size [] b list r some_room e = (b, refl, r)
  run-Represents size (c ∷ calls) b list r some_room e =
      let m = call-Meets size c b list r (omega arith) e in
      let back = m.returns in
      let (b', ran, stands) =
        run-Represents size calls m.after (apply size c list).1 m.stands some_room m.same_cap in
      (b', ground arith, stands)

  -- Refinement: on a new bucket with room for one node at least and at most 2 ^ 16 - 2, any calls of
  -- `put`, `get` and `del` do not panic, answer what they answer on a list of nodes kept in the order
  -- of use, and leave a bucket that stands for the list which they leave.
  pub run-create_refines :
      (cap : ℕ) (calls : List (Call V))
      → 0 < cap
      → cap + 1 < 2 ^ 16
      → (b : Bucket V) × (run calls (create cap) ≡ some ((replay cap calls []).0, b))
        × Represents b (replay cap calls []).1
  unfolding create
  run-create_refines size calls some_room small =
      run-Represents size calls (create size) [] (create-Represents size small) some_room refl

  -- The nodes that are alive.
  abbrev pub live : List (Node V) → List (Node V)
  live [] = []
  live (node ∷ rest) = if Int64.lt 0 node.expire_at then node ∷ live rest else live rest

  walk_from-live :
      (fuel a : ℕ) (xs : List ℕ) (b : Bucket V)
      → Seg n p b.dlnk a xs 0
      → has xs 0 ≡ false
      → length xs < fuel
      → walk_from fuel (b.dlnk a n) b ≡ live (map b.m xs)
  unfolding walk_from
  walk_from-live zero a xs b s pos lt = absurd (omega arith)
  walk_from-live (suc fuel) a [] b s pos lt = rw (s.0, walk_from)
  walk_from-live (suc fuel) a (x ∷ xs) b s pos lt =
      let rest = walk_from-live fuel x xs b s.2 (ground arith) (omega arith) in
      let nz : nat_beq x 0 ≡ false = ground arith in rw (s.0, nz, rest) refl

  -- `walk` of a bucket that stands for a list does not panic and shows its live nodes, the most recent first, all of
  -- them and each once: `cap + 1` rounds reach the end of the links.
  pub walk_lem :
      (b : Bucket V) (list : List (Node V)) → Represents b list → walk b ≡ some (live list)
  unfolding walk
  walk_lem b list r =
      let o = r.ordered in
      let linked : nat_beq ((b.cap + 1) % 2 ^ 16) 0 ≡ false = ground (arith, r.indexed.small) in
      rw linked (
        ap (λ l. some l)
          (walk_from-live (b.cap + 1) 0 r.order b o.chain.linked o.chain.nodes
              (omega (arith, o.count, r.indexed.room))
            ∙ ap live r.reads))
