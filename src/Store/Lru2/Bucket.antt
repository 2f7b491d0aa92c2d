-- ===== src/Store/Lru2/Bucket.antt =====
-- lru2.go: `cache`, one level of one bucket: nodes in an array, linked by an array of index pairs.
-- The arrays are functions of the index, and their lengths those that `Create` gives them: `cap+1`, as
-- a uint16, links and `cap` nodes. The theorems are about buckets whose `cap+1` fits, so that node 0
-- has links; of one whose `cap+1` wraps to 0, `put` and `walk` panic. `m` is read at the node's own number, one above the source's index.
-- In a well-formed bucket every index that is used lies within the arrays; where `put` would read the
-- node before the first (`c.m[0-1]`, a panic) the result is `none`.
-- An int64 is its bit pattern, a uint16 a number below 2 ^ 16.
pub mod Lookup
pub mod Calls
pub mod Chain
pub mod Relink
pub mod Recency
pub mod Spec
pub mod Represents
pub mod Refinement
pub mod Runs
use go.Common.{
  ℕ, zero, suc, ◌+◌, ◌-◌, ◌%◌, ◌^◌, Bool, true, false, ◌&&◌, Option, none, some, List, [], ◌∷◌,
  nat_beq, ltb, if◌then◌else◌, length, Bytes, bytes_beq, bytes_eq,
}
use go.Common.Int64
use go.Common.Map.{Map, lookup, insert, delete}

-- `p` and `n`: the columns of `dlnk`.
pub data Side : Type 0 where
  p n : Side

abbrev pub Links : Type 0
Links = ℕ → Side → ℕ

abbrev pub side_beq : Side → Side → Bool
side_beq p p = true
side_beq n n = true
side_beq _ _ = false

-- `dlnk[i][s] = x`
unfoldable pub link : ℕ → Side → ℕ → Links → Links
link i s x d j t = if nat_beq i j && side_beq s t then x else d j t

-- `node`; the value of a node never used is nil.
pub record Node (V : Type 0) : Type 0 where
  pub k : Bytes
  pub v : Option V
  pub expire_at : ℕ  -- not positive: deleted

pub record Bucket (V : Type 0) : Type 0 where
  pub dlnk : Links
  pub m : ℕ → Node V
  pub hmap : Map Bytes ℕ
  pub last : ℕ
  pub cap : ℕ

-- What `put` did: whether the key is new, and the entry that it hands to `onEvicted`.
pub record Put (V : Type 0) : Type 0 where
  pub bucket : Bucket V
  pub added : Bool
  pub evicted : Option (Bytes × Option V)

module _ {V : Type 0} where
  unfoldable pub create : ℕ → Bucket V
  create cap = record {
    dlnk = λ i s. 0;
    m = λ i. record { k = []; v = none; expire_at = 0 };
    hmap = [];
    last = 0;
    cap = cap;
  }

  unfoldable pub store_node : ℕ → Node V → (ℕ → Node V) → ℕ → Node V
  store_node i node m j = if nat_beq i j then node else m j

  -- `adjust`: the six assignments in their order.
  unfoldable pub adjust : (idx : ℕ) → (f t : Side) → Bucket V → Bucket V
  adjust idx f t b =
      let d = b.dlnk in
      let d1 = link (d idx t) f (d idx f) d in
      let d2 = link (d1 idx f) t (d1 idx t) d1 in
      let d3 = link idx f 0 d2 in
      let d4 = link idx t (d3 0 t) d3 in
      let d5 = link (d4 0 t) f idx d4 in
      let d6 = link 0 t idx d5 in if nat_beq (d idx f) 0 then b else record b { dlnk = d6 }

  -- The key is there: new value and expiry, and to the head of the list.
  unfoldable pub put_update : ℕ → Bytes → Option V → ℕ → Bucket V → Put V
  put_update idx key val expire_at b = record {
    bucket =
        adjust idx p n (record b {
          m = store_node idx (record (b.m idx) { v = val; expire_at = expire_at }) b.m;
        });
    added = false;
    evicted = none;
  }

  -- The arrays are full: the tail's node is reused.
  unfoldable pub put_replace : Bytes → Option V → ℕ → Bucket V → Put V
  put_replace key val expire_at b =
      let tail = b.dlnk 0 p in
      record {
        bucket = adjust tail p n (record b {
          m = store_node tail (record { k = key; v = val; expire_at = expire_at }) b.m;
          hmap = insert key tail (delete (b.m tail).k b.hmap);
        });
        added = true;
        evicted =
            if Int64.lt 0 (b.m tail).expire_at then some ((b.m tail).k, (b.m tail).v) else none;
      }

  -- A fresh node becomes the head.
  unfoldable pub put_fresh : Bytes → Option V → ℕ → Bucket V → Put V
  put_fresh key val expire_at b =
      let new_last = (b.last + 1) % 2 ^ 16 in
      let d = b.dlnk in
      let d1 =
        if nat_beq (length b.hmap) 0 then link 0 p new_last d else link (d 0 n) p new_last d in
      let d2 = link new_last p 0 (link new_last n (d1 0 n) d1) in
      record {
        bucket = record {
          dlnk = link 0 n new_last d2;
          m = store_node new_last (record { k = key; v = val; expire_at = expire_at }) b.m;
          hmap = insert key new_last b.hmap;
          last = new_last;
          cap = b.cap;
        };
        added = true;
        evicted = none;
      }

  -- Where `cap+1` wraps to 0 there are no links, and the first new key panics.
  unfoldable pub put : Bytes → Option V → ℕ → Bucket V → Option (Put V)
  put key val expire_at b = elim (lookup key b.hmap) [
    | some idx ↦ some (put_update idx key val expire_at b)
    | none ↦
        if nat_beq b.last b.cap
        then (if nat_beq (b.dlnk 0 p) 0 then none else some (put_replace key val expire_at b))
        else (if nat_beq ((b.cap + 1) % 2 ^ 16) 0
            then none
            else some (put_fresh key val expire_at b))
  ]

  -- `get`: the node, dead or alive, moves to the head.
  unfoldable pub get : Bytes → Bucket V → Option (Node V) × Bucket V
  get key b = elim (lookup key b.hmap) [
    | none ↦ (none, b)
    | some idx ↦ (some (b.m idx), adjust idx p n b)
  ]

  -- `del`: the node with the expiry that it had; it is marked and moves to the tail.
  unfoldable pub del : Bytes → Bucket V → Option (Node V) × Bucket V
  del key b = elim (lookup key b.hmap) [
    | none ↦ (none, b)
    | some idx ↦
        if Int64.lt 0 (b.m idx).expire_at
        then (
          some (b.m idx),
          adjust idx n p (record b { m = store_node idx (record (b.m idx) { expire_at = 0 }) b.m }),
        )
        else (none, b)
  ]

  -- The nodes that `walk` shows to a walker that never stops it, from index `idx` on. A list without
  -- a cycle has at most `cap` nodes, so `cap + 1` rounds reach its end.
  unfoldable pub walk_from : ℕ → (idx : ℕ) → Bucket V → List (Node V)
  walk_from zero idx b = []
  walk_from (suc fuel) idx b =
      let rest = walk_from fuel (b.dlnk idx n) b in
      if nat_beq idx 0
      then []
      else (if Int64.lt 0 (b.m idx).expire_at then b.m idx ∷ rest else rest)

  unfoldable pub walk : Bucket V → Option (List (Node V))
  walk b =
      if nat_beq ((b.cap + 1) % 2 ^ 16) 0 then none else some (walk_from (b.cap + 1) (b.dlnk 0 n) b)
