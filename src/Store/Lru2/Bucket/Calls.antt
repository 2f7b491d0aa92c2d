-- ===== src/Store/Lru2/Bucket/Calls.antt =====
-- `put`, `get` and `del` of a bucket of lru2.go against what the bucket holds for each key.
use go.Common.{
  ◌+◌, ◌%◌, ◌^◌, ℕ, ◌≤◌, ◌<◌, ◌≡◌, inl, inr, refl, ◌∙◌, Bool, true, false, not, Option, ◌&&◌, none,
  some, arith, nat_beq, if◌then◌else◌, Bytes, bytes_beq, bytes_beq_iff, bytes_eq, Bool-cases,
  Option-cases, is_some,
}
use go.Common.Int64
use go.Common.Map.{lookup}
use go.Store.Lru2.Bucket.{
  Node, Bucket, p, n, Put, put_update, put_replace, put_fresh, put, get, del,
}
use go.Store.Lru2.Bucket.Lookup.{
  peek, IsIndexed, peek-adjust, adjust-IsIndexed, overwrite-IsIndexed, peek-overwrite,
  peek-put_update, peek-put_replace, peek-put_fresh, replace-IsIndexed, fresh-IsIndexed,
}

module _ {V : Type 0} where
  -- In a full bucket the list has a tail.
  abbrev pub HasTail : Bucket V → Type 0
  HasTail b = b.last ≡ b.cap → (1 ≤ b.dlnk 0 p) × (b.dlnk 0 p ≤ b.last)

  -- A new key in a full bucket takes the place of the tail's key.
  abbrev pub displaces : Bytes → Bytes → Bucket V → Bool
  displaces key k b =
      not (is_some (lookup key b.hmap))
      && (nat_beq b.last b.cap && bytes_beq (b.m (b.dlnk 0 p)).k k)

  abbrev pub after_put : Bytes → Option V → ℕ → Bytes → Bucket V → Option (Option V × ℕ)
  after_put key val expire_at k b =
      if bytes_beq key k
      then some (val, expire_at)
      else (if displaces key k b then none else peek k b)

  -- On a bucket whose keys and nodes correspond, and whose list has a tail if the bucket is full,
  -- `put` does not panic, the keys and nodes still correspond, the key has the new value and expiry,
  -- and every other key has what it had, except the tail's key where a new key meets a full bucket.
  pub put-after_put :
      (key : Bytes) (val : Option V) (expire_at : ℕ) (b : Bucket V)
      → IsIndexed b
      → HasTail b
      → (q : Put V) × (put key val expire_at b ≡ some q)
        × IsIndexed q.bucket
        × ((k : Bytes) → peek k q.bucket ≡ after_put key val expire_at k b)
  unfolding put
  put-after_put key val expire_at b v tail = elim (Option-cases (lookup key b.hmap)) [
    | inr (idx, there) ↦
        let (v', held) = peek-put_update key val expire_at b v idx there in
        (put_update idx key val expire_at b, rw (there, put), v', λ k. rw there (held k))
    | inl new ↦ elim (Bool-cases (nat_beq b.last b.cap)) [
      | inl full ↦
          let (lo, hi) = tail (ground arith) in
          let some_tail : nat_beq (b.dlnk 0 p) 0 ≡ false = ground arith in
          (
            put_replace key val expire_at b,
            rw (new, full, some_tail, put),
            replace-IsIndexed key val expire_at b v new lo hi,
            λ k. rw (new, full) (peek-put_replace key val expire_at b v new lo hi k),
          )
      | inr room ↦
          let lt : b.last < b.cap = ground (arith, v.room) in
          let linked : nat_beq ((b.cap + 1) % 2 ^ 16) 0 ≡ false = ground (arith, v.small) in
          (
            put_fresh key val expire_at b,
            rw (new, room, linked, put),
            fresh-IsIndexed key val expire_at b v new lt,
            λ k. rw (new, room) (peek-put_fresh key val expire_at b v new lt k),
          )
    ]
  ]

  abbrev pub shown : Option (Node V) → Option (Option V × ℕ)
  shown none = none
  shown (some node) = some (node.v, node.expire_at)

  shown-get : (key : Bytes) (b : Bucket V) → shown (get key b).0 ≡ peek key b
  unfolding get peek
  shown-get key b = ground arith

  -- `get` keeps the correspondence, returns what the key has, and changes what no key has.
  pub get-IsIndexed :
      (key : Bytes) (b : Bucket V)
      → IsIndexed b
      → IsIndexed (get key b).1
        × (shown (get key b).0 ≡ peek key b)
        × ((k : Bytes) → peek k (get key b).1 ≡ peek k b)
  unfolding get
  get-IsIndexed key b v = elim (Option-cases (lookup key b.hmap)) [
    | inl gone ↦ rw (gone, get) (v, shown-miss gone, λ k. refl)
    | inr (idx, there) ↦
        rw (there, get)
          (adjust-IsIndexed idx p n b v, shown-hit idx there, λ k. peek-adjust k idx p n b)
  ]
    where
      shown-miss : lookup key b.hmap ≡ none → none ≡ peek key b
      shown-miss gone = rw (gone, get) at (shown-get key b)

      shown-hit :
          (idx : ℕ)
          → lookup key b.hmap ≡ some idx
          → some ((b.m idx).v, (b.m idx).expire_at) ≡ peek key b
      shown-hit idx there = rw (there, get) at (shown-get key b)

  -- What `del` leaves of an entry: one that is alive gets the expiry 0, which marks it as deleted.
  abbrev pub killed : Option (Option V × ℕ) → Option (Option V × ℕ)
  killed none = none
  killed (some (v, e)) = if Int64.lt 0 e then some (v, 0) else some (v, e)

  -- What `del` returns of an entry: one that is alive.
  abbrev pub alive : Option (Option V × ℕ) → Option (Option V × ℕ)
  alive none = none
  alive (some (v, e)) = if Int64.lt 0 e then some (v, e) else none

  peek-hit :
      (key : Bytes) (idx : ℕ) (b : Bucket V)
      → lookup key b.hmap ≡ some idx
      → peek key b ≡ some ((b.m idx).v, (b.m idx).expire_at)
  unfolding peek
  peek-hit key idx b there = rw (there, peek)

  peek-miss : (key : Bytes) (b : Bucket V) → lookup key b.hmap ≡ none → peek key b ≡ none
  unfolding peek
  peek-miss key b gone = rw (gone, peek)

  same-key : (key k : Bytes) (b : Bucket V) → bytes_beq key k ≡ true → peek k b ≡ peek key b
  same-key key k b e = rw ((bytes_beq_iff key k).0 e)

  -- `del` keeps the correspondence, returns what the key has if that is alive, marks it as deleted,
  -- and changes what no other key has.
  pub del-IsIndexed :
      (key : Bytes) (b : Bucket V)
      → IsIndexed b
      → IsIndexed (del key b).1
        × (shown (del key b).0 ≡ alive (peek key b))
        × ((k : Bytes)
            → peek k (del key b).1 ≡ (if bytes_beq key k then killed (peek k b) else peek k b))
  unfolding del
  del-IsIndexed key b v = elim (Option-cases (lookup key b.hmap)) [
    | inl gone ↦
        let m = peek-miss key b gone in
        rw (gone, del) (v, ground arith, λ k. ground (arith, same-key key k b))
    | inr (idx, there) ↦
        let h = peek-hit key idx b there in
        elim (Bool-cases (Int64.lt 0 (b.m idx).expire_at)) [
          | inr dead ↦
              rw (there, dead, del) (v, ground arith, λ k. ground (arith, same-key key k b))
          | inl live ↦
              rw (there, live, del)
                (
                  adjust-IsIndexed idx n p _ (overwrite-IsIndexed key idx _ b v refl),
                  ground arith,
                  λ k.
                      peek-adjust k idx n p _
                      ∙ peek-overwrite key k idx _ b v there
                      ∙ ground (arith, same-key key k b),
                )
        ]
  ]
