-- ===== src/Store/Lru2/Service/Stale.antt =====
-- What the second level of lru2.go may still hold of a key that the first level has a newer value of.
use go.Common.{
  ℕ, ◌^◌, ◌<◌, ◌≡◌, ◌≢◌, inl, inr, refl, ◌∙◌, nat_beq_iff, Option, none, some, arith, if◌then◌else◌,
  Bytes, bytes_beq_iff, bytes_eq, Option-cases, get_elem?,
}
use go.Common.Int64
use go.Common.Map.{lookup}
use go.Store.Lru2.Bucket.{Node, Bucket, p}
use go.Store.Lru2.Bucket.Lookup.{peek, IsIndexed}
use go.Store.Lru2.Bucket.Calls.{HasTail, after_put, put-after_put}
use go.Store.Lru2.Service.{
  Levels, Lru2Store, bucket_index, set_with_expiration, get_value, peek_alive,
}
use go.Store.Lru2.Service.Reads.{peek_alive-of_peek, put_first-levels}

module _ {V : Type 0} where
  peek_alive-of_none :
      (now : ℕ) (key : Bytes) (b : Bucket V) → peek key b ≡ none → peek_alive now key b ≡ none
  unfolding peek
  peek_alive-of_none now key b gone = ground arith

  -- A bucket whose first level is full, with the key at its tail and with no place of another key.
  pub record IsAboutToDrop (key other : Bytes) (b : Bucket V) : Type 0 where
    pub indexed : IsIndexed b
    pub tailed : HasTail b
    pub full : b.last ≡ b.cap
    pub tail : (b.m (b.dlnk 0 p)).k ≡ key
    pub fresh : lookup other b.hmap ≡ none

  displaced :
      (other key : Bytes) (val : Option V) (expiry : ℕ) {shown : Option V × ℕ} (b : Bucket V)
      → IsAboutToDrop key other b
      → peek key b ≡ some shown
      → after_put other val expiry key b ≡ none
  unfolding peek
  displaced other key val expiry b d held = elim (Option-cases (lookup key b.hmap)) [
    | inl gone ↦ absurd (ground arith)
    | inr (idx, there) ↦
        let apart : other ≢ key = λ same. absurd (ground (arith, rw same at d.fresh)) in
        ground (
          arith,
          bytes_beq_iff other key,
          bytes_beq_iff (b.m (b.dlnk 0 p)).k key,
          d.tail,
          d.full,
          d.fresh,
          nat_beq_iff b.last b.cap,
        )
  ]

  -- `Set` writes to the first level only. Where that level is full with the key at its tail and the
  -- second level has an older value of it that is alive, a `SetWithExpiration` of a key new to the
  -- bucket brings the older value back: `GetValue` reads the newer one before and the older one
  -- after, with no call in between that mentions the key.
  pub stale-read :
      (now later : ℕ) (key other : Bytes) (newer older val : Option V) (e e' expiration : ℕ)
      (s : Lru2Store V) (l : Levels V)
      → get_elem? s.caches (bucket_index key s) ≡ some l
      → bucket_index other s ≡ bucket_index key s
      → IsAboutToDrop key other l.first
      → peek key l.first ≡ some (newer, e)
      → peek key l.second ≡ some (older, e')
      → later < e
      → later < e'
      → e < 2 ^ 63
      → e' < 2 ^ 63
      → ((node : Node V) × (get_value later key s ≡ some (some node)) × (node.v ≡ newer))
        × ((s' : Lru2Store V) × (set_with_expiration now other val expiration s ≡ some s')
            × ((node : Node V) × (get_value later key s' ≡ some (some node)) × (node.v ≡ older)))
  unfolding set_with_expiration get_value bucket_index
  stale-read now later key other newer older val e e' expiration s l here same d first second live
        live' fits fits' =
      let idx = bucket_index key s in
      let expiry = if Int64.lt 0 expiration then Int64.add now expiration else 0 in
      let (q, done, v', held) = put-after_put other val expiry l.first d.indexed d.tailed in
      let (s', stored, level, mask) = put_first-levels other val expiry idx s l q here done in
      let (node, read, value) =
        peek_alive-of_peek later key l.first newer e first (ground arith) (ground arith) in
      let (node', read', value') =
        peek_alive-of_peek later key l.second older e' second (ground arith) (ground arith) in
      let dropped : peek key q.bucket ≡ none =
        held key ∙ displaced other key val expiry l.first d first in
      let gone = peek_alive-of_none later key q.bucket dropped in
      (
        (node, ground arith, value),
        (s', rw same stored, (node', rw (mask, level, gone, read') refl, value')),
      )
