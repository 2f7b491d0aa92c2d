-- ===== src/Store/Lru2/Service/Reads.antt =====
-- What `GetValue` of lru2.go reads after `SetWithExpiration`.
use go.Common.{
  ℕ, zero, suc, ◌+◌, ◌^◌, ◌<◌, ◌≡◌, inl, inr, refl, true, Option, some, List, [], ◌∷◌, arith,
  if◌then◌else◌, Bytes, bytes_beq_iff, bytes_eq, Option-cases, get_elem?, set,
}
use go.Common.Int64
use go.Common.Map.{lookup}
use go.Store.Lru2.Bucket
use go.Store.Lru2.Bucket.{Node, Bucket, Put}
use go.Store.Lru2.Bucket.Lookup.{peek, IsIndexed}
use go.Store.Lru2.Bucket.Calls.{HasTail, put-after_put}
use go.Store.Lru2.Service.{
  Levels, Lru2Store, bucket_index, put_first, set_with_expiration, get_value, peek_alive,
  store_levels,
}

module _ {V : Type 0} where
  get_elem?-set_self :
      (ls : List (Levels V)) (i : ℕ) (l l' : Levels V)
      → get_elem? ls i ≡ some l
      → get_elem? (set ls i l') i ≡ some l'
  get_elem?-set_self [] i l l' e = ground arith
  get_elem?-set_self (x ∷ ls) zero l l' e = refl
  get_elem?-set_self (x ∷ ls) (suc i) l l' e = get_elem?-set_self ls i l l' e

  -- An entry of the first level that is alive is what `GetValue` reads.
  pub peek_alive-of_peek :
      (now : ℕ) (key : Bytes) (b : Bucket V) (v : Option V) (e : ℕ)
      → peek key b ≡ some (v, e)
      → Int64.lt 0 e ≡ true
      → Int64.lt now e ≡ true
      → (node : Node V) × (peek_alive now key b ≡ some node) × (node.v ≡ v)
  unfolding peek
  peek_alive-of_peek now key b v e held pos live = elim (Option-cases (lookup key b.hmap)) [
    | inl gone ↦ absurd (ground arith)
    | inr (idx, there) ↦ (b.m idx, ground arith, ground arith)
  ]

  -- The log and a store into one bucket leave that bucket's levels to be read back.
  pub put_first-levels :
      (key : Bytes) (val : Option V) (e idx : ℕ) (s : Lru2Store V) (l : Levels V) (q : Put V)
      → get_elem? s.caches idx ≡ some l
      → Bucket.put key val e l.first ≡ some q
      → (s' : Lru2Store V) × (put_first key val e idx s ≡ some s')
        × (get_elem? s'.caches idx ≡ some (record l { first = q.bucket }))
        × (s'.mask ≡ s.mask)
  unfolding put_first
  put_first-levels key val e idx s l q here done = elim (Option-cases q.evicted) [
    | inl quiet ↦ (
      store_levels idx (record l { first = q.bucket }) s,
      rw (here, done, quiet, put_first),
      get_elem?-set_self s.caches idx l _ here,
      refl,
    )
    | inr (entry, told) ↦ (
      record s {
        caches = set s.caches idx (record l { first = q.bucket });
        evicted = if s.notify then entry ∷ s.evicted else s.evicted;
      },
      rw (here, done, told, put_first),
      get_elem?-set_self s.caches idx l _ here,
      refl,
    )
  ]

  -- `SetWithExpiration` with a positive duration whose end fits an int64 succeeds where the key's
  -- bucket exists and is well formed, and until that end `GetValue` of the key reads the new value.
  pub set-get_value :
      (now later : ℕ) (key : Bytes) (val : Option V) (expiration : ℕ) (s : Lru2Store V)
      (l : Levels V)
      → get_elem? s.caches (bucket_index key s) ≡ some l
      → IsIndexed l.first
      → HasTail l.first
      → 0 < expiration
      → now + expiration < 2 ^ 63
      → later < now + expiration
      → (s' : Lru2Store V) × (set_with_expiration now key val expiration s ≡ some s')
        × ((node : Node V) × (get_value later key s' ≡ some (some node)) × (node.v ≡ val))
  unfolding set_with_expiration get_value bucket_index
  set-get_value now later key val expiration s l here v tail pos fits live =
      let idx = bucket_index key s in
      let e = now + expiration in
      let (q, done, v', held) = put-after_put key val e l.first v tail in
      let (s', stored, level, mask) = put_first-levels key val e idx s l q here done in
      let own : peek key q.bucket ≡ some (val, e) =
        ground (arith, held key, bytes_beq_iff key key) in
      let (node, read, value) =
        peek_alive-of_peek later key q.bucket val e own (ground arith) (ground arith) in
      let expiry : (if Int64.lt 0 expiration then Int64.add now expiration else 0) ≡ e =
        ground arith in
      (s', rw expiry stored, (node, rw (mask, level, read), value))
