-- ===== src/Store/Lru2/Service/Totality.antt =====
-- What one call leaves of a store of lru2.go.
use go.Common.{
  ℕ, ◌≤◌, ◌≡◌, inl, inr, refl, ◌∙◌, Option, none, some, List, [], ◌∷◌, arith, get_elem?, Bytes,
  bytes_eq, Bool-cases, ◌&&◌,
}
use go.Common.Bits.{bit_and-le}
use go.Common.Int64
use go.Store.Lru2.Bucket
use go.Store.Lru2.Bucket.{Bucket, Node}
use go.Store.Lru2.Mask.{hash_bkrd}
use go.Store.Lru2.Service.{
  Levels, Lru2Store, store_levels, log, bucket_index, put_first, put_second, get_second, get_first,
  get_fallback, get, delete_at, delete, delete_all, set_with_expiration,
}
use go.Store.Lru2.Service.Standing.{
  IsStanding, AreLevels, put-IsLevel, get-IsLevel, del-IsLevel, bucket-IsStanding,
  store_levels-IsStanding,
}

module _ {V : Type 0} where
  -- A store in order, with the given mask.
  abbrev pub IsOn : ℕ → Lru2Store V → Type 0
  IsOn mask s = IsStanding s × (s.mask ≡ mask)

  -- A call that answers, and leaves a store in order.
  abbrev pub Answers : {R : Type 0} → ℕ → Option (R × Lru2Store V) → Type 0
  Answers {R} mask out = (answer : R × Lru2Store V) × (out ≡ some answer) × IsOn mask answer.1

  abbrev pub Leaves : ℕ → Option (Lru2Store V) → Type 0
  Leaves mask out = (s' : Lru2Store V) × (out ≡ some s') × IsOn mask s'

  index-le : (key : Bytes) (s : Lru2Store V) → bucket_index key s ≤ s.mask
  unfolding bucket_index
  index-le key s = bit_and-le s.mask (hash_bkrd key) s.mask (omega arith)

  log-IsOn :
      (e : Option (Bytes × Option V)) (s : Lru2Store V) → IsStanding s → IsOn s.mask (log e s)
  log-IsOn none s v = (v, refl)
  log-IsOn (some e) s v = (record { levels = v.levels; masked = v.masked }, refl)

  module _ (key : Bytes) (idx : ℕ) (s : Lru2Store V) (le : idx ≤ s.mask) (v : IsStanding s) where
    put_first-Leaves : (val : Option V) (e : ℕ) → Leaves s.mask (put_first key val e idx s)
    unfolding put_first
    put_first-Leaves val e =
        let (l, here, h) = bucket-IsStanding idx s v le in
        let (q, done, first) = put-IsLevel key val e l.first h.0 in
        let l' : Levels V = record l { first = q.bucket } in
        let v' = store_levels-IsStanding idx l' s (first, h.1) v in
        rw (here, done, put_first) (_, refl, log-IsOn q.evicted (store_levels idx l' s) v')

    put_second-Leaves : (val : Option V) (e : ℕ) → Leaves s.mask (put_second key val e idx s)
    unfolding put_second
    put_second-Leaves val e =
        let (l, here, h) = bucket-IsStanding idx s v le in
        let (q, done, second) = put-IsLevel key val e l.second h.1 in
        let l' : Levels V = record l { second = q.bucket } in
        let v' = store_levels-IsStanding idx l' s (h.0, second) v in
        rw (here, done, put_second) (_, refl, log-IsOn q.evicted (store_levels idx l' s) v')

    delete_at-Answers : Answers s.mask (delete_at key idx s)
    unfolding delete_at
    delete_at-Answers =
        let (l, here, h) = bucket-IsStanding idx s v le in
        let l' : Levels V = record {
          first = (Bucket.del key l.first).1;
          second = (Bucket.del key l.second).1;
        } in
        let v' =
          store_levels-IsStanding idx l' s
            (del-IsLevel key l.first h.0, del-IsLevel key l.second h.1) v in
        rw (here, delete_at) (_, refl, log-IsOn _ (store_levels idx l' s) v')

    get_second-Answers : (later : ℕ) → Answers s.mask (get_second later key idx s)
    unfolding get_second
    get_second-Answers later =
        let (l, here, h) = bucket-IsStanding idx s v le in
        let l' : Levels V = record l { second = (Bucket.get key l.second).1 } in
        let v' = store_levels-IsStanding idx l' s (h.0, get-IsLevel key l.second h.1) v in
        rw (here, get_second) (_, refl, (v', refl))

    get_first-Answers : (now : ℕ) (node : Node V) → Answers s.mask (get_first now key idx node s)
    unfolding get_first
    get_first-Answers now node =
        elim (Bool-cases (Int64.lt 0 node.expire_at && Int64.le node.expire_at now)) [
          | inl stale ↦
              let ((found, s'), done, on) = delete_at-Answers in
              rw (stale, done, get_first) (_, refl, on)
          | inr alive ↦
              let (s', done, on) = put_second-Leaves node.v node.expire_at in
              rw (alive, done, get_first) (_, refl, on)
        ]

  module _ (key : Bytes) (idx : ℕ) (s : Lru2Store V) (le : idx ≤ s.mask) (v : IsStanding s) where
    -- After the second level has answered.
    fallback_after :
        (now later : ℕ) (node : Option (Node V)) (s' : Lru2Store V)
        → get_second later key idx s ≡ some (node, s')
        → IsOn s.mask s'
        → Answers s.mask (get_fallback now later key idx s)
    unfolding get_fallback
    fallback_after now later none s' done on = rw (done, get_fallback) (_, refl, on)
    fallback_after now later (some x) s' done on =
        elim (Bool-cases (Int64.lt 0 x.expire_at && Int64.le x.expire_at now)) [
          | inr alive ↦ rw (done, alive, get_fallback) (_, refl, on)
          | inl stale ↦
              let ((found, s''), done', on') =
                delete_at-Answers key idx s' (omega (arith, on.1, le)) on.0 in
              rw (done, stale, done', get_fallback) (_, refl, (on'.0, on'.1 ∙ on.1))
        ]

    get_fallback-Answers : (now later : ℕ) → Answers s.mask (get_fallback now later key idx s)
    get_fallback-Answers now later =
        let ((node, s'), done, on) = get_second-Answers key idx s le v later in
        fallback_after now later node s' done on

  -- Where the key's bucket is `l`, of which the first level has answered.
  get_after :
      (now later : ℕ) (key : Bytes) (s : Lru2Store V) (l : Levels V) (node : Option (Node V))
      → IsStanding s
      → get_elem? s.caches (bucket_index key s) ≡ some l
      → AreLevels l
      → (Bucket.del key l.first).0 ≡ node
      → Answers s.mask (get now later key s)
  unfolding get
  get_after now later key s l none v here h held =
      let idx = bucket_index key s in
      let le = index-le key s in
      let l' : Levels V = record l { first = (Bucket.del key l.first).1 } in
      let s' = store_levels idx l' s in
      let v' = store_levels-IsStanding idx l' s (del-IsLevel key l.first h.0, h.1) v in
      let (answer, done, on) = get_fallback-Answers key idx s' le v' now later in
      (answer, ground arith, on)
  get_after now later key s l (some node) v here h held =
      let idx = bucket_index key s in
      let le = index-le key s in
      let l' : Levels V = record l { first = (Bucket.del key l.first).1 } in
      let s' = store_levels idx l' s in
      let v' = store_levels-IsStanding idx l' s (del-IsLevel key l.first h.0, h.1) v in
      let (answer, done, on) = get_first-Answers key idx s' le v' now node in
      (answer, ground arith, on)

  pub get-Answers :
      (now later : ℕ) (key : Bytes) (s : Lru2Store V)
      → IsStanding s
      → Answers s.mask (get now later key s)
  get-Answers now later key s v =
      let (l, here, h) = bucket-IsStanding (bucket_index key s) s v (index-le key s) in
      get_after now later key s l (Bucket.del key l.first).0 v here h refl

  pub set-Leaves :
      (now : ℕ) (key : Bytes) (val : Option V) (expiration : ℕ) (s : Lru2Store V)
      → IsStanding s
      → Leaves s.mask (set_with_expiration now key val expiration s)
  unfolding set_with_expiration
  set-Leaves now key val expiration s v =
      put_first-Leaves key (bucket_index key s) s (index-le key s) v val _

  pub delete-Answers :
      (key : Bytes) (s : Lru2Store V) → IsStanding s → Answers s.mask (delete key s)
  unfolding delete
  delete-Answers key s v = delete_at-Answers key (bucket_index key s) s (index-le key s) v

  pub delete_all-Leaves :
      (ks : List Bytes) (s : Lru2Store V) → IsStanding s → Leaves s.mask (delete_all ks s)
  unfolding delete_all
  delete_all-Leaves [] s v = (s, refl, (v, refl))
  delete_all-Leaves (key ∷ ks) s v =
      let ((found, s'), done, on) = delete-Answers key s v in
      let (s'', done', on') = delete_all-Leaves ks s' on.0 in
      rw (done, done') (s'', refl, (on'.0, on'.1 ∙ on.1))
