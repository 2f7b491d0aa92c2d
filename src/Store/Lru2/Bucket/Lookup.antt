-- ===== src/Store/Lru2/Bucket/Lookup.antt =====
-- What a bucket of lru2.go holds for a key, before and after `put`, `get` and `del`.
use go.Common.{
  ℕ, ◌+◌, ◌%◌, ◌^◌, ◌≤◌, ◌<◌, ◌≡◌, inl, inr, refl, ap, ◌∙◌, false, Option, none, some, arith,
  nat_beq, if◌then◌else◌, Bytes, bytes_beq, bytes_beq_iff, bytes_eq, Bool-cases, Option-cases,
}
use go.Common.Map.{Map, lookup, insert, delete, lookup-insert, lookup-delete}
use go.Store.Lru2.Bucket.{
  Side, Node, Bucket, p, n, create, store_node, adjust, put_update, put_replace, put_fresh,
}

lookup-swap :
    (key old k : Bytes) (i : ℕ) (h : Map Bytes ℕ)
    → lookup k (insert key i (delete old h))
      ≡ (if bytes_beq key k then some i else (if bytes_beq old k then none else lookup k h))
lookup-swap key old k i h =
    lookup-insert key k i (delete old h)
    ∙ ap (λ (o : Option ℕ). if bytes_beq key k then some i else o) (lookup-delete old k h)

module _ {V : Type 0} where
  -- The value and the expiry under a key, whether alive or marked as deleted.
  unfoldable pub peek : Bytes → Bucket V → Option (Option V × ℕ)
  peek key b = elim (lookup key b.hmap) [
    | none ↦ none
    | some idx ↦ some ((b.m idx).v, (b.m idx).expire_at)
  ]

  -- The keys and the nodes in use correspond.
  pub record IsIndexed (b : Bucket V) : Type 0 where
    pub room : b.last ≤ b.cap
    pub small : b.cap + 1 < 2 ^ 16
    pub named :
        (k : Bytes) (i : ℕ) → lookup k b.hmap ≡ some i → (1 ≤ i) × (i ≤ b.last) × ((b.m i).k ≡ k)
    pub found : (i : ℕ) → 1 ≤ i → i ≤ b.last → lookup (b.m i).k b.hmap ≡ some i

  pub adjust-m : (idx : ℕ) (f t : Side) (b : Bucket V) → (adjust idx f t b).m ≡ b.m
  unfolding adjust
  adjust-m idx f t b = elim (Bool-cases (nat_beq (b.dlnk idx f) 0)) [
    | inl e ↦ rw (e, adjust)
    | inr e ↦ rw (e, adjust)
  ]

  adjust-hmap : (idx : ℕ) (f t : Side) (b : Bucket V) → (adjust idx f t b).hmap ≡ b.hmap
  unfolding adjust
  adjust-hmap idx f t b = elim (Bool-cases (nat_beq (b.dlnk idx f) 0)) [
    | inl e ↦ rw (e, adjust)
    | inr e ↦ rw (e, adjust)
  ]

  pub adjust-last : (idx : ℕ) (f t : Side) (b : Bucket V) → (adjust idx f t b).last ≡ b.last
  unfolding adjust
  adjust-last idx f t b = elim (Bool-cases (nat_beq (b.dlnk idx f) 0)) [
    | inl e ↦ rw (e, adjust)
    | inr e ↦ rw (e, adjust)
  ]

  pub adjust-cap : (idx : ℕ) (f t : Side) (b : Bucket V) → (adjust idx f t b).cap ≡ b.cap
  unfolding adjust
  adjust-cap idx f t b = elim (Bool-cases (nat_beq (b.dlnk idx f) 0)) [
    | inl e ↦ rw (e, adjust)
    | inr e ↦ rw (e, adjust)
  ]

  -- Relinking changes no key, node or size.
  pub adjust-IsIndexed :
      (idx : ℕ) (f t : Side) (b : Bucket V) → IsIndexed b → IsIndexed (adjust idx f t b)
  adjust-IsIndexed idx f t b v = record {
    room = rw (adjust-last, adjust-cap) v.room;
    small = rw adjust-cap v.small;
    named = rw (adjust-hmap, adjust-last, adjust-m) v.named;
    found = rw (adjust-hmap, adjust-last, adjust-m) v.found;
  }

  pub peek-adjust :
      (key : Bytes) (idx : ℕ) (f t : Side) (b : Bucket V) → peek key (adjust idx f t b) ≡ peek key b
  unfolding peek
  peek-adjust key idx f t b = rw (adjust-hmap, adjust-m)

  pub create-IsIndexed : (cap : ℕ) → cap + 1 < 2 ^ 16 → IsIndexed (create {V = V} cap)
  unfolding create lookup
  create-IsIndexed cap small = record {
    room = omega arith;
    small = small;
    named = λ k i e. absurd (ground arith);
    found = λ i lo hi. absurd (omega arith);
  }

  -- One node overwritten in place, under the same key.
  pub overwrite-IsIndexed :
      (key : Bytes) (idx : ℕ) (node : Node V) (b : Bucket V)
      → IsIndexed b
      → node.k ≡ (b.m idx).k
      → IsIndexed (record b { m = store_node idx node b.m })
  unfolding store_node
  overwrite-IsIndexed key idx node b v same = record {
    room = v.room;
    small = v.small;
    named = λ k i e. ground (arith, v.named k i e);
    found = λ i lo hi. ground (arith, v.found i lo hi);
  }

  -- A node overwritten under its own key changes what that key has, and nothing else.
  pub peek-overwrite :
      (key k : Bytes) (idx : ℕ) (node : Node V) (b : Bucket V)
      → IsIndexed b
      → lookup key b.hmap ≡ some idx
      → peek k (record b { m = store_node idx node b.m })
        ≡ (if bytes_beq key k then some (node.v, node.expire_at) else peek k b)
  unfolding peek store_node
  peek-overwrite key k idx node b v there = elim (Bool-cases (bytes_beq key k)) [
    | inl same ↦ let e = (bytes_beq_iff key k).0 same in rw (same, ← e, peek, there) (ground arith)
    | inr other ↦ elim (Option-cases (lookup k b.hmap)) [
      | inl gone ↦ rw (other, peek, gone)
      | inr (i, here) ↦
          let apart : nat_beq idx i ≡ false =
            ground (arith, v.named k i here, v.named key idx there, bytes_beq_iff key k) in
          rw (other, peek, here, apart)
    ]
  ]

  -- A node given to another key.
  peek-rekey :
      (key k : Bytes) (idx : ℕ) (node : Node V) (b : Bucket V)
      → IsIndexed b
      → node.k ≡ key
      → peek k (record b {
        m = store_node idx node b.m;
        hmap = insert key idx (delete (b.m idx).k b.hmap);
      })
        ≡ (if bytes_beq key k
            then some (node.v, node.expire_at)
            else (if bytes_beq (b.m idx).k k then none else peek k b))
  unfolding peek store_node
  peek-rekey key k idx node b v renamed = elim (Option-cases (lookup k b.hmap)) [
    | inl gone ↦ ground (arith, lookup-swap key (b.m idx).k k idx b.hmap)
    | inr (i, here) ↦ ground (
      arith,
      lookup-swap key (b.m idx).k k idx b.hmap,
      v.named k i here,
      bytes_beq_iff (b.m idx).k k,
    )
  ]

  module _ (key : Bytes) (val : Option V) (expire_at : ℕ) (b : Bucket V) (v : IsIndexed b) where
    pub replace-IsIndexed :
        lookup key b.hmap ≡ none
        → 1 ≤ b.dlnk 0 p
        → b.dlnk 0 p ≤ b.last
        → IsIndexed (put_replace key val expire_at b).bucket
    unfolding put_replace store_node
    replace-IsIndexed new lo hi =
        let tail = b.dlnk 0 p in
        let old = (b.m tail).k in
        adjust-IsIndexed _ _ _ _ (record {
          room = v.room;
          small = v.small;
          named = λ k i e. ground (
            arith,
            lookup-swap key old k tail b.hmap,
            v.named k i,
            bytes_beq_iff key k,
            bytes_beq_iff old k,
          );
          found = λ i l h. elim (Bool-cases (nat_beq tail i)) [
            | inl here ↦
                rw here (ground (arith, lookup-swap key old key tail b.hmap, bytes_beq_iff key key))
            | inr other ↦ rw other (
                ground (
                  arith,
                  lookup-swap key old (b.m i).k tail b.hmap,
                  v.found i l h,
                  v.found tail lo hi,
                  bytes_beq_iff key (b.m i).k,
                  bytes_beq_iff old (b.m i).k,
                ))
          ];
        })

    pub fresh-IsIndexed :
        lookup key b.hmap ≡ none → b.last < b.cap → IsIndexed (put_fresh key val expire_at b).bucket
    unfolding put_fresh store_node
    fresh-IsIndexed new room = record {
      room = ground (arith, v.small);
      small = v.small;
      named = λ k i e. ground (
        arith,
        v.small,
        v.named k i,
        lookup-insert key k ((b.last + 1) % 2 ^ 16) b.hmap,
        bytes_beq_iff key k,
      );
      found = λ i lo hi. ground (
        arith,
        v.small,
        lookup-insert key (b.m i).k ((b.last + 1) % 2 ^ 16) b.hmap,
        lookup-insert key key ((b.last + 1) % 2 ^ 16) b.hmap,
        v.found i lo,
        bytes_beq_iff key (b.m i).k,
        bytes_beq_iff key key,
      );
    }

    pub peek-put_update :
        (idx : ℕ)
        → lookup key b.hmap ≡ some idx
        → IsIndexed (put_update idx key val expire_at b).bucket
          × ((k : Bytes)
              → peek k (put_update idx key val expire_at b).bucket
                ≡ (if bytes_beq key k then some (val, expire_at) else peek k b))
    unfolding put_update
    peek-put_update idx there = (
      adjust-IsIndexed idx p n _ (overwrite-IsIndexed key idx _ b v refl),
      λ k. peek-adjust k idx p n _ ∙ peek-overwrite key k idx _ b v there,
    )

    pub peek-put_replace :
        lookup key b.hmap ≡ none
        → 1 ≤ b.dlnk 0 p
        → b.dlnk 0 p ≤ b.last
        → (k : Bytes)
        → peek k (put_replace key val expire_at b).bucket ≡ (
            if bytes_beq key k
            then some (val, expire_at)
            else (if bytes_beq (b.m (b.dlnk 0 p)).k k then none else peek k b))
    unfolding put_replace
    peek-put_replace new lo hi k = peek-adjust k (b.dlnk 0 p) p n _ ∙ replaced k
      where
        replaced :
            (k : Bytes)
            → peek k (record b {
              m = store_node (b.dlnk 0 p) (record { k = key; v = val; expire_at = expire_at }) b.m;
              hmap = insert key (b.dlnk 0 p) (delete (b.m (b.dlnk 0 p)).k b.hmap);
            })
              ≡ (if bytes_beq key k
                  then some (val, expire_at)
                  else (if bytes_beq (b.m (b.dlnk 0 p)).k k then none else peek k b))
        replaced k = peek-rekey key k (b.dlnk 0 p) _ b v refl

    pub peek-put_fresh :
        lookup key b.hmap ≡ none
        → b.last < b.cap
        → (k : Bytes)
        → peek k (put_fresh key val expire_at b).bucket
          ≡ (if bytes_beq key k then some (val, expire_at) else peek k b)
    unfolding put_fresh peek store_node
    peek-put_fresh new room k = elim (Option-cases (lookup k b.hmap)) [
      | inl gone ↦ ground (arith, lookup-insert key k ((b.last + 1) % 2 ^ 16) b.hmap)
      | inr (i, here) ↦
          ground
            (arith, v.small, lookup-insert key k ((b.last + 1) % 2 ^ 16) b.hmap, v.named k i here)
    ]
