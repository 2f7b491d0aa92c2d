-- ===== src/Store/Lru2/Bucket/Refinement.antt =====
-- `put`, `get` and `del` of a bucket of lru2.go do to the links, the array and the table what the list
-- of nodes asks for.
use go.Common.{
  ℕ, suc, ◌+◌, ◌%◌, ◌^◌, ◌<◌, ◌≡◌, ◌≢◌, refl, sym, ◌∙◌, true, false, List, [], ◌∷◌, ◌++◌, arith,
  nat_beq_iff, Bool-cases, inl, inr, ap, length, length-append, Option, none, some, Bytes, bytes_eq,
  map,
}
use mathlib.Core.List
use go.Common.Map.{Map, lookup, insert, delete}
use go.Store.Lru2.Bucket.{
  Bucket, Node, store_node, adjust, put_update, put_replace, put_fresh, link, n, p, Links,
}
use go.Store.Lru2.Bucket.Lookup.{
  IsIndexed, adjust-m, adjust-last, adjust-IsIndexed, overwrite-IsIndexed, replace-IsIndexed,
  fresh-IsIndexed,
}
use go.Store.Lru2.Bucket.Chain.{
  Seg, has, erase, drop_last, has-erase_self, has-erase_ne, has-append, length-erase, erase-last,
  Seg-last,
}
use go.Store.Lru2.Bucket.Relink.{Fronted, front-Seg}
use go.Store.Lru2.Bucket.Recency.{adjust-head, adjust-tail, first_of}
use go.Store.Lru2.Bucket.Spec.{others}
use go.Store.Lru2.Bucket.Represents.{
  IsOrder, Represents, Listed, map-store_node, store_node_self, find-present, map-drop_last,
}

-- The last node of a list that is not empty.
pub last_on : (d : Links) (xs : List ℕ) → Seg n p d 0 xs 0 → 0 < length xs → has xs (d 0 p) ≡ true
last_on d [] s e = absurd (omega arith)
last_on d (x ∷ xs) s e = Seg-last n p d x xs 0 s.2

lookup_empty : (k : Bytes) (h : Map Bytes ℕ) → length h ≡ 0 → lookup k h ≡ none
unfolding lookup
lookup_empty k [] e = refl
lookup_empty k (x ∷ h) e = absurd (omega arith)

-- An empty table, an empty list.
first_of_empty :
    {V : Type 0} (d : Links) (h : Map Bytes ℕ) (m : ℕ → Node V) (xs : List ℕ)
    → Seg n p d 0 xs 0
    → Listed h m xs
    → length h ≡ 0
    → d 0 n ≡ 0
first_of_empty d h m [] s l e = s.0
first_of_empty d h m (x ∷ xs) s l e =
    absurd (ground (arith, l x (ground (arith, nat_beq_iff x x)), lookup_empty (m x).k h))

reads_head :
    {V : Type 0} (f m : ℕ → Node V) (i : ℕ) (ys : List ℕ) (node : Node V) (nodes : List (Node V))
    → f ≡ m
    → m i ≡ node
    → map m ys ≡ nodes
    → map f (i ∷ ys) ≡ node ∷ nodes
reads_head f m i ys node nodes e e' e'' = ap (λ g. map g (i ∷ ys)) e ∙ rw (e', e'')

module _ {V : Type 0} (b : Bucket V) (xs : List ℕ) (o : IsOrder b xs) where
  abbrev with_nodes : (ℕ → Node V) → Map Bytes ℕ → Bucket V
  with_nodes m h = record b { m = m; hmap = h }

  head-IsOrder :
      (m : ℕ → Node V) (h : Map Bytes ℕ) (i : ℕ)
      → has xs i ≡ true
      → IsOrder (adjust i p n (with_nodes m h)) (i ∷ erase i xs)
  head-IsOrder m h i on =
      let size = adjust-last i p n (with_nodes m h) in
      record {
        chain = adjust-head i (with_nodes m h) xs o.chain on;
        used =
            λ j e. ground (arith, size, o.used i, o.used j, nat_beq_iff i j, has-erase_ne i j xs);
        covers = λ j lo hi. ground (arith, size, o.covers j, nat_beq_iff i j, has-erase_ne i j xs);
        count = omega (arith, size, o.count, length-erase i xs on);
      }

  tail-IsOrder :
      (m : ℕ → Node V) (h : Map Bytes ℕ) (i : ℕ)
      → has xs i ≡ true
      → IsOrder (adjust i n p (with_nodes m h)) (erase i xs ++ i ∷ [])
  tail-IsOrder m h i on =
      let size = adjust-last i n p (with_nodes m h) in
      let split = has-append (erase i xs) (i ∷ []) in
      record {
        chain = adjust-tail i (with_nodes m h) xs o.chain on;
        used = λ j e.
            ground (arith, size, split j, o.used i, o.used j, nat_beq_iff i j, has-erase_ne i j xs);
        covers = λ j lo hi.
            ground (arith, size, split j, o.covers j, nat_beq_iff i j, has-erase_ne i j xs);
        count =
            omega (arith, size, o.count, length-erase i xs on, length-append (erase i xs) (i ∷ []));
      }

  module _ (v : IsIndexed b) where
    pub listed : Listed b.hmap b.m xs
    listed i e = v.found i (o.used i e).0 (o.used i e).1

    pub indexed_on : (key : Bytes) (i : ℕ) → lookup key b.hmap ≡ some i → has xs i ≡ true
    indexed_on key i e = let (lo, hi, _) = v.named key i e in o.covers i lo hi

    absent : has xs (suc b.last) ≡ false
    absent = elim (Bool-cases (has xs (suc b.last))) [
      | inl on ↦ absurd (omega (arith, (o.used (suc b.last) on).1))
      | inr off ↦ off
    ]

    pub put-update :
        (key : Bytes) (val : Option V) (expire_at idx : ℕ)
        → lookup key b.hmap ≡ some idx
        → Represents
            (put_update idx key val expire_at b).bucket
            (record { k = key; v = val; expire_at = expire_at } ∷ others key (map b.m xs))
    unfolding put_update
    put-update key val expire_at idx there =
        let on = indexed_on key idx there in
        let same : (b.m idx).k ≡ key = (v.named key idx there).2 in
        let node : Node V = record (b.m idx) { v = val; expire_at = expire_at } in
        let m : ℕ → Node V = store_node idx node b.m in
        let kept =
          map-store_node idx node b.m (erase idx xs) (has-erase_self idx xs o.chain.apart) in
        let found = find-present key idx b.hmap b.m xs there same listed on in
        record {
          indexed =
              adjust-IsIndexed idx p n (with_nodes m b.hmap)
                (overwrite-IsIndexed key idx node b v refl);
          order = idx ∷ erase idx xs;
          ordered = head-IsOrder m b.hmap idx on;
          reads =
              reads_head (adjust idx p n (with_nodes m b.hmap)).m m idx (erase idx xs)
                (record { k = key; v = val; expire_at = expire_at }) (others key (map b.m xs))
                (adjust-m idx p n (with_nodes m b.hmap))
                (store_node_self idx node b.m ∙ ground arith) (kept ∙ sym found.1);
        }

    pub put-replace :
        (key : Bytes) (val : Option V) (expire_at : ℕ)
        → lookup key b.hmap ≡ none
        → 0 < b.last
        → Represents
            (put_replace key val expire_at b).bucket
            (record { k = key; v = val; expire_at = expire_at } ∷ drop_last (map b.m xs))
    unfolding put_replace
    put-replace key val expire_at gone some' =
        let tail = b.dlnk 0 p in
        let on = last_on b.dlnk xs o.chain.linked (omega (arith, o.count)) in
        let node : Node V = record { k = key; v = val; expire_at = expire_at } in
        let m : ℕ → Node V = store_node tail node b.m in
        let h = insert key tail (delete (b.m tail).k b.hmap) in
        let kept =
          map-store_node tail node b.m (erase tail xs) (has-erase_self tail xs o.chain.apart) in
        let short = erase-last n p b.dlnk 0 xs 0 o.chain.linked o.chain.apart o.chain.nodes on in
        record {
          indexed =
              replace-IsIndexed key val expire_at b v gone (o.used tail on).0 (o.used tail on).1;
          order = tail ∷ erase tail xs;
          ordered = head-IsOrder m h tail on;
          reads =
              reads_head (adjust tail p n (with_nodes m h)).m m tail (erase tail xs) node
                (drop_last (map b.m xs)) (adjust-m tail p n (with_nodes m h))
                (store_node_self tail node b.m) (kept ∙ ap (map b.m) short ∙ map-drop_last b.m xs);
        }

    -- The links that a new node gets.
    fresh-Fronted :
        (key : Bytes) (val : Option V) (expire_at : ℕ)
        → b.last < b.cap
        → Fronted n p b.dlnk (put_fresh key val expire_at b).bucket.dlnk (suc b.last)
    unfolding put_fresh link
    fresh-Fronted key val expire_at room =
        let i : ℕ = suc b.last in
        let size : (b.last + 1) % 2 ^ 16 ≡ suc b.last = omega (arith, v.small) in
        let empty : length b.hmap ≡ 0 → b.dlnk 0 n ≡ 0 =
          first_of_empty b.dlnk b.hmap b.m xs o.chain.linked listed in
        let off = first_of n p b.dlnk xs i o.chain.linked (λ e. absurd (omega arith)) absent in
        rw size (record {
          first = ground arith;
          own_back = ground (arith, nat_beq_iff i i);
          own_on = ground (arith, nat_beq_iff i i);
          second =
              ground (arith, nat_beq_iff (b.dlnk 0 n) (b.dlnk 0 n), nat_beq_iff (b.dlnk 0 n) i);
          on_else = λ j nz ne. ground (arith, nat_beq_iff i j);
          back_else = λ j ne ne'. ground (arith, nat_beq_iff i j, nat_beq_iff (b.dlnk 0 n) j);
        })

    fresh-size : b.last < b.cap → (b.last + 1) % 2 ^ 16 ≡ suc b.last
    fresh-size room = omega (arith, v.small)

    fresh-last :
        (key : Bytes) (val : Option V) (expire_at : ℕ)
        → b.last < b.cap
        → (put_fresh key val expire_at b).bucket.last ≡ suc b.last
    unfolding put_fresh
    fresh-last key val expire_at room = fresh-size room

    fresh-m :
        (key : Bytes) (val : Option V) (expire_at : ℕ)
        → b.last < b.cap
        → (put_fresh key val expire_at b).bucket.m
          ≡ store_node (suc b.last) (record { k = key; v = val; expire_at = expire_at }) b.m
    unfolding put_fresh
    fresh-m key val expire_at room =
        ap (λ i. store_node i (record { k = key; v = val; expire_at = expire_at }) b.m)
          (fresh-size room)

    pub put-fresh :
        (key : Bytes) (val : Option V) (expire_at : ℕ)
        → lookup key b.hmap ≡ none
        → b.last < b.cap
        → Represents
            (put_fresh key val expire_at b).bucket
            (record { k = key; v = val; expire_at = expire_at } ∷ map b.m xs)
    put-fresh key val expire_at gone room =
        let i : ℕ = suc b.last in
        let node : Node V = record { k = key; v = val; expire_at = expire_at } in
        let size = fresh-size room in
        let nz : i ≢ 0 = λ e. absurd (omega arith) in
        let linked =
          front-Seg n p b.dlnk (put_fresh key val expire_at b).bucket.dlnk i
            (fresh-Fronted key val expire_at room) xs o.chain.linked nz absent o.chain.nodes
            o.chain.apart in
        record {
          indexed = fresh-IsIndexed key val expire_at b v gone room;
          order = i ∷ xs;
          ordered = record {
            chain = record {
              linked = linked;
              apart = (absent, o.chain.apart);
              nodes = ground (arith, o.chain.nodes);
            };
            used =
                λ j e. ground (arith, fresh-last key val expire_at room, nat_beq_iff i j, o.used j);
            covers = λ j lo hi.
                ground (arith, fresh-last key val expire_at room, nat_beq_iff i j, o.covers j);
            count = omega (arith, fresh-last key val expire_at room, o.count);
          };
          reads =
              reads_head (put_fresh key val expire_at b).bucket.m (store_node i node b.m) i xs node
                (map b.m xs) (fresh-m key val expire_at room) (store_node_self i node b.m)
                (map-store_node i node b.m xs absent);
        }

    pub get-head :
        (key : Bytes) (idx : ℕ)
        → lookup key b.hmap ≡ some idx
        → Represents (adjust idx p n b) (b.m idx ∷ others key (map b.m xs))
    get-head key idx there =
        let on = indexed_on key idx there in
        let found = find-present key idx b.hmap b.m xs there (v.named key idx there).2 listed on in
        record {
          indexed = adjust-IsIndexed idx p n b v;
          order = idx ∷ erase idx xs;
          ordered = head-IsOrder b.m b.hmap idx on;
          reads =
              reads_head (adjust idx p n b).m b.m idx (erase idx xs) (b.m idx)
                (others key (map b.m xs)) (adjust-m idx p n b) refl (sym found.1);
        }

    pub del-tail :
        (key : Bytes) (idx : ℕ)
        → lookup key b.hmap ≡ some idx
        → Represents
            (adjust idx n p
              (record b { m = store_node idx (record (b.m idx) { expire_at = 0 }) b.m }))
            (others key (map b.m xs) ++ record (b.m idx) { expire_at = 0 } ∷ [])
    del-tail key idx there =
        let on = indexed_on key idx there in
        let found = find-present key idx b.hmap b.m xs there (v.named key idx there).2 listed on in
        let node : Node V = record (b.m idx) { expire_at = 0 } in
        let m : ℕ → Node V = store_node idx node b.m in
        let kept =
          map-store_node idx node b.m (erase idx xs) (has-erase_self idx xs o.chain.apart) in
        record {
          indexed =
              adjust-IsIndexed idx n p (with_nodes m b.hmap)
                (overwrite-IsIndexed key idx node b v refl);
          order = erase idx xs ++ idx ∷ [];
          ordered = tail-IsOrder m b.hmap idx on;
          reads =
              ap (λ g. map g (erase idx xs ++ idx ∷ [])) (adjust-m idx n p (with_nodes m b.hmap))
              ∙ List.map-append m (erase idx xs) (idx ∷ [])
              ∙ rw (kept, store_node_self idx node b.m, found.1);
        }
