-- ===== src/Tests/Stores.antt =====
-- An LRU store of ten bytes, and a two-level store of one bucket.
use Prim.Native.Nat.{bit_and}
use go.Common.{
  ◌++◌, length, inr, ℕ, zero, suc, ◌+◌, ◌*◌, ◌%◌, ◌^◌, ◌≤◌, ◌<◌, ◌≡◌, refl, true, false, Option,
  none, some, List, [], ◌∷◌, Bytes, arith, is_some, get_elem?, bytes_beq, replicate, if◌then◌else◌,
}
use go.ByteView.{len, ByteView, byte_view_value}
use go.Store.Options.{Options, new_options}
use go.Store.Lru.{
  LruCache, new_lru_cache, set_with_expiration, element_of, get, get_value, is_over, evict,
  expire_loop,
}
use go.Store.Lru.Entries.{IsValid, total}
use go.Store.Lru.Coherence.Newest.{FitsAlone}
use go.Store.Lru.Coherence.Stays.{set_with_expiration-get_value}
use go.Store.Lru.Methods.{new-IsValid, set_with_expiration-IsValid}
use go.Store.Lru.Elements.{Element}
use go.Store.Lru.Eviction.Evicted.{evict-Evicted, exceeds, live, AllOver}
use go.Store.Lru2.Bucket
use go.Store.Lru2.Bucket.{Bucket, Node, Put}
use go.Store.Lru2.Bucket.Lookup.{IsIndexed, fresh-IsIndexed as fresh_put-IsIndexed}
use go.Store.Lru2.Bucket.Calls.{HasTail}
use go.Store.Lru2.Mask.{mask_of_next_pow_of2, mask_bounds, mask_overflow, hash_bkrd}
use go.Store.Lru2.Service.{
  Levels, Lru2Store, new_lru2_cache, bucket_index, get_value as get_value2,
  set_with_expiration as set2,
}
use go.Store.Lru2.Service.Reads.{set-get_value}
use go.Store.Lru2.Service.Stale.{stale-read, IsAboutToDrop}
use go.Store.Lru2.Bucket.Lookup.{peek}

abbrev options : Options
options = record new_options {
  max_bytes = 10;
  bucket_count = 1;
  cap_per_bucket = 1;
  level2_cap = 1;
}

abbrev apple : Bytes
apple = b'a' ∷ []

abbrev pear : Bytes
pear = b'p' ∷ []

abbrev view : ByteView
view = record { b = 1 ∷ 2 ∷ 3 ∷ 4 ∷ 5 ∷ 6 ∷ [] }

abbrev one : LruCache ByteView
one = set_with_expiration 5 5 apple (some view) 100 (new_lru_cache options)

one-IsValid : IsValid one
one-IsValid =
    (set_with_expiration-IsValid 5 5 apple view 100 (new_lru_cache options) (new-IsValid options)).0

-- The second entry pushes the first one out.
set_with_expiration-IsValid_example :
    IsValid (set_with_expiration 6 6 pear (some view) 0 one)
    × (element_of pear one ≡ none
        → is_over (set_with_expiration 6 6 pear (some view) 0 one) ≡ false)
set_with_expiration-IsValid_example = set_with_expiration-IsValid 6 6 pear view 0 one one-IsValid

limit : FitsAlone (length pear + len view) one.max_bytes
unfolding set_with_expiration go.Store.Lru.set_expiry go.Store.Lru.add_entry go.Store.Lru.evict
    expire_loop go.Store.Lru.shrink_loop element_of new_lru_cache new_options go.Common.Map.lookup
    go.Common.Map.insert go.Store.Lru.expire_entry is_over
limit = inr refl

-- Under the limit of ten bytes the second entry stays, and the first one has to go.
set_with_expiration-get_value_example :
    get_value 9 pear (set_with_expiration 6 6 pear (some view) 20 one) ≡ some view
set_with_expiration-get_value_example =
    set_with_expiration-get_value 6 6 9 pear view 20 one one-IsValid limit (omega arith)
      (omega arith)

evict-Evicted_example :
    IsValid (evict 200 one)
    × ((evict 200 one).max_bytes ≡ one.max_bytes)
    × (exceeds one.max_bytes (total (evict 200 one).list % 2 ^ 64) ≡ false)
    × ((dropped : List (Element ByteView)) × (live 200 one.expires one.list
          ≡ dropped ++ (evict 200 one).list)
        × AllOver one.max_bytes (evict 200 one).list dropped)
evict-Evicted_example = evict-Evicted 200 one one-IsValid

-- A bucket for one entry.
abbrev fresh : Bucket ByteView
fresh = Bucket.create 1

fresh-IsIndexed : IsIndexed fresh
unfolding Bucket.create go.Common.Map.lookup
fresh-IsIndexed = record {
  room = omega arith;
  small = omega arith;
  named = λ k i e. absurd (ground (arith, e));
  found = λ i lo hi. absurd (omega arith);
}

fresh-HasTail : HasTail fresh
unfolding Bucket.create
fresh-HasTail = λ full. absurd (omega (arith, full))

-- The bucket is full after the first `put`.
abbrev filled : Bucket ByteView
filled = (Bucket.put_fresh apple (some view) 100 fresh).bucket

filled-IsIndexed : IsIndexed filled
unfolding Bucket.create go.Common.Map.lookup
filled-IsIndexed =
    fresh_put-IsIndexed apple (some view) 100 fresh fresh-IsIndexed refl (omega arith)

filled-HasTail : HasTail filled
unfolding Bucket.create Bucket.put_fresh Bucket.link
filled-HasTail = λ at_end. (omega arith, omega arith)

mask_bounds_example :
    (bit_and (mask_of_next_pow_of2 100) (mask_of_next_pow_of2 100 + 1) ≡ 0)
    × (100 ≤ mask_of_next_pow_of2 100 + 1)
    × (0 < 100 → mask_of_next_pow_of2 100 + 1 < 2 * 100)
    × (mask_of_next_pow_of2 100 < 2 ^ 16)
mask_bounds_example = mask_bounds 100 (omega arith)

mask_overflow_example : (mask_of_next_pow_of2 40000 + 1) % 2 ^ 16 ≡ 0
mask_overflow_example = mask_overflow 40000 (omega arith) (omega arith)

abbrev levels : Levels ByteView
levels = record { first = fresh; second = Bucket.create 1 }

abbrev store : Lru2Store ByteView
store = new_lru2_cache options

store-level : get_elem? store.caches (bucket_index apple store) ≡ some levels
unfolding new_lru2_cache bucket_index mask_of_next_pow_of2 hash_bkrd new_options
store-level = refl

set-get_value_example :
    (s' : Lru2Store ByteView) × (set2 1000 apple (some view) 500 store ≡ some s')
    × ((node : Node ByteView) × (get_value2 1200 apple s' ≡ some (some node))
        × (node.v ≡ some view))
set-get_value_example =
    set-get_value 1000 1200 apple (some view) 500 store levels store-level fresh-IsIndexed
      fresh-HasTail (omega arith) (omega arith) (omega arith)

abbrev newer : ByteView
newer = record { b = 7 ∷ [] }

abbrev newer_first : Bucket ByteView
newer_first = (Bucket.put_fresh apple (some newer) 100 fresh).bucket

-- What a `Set` of a key, a `Get` of it and a second `Set` of it leave.
abbrev twice : Levels ByteView
twice = record { first = newer_first; second = filled }

abbrev twice_store : Lru2Store ByteView
twice_store = record store { caches = twice ∷ [] }

twice-level : get_elem? twice_store.caches (bucket_index apple twice_store) ≡ some twice
unfolding new_lru2_cache bucket_index mask_of_next_pow_of2 hash_bkrd new_options
twice-level = refl

same_bucket : bucket_index pear twice_store ≡ bucket_index apple twice_store
unfolding new_lru2_cache bucket_index mask_of_next_pow_of2 hash_bkrd new_options
same_bucket = refl

newer_first-IsAboutToDrop : IsAboutToDrop apple pear newer_first
unfolding Bucket.create go.Common.Map.lookup go.Common.Map.insert Bucket.put_fresh Bucket.link
    bytes_beq Bucket.store_node
newer_first-IsAboutToDrop = record {
  indexed = fresh_put-IsIndexed apple (some newer) 100 fresh fresh-IsIndexed refl (omega arith);
  tailed = λ at_end. (omega arith, omega arith);
  full = refl;
  tail = refl;
  fresh = refl;
}

newer_there : peek apple newer_first ≡ some (some newer, 100)
unfolding Bucket.create go.Common.Map.lookup go.Common.Map.insert Bucket.put_fresh Bucket.link
    bytes_beq peek Bucket.store_node
newer_there = refl

older_there : peek apple filled ≡ some (some view, 100)
unfolding Bucket.create go.Common.Map.lookup go.Common.Map.insert Bucket.put_fresh Bucket.link
    bytes_beq peek Bucket.store_node
older_there = refl

stale-read_example :
    ((node : Node ByteView) × (get_value2 60 apple twice_store ≡ some (some node))
      × (node.v ≡ some newer))
    × ((s' : Lru2Store ByteView) × (set2 50 pear none 500 twice_store ≡ some s')
        × ((node : Node ByteView) × (get_value2 60 apple s' ≡ some (some node))
            × (node.v ≡ some view)))
stale-read_example =
    stale-read 50 60 apple pear (some newer) (some view) none 100 100 500 twice_store twice
      twice-level same_bucket newer_first-IsAboutToDrop newer_there older_there (omega arith)
      (omega arith) (omega arith) (omega arith)
