-- ===== src/Store/Lru2/Service.antt =====
-- lru2.go: `lru2Store`, the buckets with their two levels. A method runs whole under the bucket's
-- lock, and over all buckets one after the other where the source does so. An index out of range
-- panics: `none`. `now` and `later` are the readings of `Now()` in a call. The calls of `onEvicted`
-- are logged, the latest first.
pub mod Reads
pub mod Standing
pub mod Totality
pub mod Runs
pub mod Stale
use Prim.Native.Nat.{bit_and}
use go.Common.{
  ℕ, zero, suc, ◌+◌, ◌-◌, ◌%◌, ◌^◌, Bool, true, false, not, ◌&&◌, ◌||◌, Option, none, some, List,
  [], ◌∷◌, ◌++◌, nat_beq, ltb, if◌then◌else◌, is_some, length, get_elem?, set, replicate, Bytes,
  bytes_beq, bytes_eq, contains,
}
use go.Common.Int64
use go.Common.Map.{lookup}
use go.Store.Lru2.Bucket
use go.Store.Lru2.Bucket.{Bucket, Node, Put, p, n}
use go.Store.Lru2.Mask.{hash_bkrd, mask_of_next_pow_of2}
use go.Store.Options.{Options, minute}

pub record Levels (V : Type 0) : Type 0 where
  pub first : Bucket V
  pub second : Bucket V

pub record Lru2Store (V : Type 0) : Type 0 where
  pub caches : List (Levels V)
  pub mask : ℕ
  pub notify : Bool
  pub evicted : List (Bytes × Option V)
  pub ticking : Bool  -- `cleanupTick`

abbrev pub or_default : ℕ → ℕ → ℕ
or_default x d = if nat_beq x 0 then d else x

-- `n.expireAt <= 0 || currentTime >= n.expireAt`
-- The package's `clock`: a reading of the time that the goroutine of `init` renews at every tick, so
-- `Now()` is the reading of the last tick, or the first one before any.
unfoldable pub clock_after : (start : ℕ) → (ticks : List ℕ) → ℕ
clock_after start [] = start
clock_after start (time ∷ ticks) = clock_after time ticks

abbrev pub is_stale : (now : ℕ) → ℕ → Bool
is_stale now e = not (Int64.lt 0 e) || Int64.le e now

infixl 5 ◌>>=◌
abbrev pub ◌>>=◌ {ℓ κ} : {A : Type ℓ} {B : Type κ} → Option A → (A → Option B) → Option B
none >>= f = none
some a >>= f = f a

module _ {V : Type 0} where
  -- `newLRU2Cache`; `mask+1` is a uint16.
  unfoldable pub new_lru2_cache : Options → Lru2Store V
  new_lru2_cache opts =
      let mask = mask_of_next_pow_of2 (or_default opts.bucket_count 16) in
      record {
        caches = replicate ((mask + 1) % 2 ^ 16) (record {
          first = Bucket.create (or_default opts.cap_per_bucket 1024);
          second = Bucket.create (or_default opts.level2_cap 1024);
        });
        mask = mask;
        notify = opts.notify;
        evicted = [];
        ticking = true;
      }

  -- `hashBKRD(key) & s.mask`
  unfoldable pub bucket_index : Bytes → Lru2Store V → ℕ
  bucket_index key s = bit_and (hash_bkrd key) s.mask

  abbrev log : Option (Bytes × Option V) → Lru2Store V → Lru2Store V
  log none s = s
  log (some e) s = record s { evicted = if s.notify then e ∷ s.evicted else s.evicted }

  abbrev pub store_levels : ℕ → Levels V → Lru2Store V → Lru2Store V
  store_levels idx l s = record s { caches = set s.caches idx l }

  abbrev with_value : Bytes → Option (Node V) → Option (Bytes × Option V)
  with_value key none = none
  with_value key (some node) = if is_some node.v then some (key, node.v) else none

  abbrev or_else : Option (Bytes × Option V) → Option (Bytes × Option V) → Option (Bytes × Option V)
  or_else none y = y
  or_else (some x) y = some x

  -- `delete`
  unfoldable pub delete_at : Bytes → ℕ → Lru2Store V → Option (Bool × Lru2Store V)
  delete_at key idx s = do
    l ← get_elem? s.caches idx
    let (n1, first) = Bucket.del key l.first
    let (n2, second) = Bucket.del key l.second
    let s' = store_levels idx (record { first = first; second = second }) s
    some (is_some n1 || is_some n2, log (or_else (with_value key n1) (with_value key n2)) s')

  unfoldable pub delete : Bytes → Lru2Store V → Option (Bool × Lru2Store V)
  delete key s = delete_at key (bucket_index key s) s

  -- `put` into one level, with its call of `onEvicted`.
  unfoldable pub put_first : Bytes → Option V → ℕ → ℕ → Lru2Store V → Option (Lru2Store V)
  put_first key val expire_at idx s = do
    l ← get_elem? s.caches idx
    q ← Bucket.put key val expire_at l.first
    some (log q.evicted (store_levels idx (record l { first = q.bucket }) s))

  unfoldable pub put_second : Bytes → Option V → ℕ → ℕ → Lru2Store V → Option (Lru2Store V)
  put_second key val expire_at idx s = do
    l ← get_elem? s.caches idx
    q ← Bucket.put key val expire_at l.second
    some (log q.evicted (store_levels idx (record l { second = q.bucket }) s))

  -- `_get` on the second level
  unfoldable pub get_second :
      (later : ℕ) → Bytes → ℕ → Lru2Store V → Option (Option (Node V) × Lru2Store V)
  get_second later key idx s = do
    l ← get_elem? s.caches idx
    let (node, second) = Bucket.get key l.second
    let s' = store_levels idx (record l { second = second }) s
    some (
      elim node [ none ↦ none | some x ↦ if is_stale later x.expire_at then none else some x ],
      s',
    )

  -- `Get`: what the first level held moves to the second; the rest is asked of the second.
  unfoldable pub get_first :
      (now : ℕ) → Bytes → ℕ → Node V → Lru2Store V → Option (Option V × Lru2Store V)
  get_first now key idx node s =
      if Int64.lt 0 node.expire_at && Int64.le node.expire_at now
      then (do (_, s') ← delete_at key idx s; some (none, s'))
      else (do s' ← put_second key node.v node.expire_at idx s; some (node.v, s'))

  unfoldable pub get_fallback :
      (now later : ℕ) → Bytes → ℕ → Lru2Store V → Option (Option V × Lru2Store V)
  get_fallback now later key idx s = do
    (found, s') ← get_second later key idx s
    elim found [
      | none ↦ some (none, s')
      | some node ↦
          if Int64.lt 0 node.expire_at && Int64.le node.expire_at now
          then (do (_, s'') ← delete_at key idx s'; some (none, s''))
          else some (node.v, s')
    ]

  unfoldable pub get : (now later : ℕ) → Bytes → Lru2Store V → Option (Option V × Lru2Store V)
  get now later key s = do
    let idx = bucket_index key s
    l ← get_elem? s.caches idx
    let (n1, first) = Bucket.del key l.first
    let s' = store_levels idx (record l { first = first }) s
    elim n1 [ some node ↦ get_first now key idx node s' | none ↦ get_fallback now later key idx s' ]

  unfoldable pub set_with_expiration :
      (now : ℕ) → Bytes → Option V → (expiration : ℕ) → Lru2Store V → Option (Lru2Store V)
  set_with_expiration now key val expiration s =
      put_first key val (if Int64.lt 0 expiration then Int64.add now expiration else 0)
        (bucket_index key s) s

  unfoldable pub set_value : (now : ℕ) → Bytes → Option V → Lru2Store V → Option (Lru2Store V)
  set_value now key val s = set_with_expiration now key val 9999999999999999 s

  -- One level of `GetValue`.
  abbrev pub peek_alive : (now : ℕ) → Bytes → Bucket V → Option (Node V)
  peek_alive now key b = elim (lookup key b.hmap) [
    | none ↦ none
    | some idx ↦
        if Int64.lt 0 (b.m idx).expire_at && Int64.lt now (b.m idx).expire_at
        then some (b.m idx)
        else none
  ]

  unfoldable pub get_value : (now : ℕ) → Bytes → Lru2Store V → Option (Option (Node V))
  get_value now key s = do
    l ← get_elem? s.caches (bucket_index key s)
    some (elim (peek_alive now key l.first) [
      | some node ↦ some node
      | none ↦ peek_alive now key l.second
    ])

  -- The keys that `Keys` and `Clear` collect from a walk, each once.
  abbrev pub collect : List (Node V) → List Bytes → List Bytes
  collect [] ks = ks
  collect (node ∷ rest) ks = collect rest (if contains ks node.k then ks else ks ++ node.k ∷ [])

  unfoldable pub keys_from : List (Levels V) → List Bytes → Option (List Bytes)
  keys_from [] ks = some ks
  keys_from (l ∷ rest) ks = do
    first ← Bucket.walk l.first
    second ← Bucket.walk l.second
    keys_from rest (collect second (collect first ks))

  unfoldable pub keys_of : Lru2Store V → Option (List Bytes)
  keys_of s = keys_from s.caches []

  abbrev entries_in : List (Levels V) → Option ℕ
  entries_in [] = some 0
  entries_in (l ∷ rest) = do
    first ← Bucket.walk l.first
    second ← Bucket.walk l.second
    more ← entries_in rest
    some (length first + length second + more)

  unfoldable pub len : Lru2Store V → Option ℕ
  len s = entries_in s.caches

  unfoldable pub delete_all : List Bytes → Lru2Store V → Option (Lru2Store V)
  delete_all [] s = some s
  delete_all (key ∷ ks) s = do (_, s') ← delete key s; delete_all ks s'

  -- `Clear` collects a first-level key without looking for it; no level holds a key twice.
  unfoldable pub clear : Lru2Store V → Option (Lru2Store V)
  clear s = do ks ← keys_of s; delete_all ks s

  -- The keys that a round of `cleanupLoop` finds expired in one bucket.
  abbrev collect_expired : (now : ℕ) → List (Node V) → List Bytes → List Bytes
  collect_expired now [] ks = ks
  collect_expired now (node ∷ rest) ks = collect_expired now rest (
      if Int64.lt 0 node.expire_at && Int64.le node.expire_at now && not (contains ks node.k)
      then ks ++ node.k ∷ []
      else ks)

  unfoldable pub delete_all_at : List Bytes → ℕ → Lru2Store V → Option (Lru2Store V)
  delete_all_at [] idx s = some s
  delete_all_at (key ∷ ks) idx s = do (_, s') ← delete_at key idx s; delete_all_at ks idx s'

  -- One tick of `cleanupLoop`, with `rounds` buckets left from bucket `idx`.
  unfoldable pub cleanup : (now : ℕ) → (rounds idx : ℕ) → Lru2Store V → Option (Lru2Store V)
  cleanup now zero idx s = some s
  cleanup now (suc rounds) idx s = do
    l ← get_elem? s.caches idx
    first ← Bucket.walk l.first
    second ← Bucket.walk l.second
    let ks = collect_expired now second (collect_expired now first [])
    s' ← delete_all_at ks idx s
    cleanup now rounds (idx + 1) s'

  unfoldable pub close : Lru2Store V → Lru2Store V
  close s = record s { ticking = false }
