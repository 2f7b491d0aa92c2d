-- ===== src/Store/Lru2/Service/Runs.antt =====
-- Runs of calls on a store of lru2.go.
use go.Common.{
  All, ℕ, ◌*◌, ◌+◌, ◌%◌, ◌^◌, ◌<◌, ◌≡◌, refl, Option, none, some, List, [], ◌∷◌, arith,
  length-replicate, Bytes, bytes_eq,
}
use go.Store.Options.{Options}
use go.Store.Lru2.Bucket
use go.Store.Lru2.Bucket.{Bucket, Node}
use go.Store.Lru2.Bucket.Runs.{walk_lem, live}
use go.Store.Lru2.Mask.{mask_of_next_pow_of2, mask_bounds}
use go.Store.Lru2.Service.{
  Levels, Lru2Store, or_default, new_lru2_cache, get, delete, clear, keys_from, keys_of, collect,
  set_with_expiration,
}
use go.Store.Lru2.Service.Standing.{IsStanding, AreLevels, create-IsLevel, All-replicate}
use go.Store.Lru2.Service.Totality.{
  Leaves, set-Leaves, get-Answers, delete-Answers, delete_all-Leaves,
}

or_default-bounds :
    (x d : ℕ)
    → 0 < d
    → d < 2 ^ 15
    → x + 1 < 2 ^ 16
    → (0 < or_default x d) × (or_default x d + 1 < 2 ^ 16)
or_default-bounds x d some_d small_d small = (ground arith, ground arith)

-- The calls that change a store.
pub data StoreCall (V : Type 0) : Type 0 where
  set_call : (now : ℕ) → Bytes → Option V → (expiration : ℕ) → StoreCall V
  get_call : (now later : ℕ) → Bytes → StoreCall V
  delete_call : Bytes → StoreCall V
  clear_call : StoreCall V

module _ {V : Type 0} where
  unfoldable pub run_one : StoreCall V → Lru2Store V → Option (Lru2Store V)
  run_one (set_call now key val expiration) s = set_with_expiration now key val expiration s
  run_one (get_call now later key) s = elim (get now later key s) [
    | none ↦ none
    | some (answer, s') ↦ some s'
  ]
  run_one (delete_call key) s = elim (delete key s) [ none ↦ none | some (found, s') ↦ some s' ]
  run_one clear_call s = clear s

  -- A sequence of calls; `none` is a panic of one of them.
  unfoldable pub run_calls : List (StoreCall V) → Lru2Store V → Option (Lru2Store V)
  run_calls [] s = some s
  run_calls (c ∷ calls) s = elim (run_one c s) [ none ↦ none | some s' ↦ run_calls calls s' ]

  keys_from-total :
      (ls : List (Levels V)) (ks : List Bytes)
      → All AreLevels ls
      → (ks' : List Bytes) × (keys_from ls ks ≡ some ks')
  unfolding keys_from
  keys_from-total [] ks all = (ks, refl)
  keys_from-total (l ∷ ls) ks ((first, second), all) =
      let shown = walk_lem l.first first.nodes first.stands in
      let shown' = walk_lem l.second second.nodes second.stands in
      let (ks', listed) =
        keys_from-total ls (collect (live second.nodes) (collect (live first.nodes) ks)) all in
      (ks', rw (shown, shown', keys_from) listed)

  run_one-Leaves : (c : StoreCall V) (s : Lru2Store V) → IsStanding s → Leaves s.mask (run_one c s)
  unfolding run_one clear keys_of
  run_one-Leaves (set_call now key val expiration) s v = set-Leaves now key val expiration s v
  run_one-Leaves (get_call now later key) s v =
      let ((answer, s'), done, on) = get-Answers now later key s v in (s', ground arith, on)
  run_one-Leaves (delete_call key) s v =
      let ((found, s'), done, on) = delete-Answers key s v in (s', ground arith, on)
  run_one-Leaves clear_call s v =
      let (ks, listed) = keys_from-total s.caches [] v.levels in
      rw (listed, keys_of, clear) (delete_all-Leaves ks s v)

  run_calls-Leaves :
      (calls : List (StoreCall V)) (s : Lru2Store V)
      → IsStanding s
      → (s' : Lru2Store V) × (run_calls calls s ≡ some s') × IsStanding s'
  unfolding run_calls
  run_calls-Leaves [] s v = (s, refl, v)
  run_calls-Leaves (c ∷ calls) s v =
      let (s', done, on) = run_one-Leaves c s v in
      let (s'', done', v'') = run_calls-Leaves calls s' on.0 in (s'', ground arith, v'')

  new-IsStanding :
      (opts : Options)
      → opts.bucket_count < 2 ^ 15
      → opts.cap_per_bucket + 1 < 2 ^ 16
      → opts.level2_cap + 1 < 2 ^ 16
      → IsStanding (new_lru2_cache {V = V} opts)
  unfolding new_lru2_cache
  new-IsStanding opts few small1 small2 =
      let wanted = or_default opts.bucket_count 16 in
      let (_, _, bound, _) = mask_bounds wanted (ground arith) in
      let mask = mask_of_next_pow_of2 wanted in
      let tight : mask + 1 < 2 * wanted = bound (ground arith) in
      let below : wanted < 2 ^ 15 = ground arith in
      let (some1, fits1) =
        or_default-bounds opts.cap_per_bucket 1024 (omega arith) (omega arith) small1 in
      let (some2, fits2) =
        or_default-bounds opts.level2_cap 1024 (omega arith) (omega arith) small2 in
      let l : Levels V = record {
        first = Bucket.create (or_default opts.cap_per_bucket 1024);
        second = Bucket.create (or_default opts.level2_cap 1024);
      } in
      record {
        levels = All-replicate AreLevels ((mask + 1) % 2 ^ 16) l (
          create-IsLevel (or_default opts.cap_per_bucket 1024) some1 fits1,
          create-IsLevel (or_default opts.level2_cap 1024) some2 fits2,
        );
        masked = omega (arith, length-replicate ((mask + 1) % 2 ^ 16) l);
      }

  -- A store with fewer than 2 ^ 15 buckets whose levels have at most 2 ^ 16 - 2 nodes never panics, whatever calls of
  -- `SetWithExpiration`, `Get`, `Delete` and `Clear` are made at whatever times: no index of a bucket
  -- is out of range, no full level is without a tail to evict, and afterwards every level still
  -- stands for a list of nodes within its capacity.
  pub run_calls-new :
      (opts : Options) (calls : List (StoreCall V))
      → opts.bucket_count < 2 ^ 15
      → opts.cap_per_bucket + 1 < 2 ^ 16
      → opts.level2_cap + 1 < 2 ^ 16
      → (s : Lru2Store V) × (run_calls calls (new_lru2_cache opts) ≡ some s) × IsStanding s
  run_calls-new opts calls few small1 small2 =
      run_calls-Leaves calls (new_lru2_cache opts) (new-IsStanding opts few small1 small2)
