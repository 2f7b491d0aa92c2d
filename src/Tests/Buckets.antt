-- ===== src/Tests/Buckets.antt =====
-- A bucket of two nodes under four calls, of which the third evicts.
use go.Common.{ℕ, ◌≡◌, Option, none, some, List, [], ◌∷◌, Bytes, arith}
use go.Store.Lru2.Bucket.{Bucket, create, walk}
use go.Store.Lru2.Bucket.Spec.{Answer, Call, put_call, get_call, del_call, replay, run}
use go.Store.Lru2.Bucket.Represents.{Represents}
use go.Store.Lru2.Bucket.Runs.{run-create_refines, walk_lem, live}
use go.Store.Options.{Options}
use go.Cache.{default_cache_options}
use go.Store.Lru2.Service.{Lru2Store, new_lru2_cache}
use go.Store.Lru2.Service.Standing.{IsStanding}
use go.Store.Lru2.Service.Runs.{
  StoreCall, set_call, get_call as get_store, delete_call, clear_call, run_calls, run_calls-new,
}

abbrev apple : Bytes
apple = b'a' ∷ []

abbrev pear : Bytes
pear = b'p' ∷ []

abbrev plum : Bytes
plum = b'm' ∷ []

abbrev calls : List (Call ℕ)
calls =
    put_call apple (some 1) 50
    ∷ put_call pear (some 2) 60
    ∷ get_call apple
    ∷ put_call plum (some 3) 70
    ∷ del_call apple
    ∷ []

run-create_refines_example :
    (b : Bucket ℕ) × (run calls (create 2) ≡ some ((replay 2 calls []).0, b))
    × Represents b (replay 2 calls []).1
run-create_refines_example = run-create_refines 2 calls (omega arith) (omega arith)

abbrev bucket_of : Option (List (Answer ℕ) × Bucket ℕ) → Bucket ℕ
bucket_of none = create 2
bucket_of (some (answers, b)) = b

abbrev stored : Bucket ℕ
stored = bucket_of (run calls (create 2))

stored-Represents : Represents stored (replay 2 calls []).1
stored-Represents = let (b, e, r) = run-create_refines 2 calls (omega arith) (omega arith) in rw e r

walk_lem_example : walk stored ≡ some (live (replay 2 calls []).1)
walk_lem_example = walk_lem stored (replay 2 calls []).1 stored-Represents

abbrev options : Options
options = record default_cache_options { bucket_count = 4; cap_per_bucket = 1 }

abbrev store_calls : List (StoreCall ℕ)
store_calls =
    set_call 10 apple (some 1) 50
    ∷ get_store 20 21 apple
    ∷ set_call 30 pear (some 2) 50
    ∷ set_call 31 plum (some 3) 50
    ∷ get_store 70 70 apple
    ∷ delete_call pear
    ∷ clear_call
    ∷ []

run_calls-new_example :
    (s : Lru2Store ℕ) × (run_calls store_calls (new_lru2_cache options) ≡ some s) × IsStanding s
unfolding default_cache_options
run_calls-new_example = run_calls-new options store_calls (omega arith) (omega arith) (omega arith)
