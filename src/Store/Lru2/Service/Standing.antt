-- ===== src/Store/Lru2/Service/Standing.antt =====
-- When a store of lru2.go is in order: each bucket on its two levels stands for a list of nodes, and
-- the mask reaches no further than the buckets.
use go.Common.{
  ◌+◌, ℕ, zero, suc, ◌^◌, ◌≤◌, ◌<◌, ◌≡◌, inl, inr, refl, Option, some, List, [], ◌∷◌, arith, length,
  get_elem?, set, length-set, replicate, Bytes, bytes_eq, Option-cases, All,
}
use mathlib.Core.Path.{subst}
use go.Store.Lru2.Bucket
use go.Store.Lru2.Bucket.{Bucket, Node, Put}
use go.Store.Lru2.Bucket.Represents.{Represents}
use go.Store.Lru2.Bucket.Spec.{Answer, Call, put_call, get_call, del_call, run_call}
use go.Store.Lru2.Bucket.Runs.{call-Meets, create-Represents}
use go.Store.Lru2.Service.{Levels, Lru2Store, store_levels}

module _ {A : Type 0} (P : A → Type 0) where
  All-get : (xs : List A) (i : ℕ) (x : A) → All P xs → get_elem? xs i ≡ some x → P x
  All-get [] i x all e = absurd (ground arith)
  All-get (y ∷ xs) zero x all e = rw (← some_eq y x e) all.0
    where
      some_eq : (y x : A) → some y ≡ some x → y ≡ x
      some_eq y x e = ground (arith, e)
  All-get (y ∷ xs) (suc i) x all e = All-get xs i x all.1 e

  All-set : (xs : List A) (i : ℕ) (x : A) → All P xs → P x → All P (set xs i x)
  All-set [] i x all h = tt
  All-set (y ∷ xs) zero x all h = (h, all.1)
  All-set (y ∷ xs) (suc i) x all h = (all.0, All-set xs i x all.1 h)

  pub All-replicate : (n : ℕ) (x : A) → P x → All P (replicate n x)
  All-replicate zero x h = tt
  All-replicate (suc n) x h = (h, All-replicate n x h)

get_elem?-within :
    {A : Type 0} (xs : List A) (i : ℕ) → i < length xs → (x : A) × (get_elem? xs i ≡ some x)
get_elem?-within [] i lt = absurd (omega arith)
get_elem?-within (x ∷ xs) zero lt = (x, refl)
get_elem?-within (x ∷ xs) (suc i) lt = get_elem?-within xs i (omega arith)

create-cap : (V : Type 0) (cap : ℕ) → (Bucket.create {V = V} cap).cap ≡ cap
unfolding Bucket.create
create-cap V size = refl

module _ {V : Type 0} where
  -- A bucket with room for a node that stands for some list.
  pub record IsLevel (b : Bucket V) : Type 0 where
    pub nodes : List (Node V)
    pub stands : Represents b nodes
    pub room : 0 < b.cap

  abbrev pub AreLevels : Levels V → Type 0
  AreLevels l = IsLevel l.first × IsLevel l.second

  pub record IsStanding (s : Lru2Store V) : Type 0 where
    pub levels : All AreLevels s.caches
    pub masked : s.mask < length s.caches

  -- What a call leaves where it does not panic.
  abbrev pub Fine : Bucket V → Call V → Type 0
  Fine b c = (answer : Answer V × Bucket V) × (run_call c b ≡ some answer) × IsLevel answer.1

  call-Fine : (c : Call V) (b : Bucket V) → IsLevel b → Fine b c
  call-Fine c b v =
      let m = call-Meets b.cap c b v.nodes v.stands v.room refl in
      let room : 0 < m.after.cap = omega (arith, m.same_cap, v.room) in
      (_, m.returns, record { nodes = _; stands = m.stands; room = room })

  pub put-IsLevel :
      (key : Bytes) (val : Option V) (expire_at : ℕ) (b : Bucket V)
      → IsLevel b
      → (q : Put V) × (Bucket.put key val expire_at b ≡ some q) × IsLevel q.bucket
  unfolding run_call
  put-IsLevel key val expire_at b v =
      let (answer, ran, l) = call-Fine (put_call key val expire_at) b v in
      elim (Option-cases (Bucket.put key val expire_at b)) [
        | inl panics ↦ absurd (ground arith)
        | inr (q, done) ↦
            let same : answer.1 ≡ q.bucket = ground arith in (q, done, subst IsLevel same l)
      ]

  pub get-IsLevel : (key : Bytes) (b : Bucket V) → IsLevel b → IsLevel (Bucket.get key b).1
  unfolding run_call
  get-IsLevel key b v =
      let (answer, ran, l) = call-Fine (get_call key) b v in
      let same : answer.1 ≡ (Bucket.get key b).1 = ground arith in subst IsLevel same l

  pub del-IsLevel : (key : Bytes) (b : Bucket V) → IsLevel b → IsLevel (Bucket.del key b).1
  unfolding run_call
  del-IsLevel key b v =
      let (answer, ran, l) = call-Fine (del_call key) b v in
      let same : answer.1 ≡ (Bucket.del key b).1 = ground arith in subst IsLevel same l

  pub create-IsLevel : (cap : ℕ) → 0 < cap → cap + 1 < 2 ^ 16 → IsLevel (Bucket.create {V = V} cap)
  create-IsLevel size some_room small = record {
    nodes = [];
    stands = create-Represents size small;
    room = omega (arith, create-cap V size, some_room);
  }

  -- The bucket of a key is there.
  pub bucket-IsStanding :
      (idx : ℕ) (s : Lru2Store V)
      → IsStanding s
      → idx ≤ s.mask
      → (l : Levels V) × (get_elem? s.caches idx ≡ some l) × AreLevels l
  bucket-IsStanding idx s v le =
      let (l, here) = get_elem?-within s.caches idx (omega (arith, v.masked)) in
      (l, here, All-get AreLevels s.caches idx l v.levels here)

  pub store_levels-IsStanding :
      (idx : ℕ) (l : Levels V) (s : Lru2Store V)
      → AreLevels l
      → IsStanding s
      → IsStanding (store_levels idx l s)
  store_levels-IsStanding idx l s h v = record {
    levels = All-set AreLevels s.caches idx l v.levels h;
    masked = omega (arith, v.masked, length-set s.caches idx l);
  }
