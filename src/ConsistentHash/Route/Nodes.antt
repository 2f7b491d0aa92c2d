-- ===== src/ConsistentHash/Route/Nodes.antt =====
-- What `GetN`, `GetNHealthy` and `GetReplica` of con_hash.go return.
use go.Common.{
  ℕ, zero, suc, ◌+◌, ◌-◌, ◌%◌, ◌≤◌, ◌<◌, ◌≡◌, ◌≢◌, ◌⊎◌, inl, inr, refl, sym, ap, Bool, true, false,
  List, [], ◌∷◌, ◌++◌, arith, ◌∙◌, nat_beq, length, Bytes, bytes_beq, bytes_beq_iff, bytes_eq,
  contains, ◌||◌, Bool-cases,
}
use go.ConsistentHash.Ring.{Ring, is_healthy}
use go.ConsistentHash.Route.{
  second_or, start_index, node_at, get, get_n_loop, get_n, get_n_healthy, get_replica,
}
use go.ConsistentHash.Route.Clockwise.{start_index-Successor}
use go.ConsistentHash.Route.Walk.{Distinct, Picks, get_n_loop-Walked, turn}
use go.ConsistentHash.Sorting.{IsSorted}

module _ (key : Bytes) (limit : ℕ) (r : Ring) (sorted : IsSorted r.hashes)
    (nonempty : 0 < length r.hashes) where
  loop-Picks :
      (admit : Bytes → Bool)
      → Picks admit r limit (get_n_loop admit r (start_index key r) limit (length r.hashes) 0 [] [])
  loop-Picks admit =
      let w =
        get_n_loop-Walked admit r (start_index key r) limit nonempty (length r.hashes) 0 [] []
          (λ x. refl) tt tt in
      let (inside, _) = start_index-Successor key r sorted nonempty in
      record {
        bounded = w.bounded (omega arith);
        distinct = w.distinct;
        good = w.good;
        complete = λ short j lt a.
            let (i, il, e) = turn (start_index key r) j (length r.hashes) inside lt in
            let a' : admit (node_at r ((start_index key r + i) % length r.hashes)) ≡ true =
              rw e a in
            rw e at (w.complete short i (omega arith) (omega arith) a');
      }

  module _ (named : key ≢ []) (some_wanted : 0 < limit) where
    guard_open : (bytes_beq key [] || nat_beq limit 0 || nat_beq (length r.hashes) 0) ≡ false
    guard_open = ground (arith, bytes_beq_iff key [])

    -- On a sorted ring that is not empty, `GetN` of a key that is not empty and a positive n returns
    -- at most n nodes, none twice, each the owner of a virtual node of the ring; where it returns
    -- fewer than n, every owner of a virtual node is among them.
    pub get_n-Picks : Picks (λ _. true) r limit (get_n key limit r)
    unfolding get_n
    get_n-Picks = rw guard_open (loop-Picks (λ _. true))

    -- On a sorted ring that is not empty, `GetNHealthy` of a key that is not empty and a positive n
    -- returns at most n nodes, none twice, each a healthy owner of a virtual node; where it returns
    -- fewer than n, every healthy owner is among them.
    pub get_n_healthy-Picks : Picks (is_healthy r) r limit (get_n_healthy key limit r)
    unfolding get_n_healthy
    get_n_healthy-Picks = rw guard_open (loop-Picks (is_healthy r))

    first_round :
        (n idx : ℕ)
        → idx < length r.hashes
        → (more : List Bytes) × (get_n_loop (λ _. true) r idx limit (suc n) 0 [] []
            ≡ node_at r idx ∷ more)
    unfolding get_n_loop contains
    first_round n idx inside =
        let here : (idx + 0) % length r.hashes ≡ idx = grind arith in
        let w =
          get_n_loop-Walked (λ _. true) r idx limit nonempty n 1 (node_at r idx ∷ [])
            (node_at r idx ∷ []) (λ x. refl) (refl, tt) ((refl, (idx, inside, refl)), tt) in
        let room : go.Common.ltb 0 limit ≡ true = ground arith in
        (w.more, rw (here, room) w.extends)

    -- On the same terms the first node of `GetN` is the node that `Get` returns: the primary.
    pub get_n-get : (more : List Bytes) × (get_n key limit r ≡ (get key r).0 ∷ more)
    unfolding get_n get
    get_n-get =
        let (inside, _) = start_index-Successor key r sorted nonempty in
        let n = length r.hashes - 1 in
        let size : length r.hashes ≡ suc n = omega arith in
        let (more, e) = first_round n (start_index key r) inside in
        let guard : (bytes_beq key [] || nat_beq (length r.hashes) 0) ≡ false =
          ground (arith, bytes_beq_iff key []) in
        (
          more,
          rw (guard_open, guard)
              (ap (λ k. get_n_loop (λ _. true) r (start_index key r) limit k 0 [] []) size ∙ e),
        )

Distinct-ne : (x y : Bytes) (more : List Bytes) → Distinct (x ∷ y ∷ more) → y ≢ x
unfolding contains
Distinct-ne x y more d = ground (arith, bytes_beq_iff y x)

-- On a sorted ring that is not empty, a replica that `GetReplica` finds for a key that is not empty
-- is another node than the primary that `Get` returns.
pub get_replica-ne-get :
    (key : Bytes) (r : Ring)
    → IsSorted r.hashes
    → 0 < length r.hashes
    → key ≢ []
    → get_replica key r ≢ []
    → get_replica key r ≢ (get key r).0
unfolding get_replica
get_replica-ne-get key r sorted nonempty named found =
    let (more, e) = get_n-get key 2 r sorted nonempty named (omega arith) in
    let p = get_n-Picks key 2 r sorted nonempty named (omega arith) in
    second (get key r).0 more (get_n key 2 r) e p.distinct found
  where
    second :
        (x : Bytes) (more out : List Bytes)
        → out ≡ x ∷ more
        → Distinct out
        → second_or [] out ≢ []
        → second_or [] out ≢ x
    second x [] out e d f = absurd (f (rw e refl))
    second x (y ∷ more) out e d f = λ q. Distinct-ne x y more (rw e at d) (rw e at q)
