-- ===== src/Flight/Safety.antt =====
-- What `Do` of singleflight.go promises in every reachable state.
use go.Common.{
  bytes_beq, ℕ, ◌<◌, ◌≡◌, refl, ◌⊎◌, inl, inr, Option, none, some, Bytes, bytes_eq, bytes_beq_iff,
  Bool-cases, nat_beq, nat_beq_iff, arith,
}
use go.Common.Map.{lookup, lookup-insert, lookup-delete}
use go.Flight.{
  Stage, idle, waiting, running, finished, returned, Flights, Step, enter, join, finish, leave,
  wake, again, Reaches, here, then, start, store_call, at,
}

module _ {A : Type 0} where
  -- The call that a goroutine answers for.
  abbrev duty : Stage A → Option (Bytes × ℕ)
  duty (running key c) = some (key, c)
  duty (finished key c) = some (key, c)
  duty _ = none

  record IsExclusive (s : Flights A) : Type 0 where
    listed :
        (i c : ℕ) (key : Bytes)
        → duty (s.stage i) ≡ some (key, c)
        → (lookup key s.table ≡ some c) × (c < s.next)
    single :
        (i j c : ℕ) (key other : Bytes)
        → duty (s.stage i) ≡ some (key, c)
        → duty (s.stage j) ≡ some (other, c)
        → i ≡ j

  start-IsExclusive : IsExclusive start
  start-IsExclusive = record {
    listed = λ i c key e. absurd (ground arith);
    single = λ i j c key other e _. absurd (ground arith);
  }

  Step-IsExclusive : {s s' : Flights A} → Step s s' → IsExclusive s → IsExclusive s'
  unfolding store_call
  Step-IsExclusive (enter i key s e free) v = record {
    listed = λ j c k h.
        ground (arith, v.listed j c k, lookup-insert key k s.next s.table, bytes_beq_iff key k);
    single =
        λ j l c k k' h h'. ground (arith, v.single j l c k k', v.listed j c k, v.listed l c k');
  }
  Step-IsExclusive (join i d key s e there) v = record {
    listed = λ j c k h. ground (arith, v.listed j c k);
    single = λ j l c k k' h h'. ground (arith, v.single j l c k k');
  }
  Step-IsExclusive (finish i d key r s e) v = record {
    listed = λ j c k h. ground (arith, v.listed j c k);
    single = λ j l c k k' h h'. ground (arith, v.single j l c k k');
  }
  Step-IsExclusive (leave i d key r s e there) v = record {
    listed = λ j c k h. ground (
      arith,
      v.listed j c k,
      v.listed i d key,
      v.single i j c key k,
      lookup-delete key k s.table,
      bytes_beq_iff key k,
    );
    single = λ j l c k k' h h'. ground (arith, v.single j l c k k');
  }
  Step-IsExclusive (wake i d key r s e there) v = record {
    listed = λ j c k h. ground (arith, v.listed j c k);
    single = λ j l c k k' h h'. ground (arith, v.single j l c k k');
  }
  Step-IsExclusive (again i d key r s e) v = record {
    listed = λ j c k h. ground (arith, v.listed j c k);
    single = λ j l c k k' h h'. ground (arith, v.single j l c k k');
  }

  Reaches-IsExclusive : {s s' : Flights A} → Reaches s s' → IsExclusive s → IsExclusive s'
  Reaches-IsExclusive (here s) v = v
  Reaches-IsExclusive (then s s' s'' path step) v =
      Step-IsExclusive step (Reaches-IsExclusive path v)

  -- In every state that is reached from the start, no two goroutines run a function for the same
  -- key.
  pub running_once :
      (s : Flights A) (i j c d : ℕ) (key : Bytes)
      → Reaches start s
      → s.stage i ≡ running key c
      → s.stage j ≡ running key d
      → i ≡ j
  running_once s i j c d key path e e' =
      let v = Reaches-IsExclusive path start-IsExclusive in
      ground (arith, v.listed i c key, v.listed j d key, v.single i j c key key)

  abbrev Told : ℕ → Flights A → Type 0
  Told c s = (r : Option A) × (s.results c ≡ some r)

  record IsServed (s : Flights A) : Type 0 where
    held :
        (c : ℕ) (key : Bytes)
        → lookup key s.table ≡ some c
        → (i : ℕ) × (duty (s.stage i) ≡ some (key, c))
    told : (i c : ℕ) (key : Bytes) → s.stage i ≡ finished key c → Told c s
    served :
        (i c : ℕ) (key : Bytes)
        → s.stage i ≡ waiting key c
        → Told c s ⊎ ((j : ℕ) × (s.stage j ≡ running key c))

  -- A goroutine that answers for a call runs it or has its result.
  busy :
      (i c : ℕ) (key : Bytes) (s : Flights A)
      → IsServed s
      → duty (s.stage i) ≡ some (key, c)
      → Told c s ⊎ (s.stage i ≡ running key c)
  busy i c key s v h = go (s.stage i) refl h
    where
      go :
          (stage : Stage A)
          → s.stage i ≡ stage
          → duty stage ≡ some (key, c)
          → Told c s ⊎ (s.stage i ≡ running key c)
      go (running k d) e h = inr (ground arith)
      go (finished k d) e h = inl (v.told i c key (ground arith))
      go idle e h = absurd (ground arith)
      go (waiting k d) e h = absurd (ground arith)
      go (returned k d r) e h = absurd (ground arith)

  -- A step that moves goroutine `i` from a stage without a duty to another such stage.
  module _ (i : ℕ) (x : Stage A) (s : Flights A) (v : IsServed s) (e : duty (s.stage i) ≡ none)
      (e' : duty x ≡ none) where
    moved-held :
        (c : ℕ) (key : Bytes)
        → lookup key s.table ≡ some c
        → (j : ℕ) × (duty (at i x s.stage j) ≡ some (key, c))
    moved-held c key h = let (j, d) = v.held c key h in (j, ground (arith, nat_beq_iff i j))

    moved-told : (j c : ℕ) (key : Bytes) → at i x s.stage j ≡ finished key c → Told c s
    moved-told j c key h = elim (Bool-cases (nat_beq i j)) [
      | inl same ↦ absurd (ground arith)
      | inr apart ↦ v.told j c key (ground arith)
    ]

    moved-served :
        (j c : ℕ) (key : Bytes)
        → s.stage j ≡ waiting key c
        → Told c s ⊎ ((l : ℕ) × (at i x s.stage l ≡ running key c))
    moved-served j c key h = elim (v.served j c key h) [
      | inl t ↦ inl t
      | inr (l, run) ↦ inr (l, ground (arith, nat_beq_iff i l))
    ]

  Step-IsServed : {s s' : Flights A} → Step s s' → IsExclusive s → IsServed s → IsServed s'
  unfolding store_call
  Step-IsServed (enter i key s e free) u v = record {
    held = λ c k h. elim (Bool-cases (bytes_beq key k)) [
      | inl same ↦ (
        i,
        ground (arith, lookup-insert key k s.next s.table, nat_beq_iff i i, bytes_beq_iff key k),
      )
      | inr apart ↦
          let (j, d) = v.held c k (ground (arith, lookup-insert key k s.next s.table)) in
          (j, ground (arith, nat_beq_iff i j))
    ];
    told = λ j c k h. elim (Bool-cases (nat_beq i j)) [
      | inl same ↦ absurd (ground arith)
      | inr apart ↦ v.told j c k (ground arith)
    ];
    served = λ j c k h. elim (Bool-cases (nat_beq i j)) [
      | inl same ↦ absurd (ground arith)
      | inr apart ↦ elim (v.served j c k (ground arith)) [
        | inl t ↦ inl t
        | inr (l, run) ↦ inr (l, ground (arith, nat_beq_iff i l))
      ]
    ];
  }
  Step-IsServed (join i d key s e there) u v =
      let plain : duty (s.stage i) ≡ none = ground arith in
      record {
        held = moved-held i (waiting key d) s v plain refl;
        told = moved-told i (waiting key d) s v plain refl;
        served = λ j c k h. elim (Bool-cases (nat_beq i j)) [
          | inl same ↦
              let (l, on) = v.held d key there in
              let call : d ≡ c = ground arith in
              let name : key ≡ k = ground arith in
              elim (busy l d key s v on) [
                | inl (w, there') ↦ inl (w, ground arith)
                | inr run ↦ inr (l, ground (arith, nat_beq_iff i l))
              ]
          | inr apart ↦ moved-served i (waiting key d) s v plain refl j c k (ground arith)
        ];
      }
  Step-IsServed (finish i d key r s e) u v = record {
    held = λ c k h. let (j, on) = v.held c k h in (j, ground (arith, nat_beq_iff i j));
    told = λ j c k h. elim (Bool-cases (nat_beq d c)) [
      | inl same ↦ (r, ground arith)
      | inr other ↦ elim (Bool-cases (nat_beq i j)) [
        | inl same ↦ absurd (ground (arith, nat_beq_iff d c))
        | inr apart ↦ let (w, there) = v.told j c k (ground arith) in (w, ground arith)
      ]
    ];
    served = λ j c k h. elim (Bool-cases (nat_beq d c)) [
      | inl same ↦ inl (r, ground arith)
      | inr other ↦ elim (v.served j c k (ground arith)) [
        | inl (w, there) ↦ inl (w, ground arith)
        | inr (l, run) ↦ inr (l, ground (arith, nat_beq_iff i l, nat_beq_iff d c))
      ]
    ];
  }
  Step-IsServed (leave i d key r s e there) u v = record {
    held = λ c k h.
        let kept : lookup k s.table ≡ some c = ground (arith, lookup-delete key k s.table) in
        let (j, on) = v.held c k kept in
        (j, ground (arith, nat_beq_iff i j, lookup-delete key k s.table, bytes_beq_iff key k));
    told = λ j c k h. elim (Bool-cases (nat_beq i j)) [
      | inl same ↦ absurd (ground arith)
      | inr apart ↦ v.told j c k (ground arith)
    ];
    served = λ j c k h. elim (Bool-cases (nat_beq i j)) [
      | inl same ↦ absurd (ground arith)
      | inr apart ↦ elim (v.served j c k (ground arith)) [
        | inl t ↦ inl t
        | inr (l, run) ↦ inr (l, ground (arith, nat_beq_iff i l))
      ]
    ];
  }
  Step-IsServed (wake i d key r s e there) u v =
      let plain : duty (s.stage i) ≡ none = ground arith in
      record {
        held = moved-held i (returned key d r) s v plain refl;
        told = moved-told i (returned key d r) s v plain refl;
        served = λ j c k h. elim (Bool-cases (nat_beq i j)) [
          | inl same ↦ absurd (ground arith)
          | inr apart ↦ moved-served i (returned key d r) s v plain refl j c k (ground arith)
        ];
      }
  Step-IsServed (again i d key r s e) u v =
      let plain : duty (s.stage i) ≡ none = ground arith in
      record {
        held = moved-held i idle s v plain refl;
        told = moved-told i idle s v plain refl;
        served = λ j c k h. elim (Bool-cases (nat_beq i j)) [
          | inl same ↦ absurd (ground arith)
          | inr apart ↦ moved-served i idle s v plain refl j c k (ground arith)
        ];
      }

  start-IsServed : IsServed start
  unfolding lookup
  start-IsServed = record {
    held = λ c k h. absurd (ground arith);
    told = λ i c k h. absurd (ground arith);
    served = λ i c k h. absurd (ground arith);
  }

  Reaches-IsServed : {s s' : Flights A} → Reaches s s' → IsExclusive s → IsServed s → IsServed s'
  Reaches-IsServed (here s) u v = v
  Reaches-IsServed (then s s' s'' path step) u v =
      Step-IsServed step (Reaches-IsExclusive path u) (Reaches-IsServed path u v)

  -- No caller waits in vain: in every state that is reached from the start, the call that a
  -- goroutine waits for has its result, or some goroutine runs its function.
  pub waiting_served :
      (s : Flights A) (i c : ℕ) (key : Bytes)
      → Reaches start s
      → s.stage i ≡ waiting key c
      → ((r : Option A) × (s.results c ≡ some r)) ⊎ ((j : ℕ) × (s.stage j ≡ running key c))
  waiting_served s i c key path e =
      (Reaches-IsServed path start-IsExclusive start-IsServed).served i c key e
