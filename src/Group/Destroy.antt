-- ===== src/Group/Destroy.antt =====
-- The table of groups of group.go, and the lock `groupsMu` around it.
use go.Common.{
  All, ◌++◌, ap, ◌∙◌, arith, is_some, ◌≡◌, refl, Bool, true, false, Option, none, some, [], ◌∷◌,
  Bytes, bytes_eq, if◌then◌else◌, inl, inr, Bool-cases,
}
use go.Common.Map.{Map, lookup, delete, lookup-delete}
use go.ByteView.{ByteView}
use go.Store.Backend.{Backend}
use go.Cache
use go.Group.{Group}

-- A call that returns, or one that waits for the lock that its own goroutine holds.
pub data Outcome (R : Type 0) : Type 0 where
  returns : R → Outcome R
  deadlock : Outcome R

-- `Close`, called with `groupsMu` free: the table loses the entry of the group's name.
unfoldable pub close :
    {V P : Type 0} (backend : Backend V) (as_view : V → Option ByteView) (of_view : ByteView → V)
    → Group backend.State P
    → Map Bytes (Group backend.State P)
    → Group backend.State P × Map Bytes (Group backend.State P)
close backend as_view of_view g groups = if g.closed then (g, groups) else (
  record g {
    closed = true;
    done = true;
    main_cache = Cache.close backend as_view of_view g.main_cache;
  },
  delete g.name groups,
)

module _ {V P : Type 0} (backend : Backend V) (as_view : V → Option ByteView)
    (of_view : ByteView → V) where
  -- `Close` of a caller that holds `groupsMu` or not: it returns at once where the group is closed,
  -- and else comes to its own `groupsMu.Lock`, which Go does not grant to the holder again.
  unfoldable pub close_locked :
      (held : Bool)
      → Group backend.State P
      → Map Bytes (Group backend.State P)
      → Outcome (Group backend.State P × Map Bytes (Group backend.State P))
  close_locked held g groups =
      if g.closed
      then returns (g, groups)
      else (if held then deadlock else returns (close backend as_view of_view g groups))

  -- `g.Close(); delete(groups, name)`, the lock held.
  unfoldable pub close_and_delete :
      Bytes
      → Group backend.State P
      → Map Bytes (Group backend.State P)
      → Outcome (Map Bytes (Group backend.State P))
  close_and_delete name g groups = elim (close_locked true g groups) [
    | returns (_, groups') ↦ returns (delete name groups')
    | deadlock ↦ deadlock
  ]

  -- `DestroyGroup`.
  unfoldable pub destroy_group :
      Bytes → Map Bytes (Group backend.State P) → Outcome (Bool × Map Bytes (Group backend.State P))
  destroy_group name groups = elim (lookup name groups) [
    | none ↦ returns (false, groups)
    | some g ↦ elim (close_and_delete name g groups) [
      | returns groups' ↦ returns (true, groups')
      | deadlock ↦ deadlock
    ]
  ]

  -- The loop of `DestroyAllGroups`, over the table in the order of the range.
  unfoldable pub destroy_loop :
      Map Bytes (Group backend.State P)
      → Map Bytes (Group backend.State P)
      → Outcome (Map Bytes (Group backend.State P))
  destroy_loop [] groups = returns groups
  destroy_loop ((name, g) ∷ more) groups = elim (close_and_delete name g groups) [
    | returns groups' ↦ destroy_loop more groups'
    | deadlock ↦ deadlock
  ]

  -- `DestroyAllGroups`.
  unfoldable pub destroy_all_groups :
      Map Bytes (Group backend.State P) → Outcome (Map Bytes (Group backend.State P))
  destroy_all_groups groups = destroy_loop groups groups

  -- With the lock free `Close` returns.
  close_locked-free :
      (g : Group backend.State P) (groups : Map Bytes (Group backend.State P))
      → close_locked false g groups ≡ returns (close backend as_view of_view g groups)
  unfolding close_locked close
  close_locked-free g groups = elim (Bool-cases g.closed) [
    | inl shut ↦ rw shut refl
    | inr open' ↦ rw open' refl
  ]

  open_close :
      (name : Bytes) (g : Group backend.State P) (groups : Map Bytes (Group backend.State P))
      → g.closed ≡ false
      → close_and_delete name g groups ≡ deadlock
  unfolding close_and_delete close_locked
  open_close name g groups open' = rw open' refl

  closed_close :
      (name : Bytes) (g : Group backend.State P) (groups : Map Bytes (Group backend.State P))
      → g.closed ≡ true
      → close_and_delete name g groups ≡ returns (delete name groups)
  unfolding close_and_delete close_locked
  closed_close name g groups shut = rw shut refl

  loop_open :
      (before after : Map Bytes (Group backend.State P)) (name : Bytes) (g : Group backend.State P)
      (groups : Map Bytes (Group backend.State P))
      → g.closed ≡ false
      → destroy_loop (before ++ (name, g) ∷ after) groups ≡ deadlock
  unfolding destroy_loop
  loop_open [] after name g groups open' = rw (open_close name g groups open', destroy_loop) refl
  loop_open ((other, h) ∷ before) after name g groups open' = elim (Bool-cases h.closed) [
    | inr open'' ↦ rw (open_close other h groups open'', destroy_loop) refl
    | inl shut ↦
        rw (closed_close other h groups shut, destroy_loop)
          (loop_open before after name g (delete other groups) open')
  ]

  loop_closed :
      (entries groups : Map Bytes (Group backend.State P))
      → All (λ e. e.1.closed ≡ true) entries
      → (rest : Map Bytes (Group backend.State P)) × (destroy_loop entries groups ≡ returns rest)
        × ((name : Bytes)
            → lookup name rest
              ≡ (if is_some (lookup name entries) then none else lookup name groups))
  unfolding destroy_loop lookup
  loop_closed [] groups all = (groups, refl, λ name. refl)
  loop_closed ((other, h) ∷ entries) groups all =
      let (rest, done, left) = loop_closed entries (delete other groups) all.1 in
      (
        rest,
        rw (closed_close other h groups all.0, destroy_loop) done,
        λ name. ground (arith, left name, lookup-delete other name groups),
      )

  -- `DestroyAllGroups` never returns where a group of the table is open, whichever it is and in
  -- whatever order the range visits the table; where all are closed it returns, and the table is empty.
  pub destroy_all_groups_lem :
      (groups : Map Bytes (Group backend.State P))
      → ((before after : Map Bytes (Group backend.State P)) (name : Bytes)
            (g : Group backend.State P)
          → groups ≡ before ++ (name, g) ∷ after
          → g.closed ≡ false
          → destroy_all_groups groups ≡ deadlock)
        × (All (λ e. e.1.closed ≡ true) groups
            → (rest : Map Bytes (Group backend.State P)) × (destroy_all_groups groups
                ≡ returns rest)
              × ((name : Bytes) → lookup name rest ≡ none))
  unfolding destroy_all_groups
  destroy_all_groups_lem groups = (
    λ before after name g split open'.
        ap (λ l. destroy_loop l groups) split ∙ loop_open before after name g groups open',
    λ all.
        let (rest, done, left) = loop_closed groups groups all in
        (rest, done, λ name. ground (arith, left name)),
  )
