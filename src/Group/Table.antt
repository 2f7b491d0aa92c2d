-- ===== src/Group/Table.antt =====
-- cache/group.go: making a group, the table of groups that it enters, and the report of `Stats`. The
-- goroutines that `NewGroup` starts are the pool of Group/Workers. A getter is a parameter of the
-- methods; here it counts only whether one was given.
use go.Common.{
  ℕ, ◌≡◌, ◌≢◌, refl, Bool, true, false, Option, none, some, List, [], ◌∷◌, Bytes, bytes_eq,
  bytes_beq_iff, arith, if◌then◌else◌,
}
use go.Common.Map.{Map, lookup, insert, keys, lookup-insert, lookup-delete}
use go.Bloom
use go.ByteView.{ByteView}
use go.Store.Backend.{Backend}
use go.Cache.{new_cache, default_cache_options}
use go.Store.Options.{Options}
use go.Group.{Group, Peers, Stats}
use go.Group.Destroy.{close}

-- The options; `with_bloom_filter` has the values of the two formulas that `New` computes.
pub data GroupOption (P : Type 0) : Type 0 where
  with_expiration : ℕ → GroupOption P
  with_peers : Peers P → GroupOption P
  with_cache_options : Options → GroupOption P
  with_bloom_filter : (m k : ℕ) → GroupOption P

abbrev pub no_stats : Stats
no_stats = record {
  loads = 0;
  local_hits = 0;
  local_misses = 0;
  peer_hits = 0;
  peer_misses = 0;
  loader_hits = 0;
  loader_errors = 0;
}

module _ {S P : Type 0} where
  unfoldable pub set_option : GroupOption P → Group S P → Group S P
  set_option (with_expiration d) g = record g { expiration = d }
  set_option (with_peers peers) g = record g { peers = some peers }
  set_option (with_cache_options opts) g = record g { main_cache = new_cache opts }
  set_option (with_bloom_filter m k) g = record g { bloom_filter = some (Bloom.new m k) }

  unfoldable pub set_options : List (GroupOption P) → Group S P → Group S P
  set_options [] g = g
  set_options (opt ∷ opts) g = set_options opts (set_option opt g)

  abbrev pub plain_group : (name : Bytes) → (cache_bytes : ℕ) → Group S P
  plain_group name cache_bytes = record {
    name = name;
    main_cache = new_cache (record default_cache_options { max_bytes = cache_bytes });
    peers = none;
    expiration = 0;
    closed = false;
    bloom_filter = none;
    stats = no_stats;
    done = false;
    sync_tasks = [];
  }

  -- `NewGroup`; `none`: it panics where no getter is given.
  unfoldable pub new_group :
      (name : Bytes)
      → (cache_bytes : ℕ) → (has_getter : Bool) → List (GroupOption P)
      → Map Bytes (Group S P)
      → Option (Group S P × Map Bytes (Group S P))
  new_group name cache_bytes has_getter opts groups =
      let g = set_options opts (plain_group name cache_bytes) in
      if has_getter then some (g, insert name g groups) else none

  -- `GetGroup` and `ListGroups`.
  unfoldable pub get_group : Bytes → Map Bytes (Group S P) → Option (Group S P)
  get_group name groups = lookup name groups

  unfoldable pub list_groups : Map Bytes (Group S P) → List Bytes
  list_groups groups = keys groups

set_options-open :
    {S P : Type 0} (opts : List (GroupOption P)) (g : Group S P)
    → ((set_options opts g).closed ≡ g.closed) × ((set_options opts g).name ≡ g.name)
unfolding set_options set_option
set_options-open [] g = (refl, refl)
set_options-open (with_expiration d ∷ opts) g = set_options-open opts _
set_options-open (with_peers peers ∷ opts) g = set_options-open opts _
set_options-open (with_cache_options o ∷ opts) g = set_options-open opts _
set_options-open (with_bloom_filter m k ∷ opts) g = set_options-open opts _

-- `NewGroup` with a getter makes an open group of the name that it is given, which the table has
-- under that name from then on, in place of any other, while the other names keep their groups. Where
-- the group that it replaced was open and is closed later, the name is lost to the table, although
-- the new group is still open.
pub close-replaced :
    {V P : Type 0} (backend : Backend V) (as_view : V → Option ByteView) (of_view : ByteView → V)
    (name : Bytes) (cache_bytes : ℕ) (opts : List (GroupOption P))
    (groups : Map Bytes (Group backend.State P))
    → (g : Group backend.State P) × ((groups' : Map Bytes (Group backend.State P)) × (new_group name
            cache_bytes true opts groups
          ≡ some (g, groups'))
        × (g.closed ≡ false)
        × (g.name ≡ name)
        × (get_group name groups' ≡ some g)
        × ((other : Bytes) → other ≢ name → get_group other groups' ≡ get_group other groups)
        × ((old : Group backend.State P)
            → get_group name groups ≡ some old
            → old.closed ≡ false
            → old.name ≡ name
            → get_group name (close backend as_view of_view old groups').1 ≡ none))
unfolding new_group get_group close
close-replaced backend as_view of_view name cache_bytes opts groups =
    let (same_closed, same_name) = set_options-open opts (plain_group name cache_bytes) in
    let g = set_options opts (plain_group name cache_bytes) in
    (
      g,
      (
        insert name g groups,
        refl,
        same_closed,
        same_name,
        ground (arith, lookup-insert name name g groups, bytes_beq_iff name name),
        λ other ne. ground (arith, lookup-insert name other g groups, bytes_beq_iff name other),
        λ old there open' own.
            rw (open', own)
              (ground
                (arith, lookup-delete name name (insert name g groups), bytes_beq_iff name name)),
      ),
    )
