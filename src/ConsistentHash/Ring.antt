-- ===== src/ConsistentHash/Ring.antt =====
-- con_hash.go: the state of the ring, its construction, and adding, removing and marking nodes.
-- `[]` is the empty string. An `int` that counts nodes or replicas is a number; the int64 counters
-- wrap.
pub mod Members
pub mod Removal
use go.Common.{
  ℕ, zero, suc, ◌+◌, ◌%◌, ◌^◌, Bool, not, Option, none, some, List, [], ◌∷◌, ◌++◌, nat_beq,
  if◌then◌else◌, is_some, Bytes, ◌==◌, bytes_eq, nat_eq, contains,
}
use go.Common.Map.{Map, lookup, insert, delete}
use mathlib.Core.Option
use go.ConsistentHash.Defaults.{Config}
use go.ConsistentHash.Sorting.{sort_ints, decimal}

pub record Ring : Type 0 where
  pub config : Config
  pub hashes : List ℕ  -- `keys`
  pub hash_map : Map ℕ Bytes
  pub node_replicas : Map Bytes ℕ
  pub node_counts : Map Bytes ℕ
  pub total_requests : ℕ
  pub unhealthy_nodes : List Bytes  -- the keys of the map that hold `true`

unfoldable pub new : Config → Ring
new config = record {
  config = config;
  hashes = [];
  hash_map = [];
  node_replicas = [];
  node_counts = [];
  total_requests = 0;
  unhealthy_nodes = [];
}

-- `WithConfig`
pub data RingOption : Type 0 where
  with_config : Config → RingOption

-- The configuration that the options of `New` leave, from the default one.
unfoldable pub set_config : List RingOption → Config → Config
set_config [] config = config
set_config (with_config config ∷ opts) _ = set_config opts config

unfoldable pub new_with : (defaults : Config) → List RingOption → Ring
new_with defaults opts = new (set_config opts defaults)

pub data Error : Type 0 where
  no_nodes invalid_node not_found : Error

-- `int(m.config.HashFunc([]byte(fmt.Sprintf("%s-%d", node, i))))`
unfoldable pub virtual_hash : Config → Bytes → ℕ → ℕ
virtual_hash config node i = config.hash_func (node ++ b'-' ∷ decimal i)

-- The loop of `addNode`, with `n` replicas left from replica `i`.
unfoldable pub add_replicas : Bytes → (n i : ℕ) → Ring → Ring
add_replicas node zero i r = r
add_replicas node (suc n) i r =
    let hash = virtual_hash r.config node i in
    add_replicas node n (i + 1)
      (record r { hashes = r.hashes ++ hash ∷ []; hash_map = insert hash node r.hash_map })

unfoldable pub add_node : Bytes → ℕ → Ring → Ring
add_node node replicas r =
    let r' = add_replicas node replicas 0 r in
    record r' {
      node_replicas = insert node replicas r'.node_replicas;
      node_counts =
          if is_some (lookup node r'.node_counts)
          then r'.node_counts
          else insert node 0 r'.node_counts;
    }

unfoldable pub add_nodes : List Bytes → Ring → Ring
add_nodes [] r = r
add_nodes (node ∷ nodes) r =
    add_nodes nodes (if node == [] then r else add_node node r.config.default_replicas r)

-- `Add`: `some e` is the error.
unfoldable pub add : List Bytes → Ring → Option Error × Ring
add [] r = (some no_nodes, r)
add (node ∷ nodes) r =
    let r' = add_nodes (node ∷ nodes) r in (none, record r' { hashes = sort_ints r'.hashes })

-- The inner loop of `Remove`: drops the first key that equals the hash.
unfoldable pub erase_first : ℕ → List ℕ → List ℕ
erase_first hash [] = []
erase_first hash (x ∷ xs) = if nat_beq x hash then xs else x ∷ erase_first hash xs

unfoldable pub remove_replicas : Bytes → (n i : ℕ) → Ring → Ring
remove_replicas node zero i r = r
remove_replicas node (suc n) i r =
    let hash = virtual_hash r.config node i in
    remove_replicas node n (i + 1)
      (record r { hash_map = delete hash r.hash_map; hashes = erase_first hash r.hashes })

abbrev pub without : Bytes → List Bytes → List Bytes
without node [] = []
without node (x ∷ xs) = if x == node then without node xs else x ∷ without node xs

abbrev pub replicas_of : Bytes → Ring → ℕ
replicas_of node r = Option.get_or (lookup node r.node_replicas) 0

unfoldable pub remove : Bytes → Ring → Option Error × Ring
remove node r =
    let replicas = replicas_of node r in
    let r' = remove_replicas node replicas 0 r in
    if node == []
    then (some invalid_node, r)
    else (if nat_beq replicas 0 then (some not_found, r) else (
      none,
      record r' {
        node_replicas = delete node r'.node_replicas;
        node_counts = delete node r'.node_counts;
        unhealthy_nodes = without node r'.unhealthy_nodes;
      },
    ))

unfoldable pub mark_unhealthy : Bytes → Ring → Ring
mark_unhealthy node r = record r {
  unhealthy_nodes =
      if contains r.unhealthy_nodes node then r.unhealthy_nodes else node ∷ r.unhealthy_nodes;
}

unfoldable pub mark_healthy : Bytes → Ring → Ring
mark_healthy node r = record r { unhealthy_nodes = without node r.unhealthy_nodes }

unfoldable pub has_node : Ring → Bytes → Bool
has_node r node = is_some (lookup node r.node_replicas)

unfoldable pub is_healthy : Ring → Bytes → Bool
is_healthy r node = not (contains r.unhealthy_nodes node)

-- The two atomic additions.
unfoldable pub count_request : Bytes → Ring → Ring
count_request node r = record r {
  node_counts = elim (lookup node r.node_counts) [
    | none ↦ r.node_counts
    | some c ↦ insert node ((c + 1) % 2 ^ 64) r.node_counts
  ];
  total_requests = (r.total_requests + 1) % 2 ^ 64;
}
