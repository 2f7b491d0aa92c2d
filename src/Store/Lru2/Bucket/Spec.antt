-- ===== src/Store/Lru2/Bucket/Spec.antt =====
-- What a bucket of lru2.go is meant to be: the list of its nodes, the most recent first, with no
-- links, indices or table.
use go.Common.{
  ℕ, Bool, true, false, Option, none, some, List, [], ◌∷◌, ◌++◌, nat_beq, if◌then◌else◌, length,
  Bytes, bytes_beq, is_some,
}
use go.Common.Int64
use go.Store.Lru2.Bucket.{Node, Bucket, put, get, del}
use go.Store.Lru2.Bucket.Chain.{drop_last}

pub data Call (V : Type 0) : Type 0 where
  put_call : Bytes → Option V → ℕ → Call V
  get_call : Bytes → Call V
  del_call : Bytes → Call V

-- What a call answers with: `put` whether the key is new, and the entry that it hands to `onEvicted`;
-- `get` and `del` the node.
pub data Answer (V : Type 0) : Type 0 where
  put_answer : (added : Bool) → (evicted : Option (Bytes × Option V)) → Answer V
  node_answer : Option (Node V) → Answer V

module _ {V : Type 0} where
  abbrev pub find : Bytes → List (Node V) → Option (Node V)
  find key [] = none
  find key (node ∷ nodes) = if bytes_beq node.k key then some node else find key nodes

  abbrev pub others : Bytes → List (Node V) → List (Node V)
  others key [] = []
  others key (node ∷ nodes) = if bytes_beq node.k key then nodes else node ∷ others key nodes

  abbrev pub shown_evicted : Node V → Option (Bytes × Option V)
  shown_evicted node = if Int64.lt 0 node.expire_at then some (node.k, node.v) else none

  -- The entry of the oldest node, unless that one is deleted.
  abbrev pub evicted_of : List (Node V) → Option (Bytes × Option V)
  evicted_of [] = none
  evicted_of (node ∷ []) = shown_evicted node
  evicted_of (_ ∷ next ∷ rest) = evicted_of (next ∷ rest)

  -- The answer to a call, and the list after it.
  abbrev pub apply : (size : ℕ) → Call V → List (Node V) → Answer V × List (Node V)
  apply size (put_call key val expire_at) nodes =
      let node : Node V = record { k = key; v = val; expire_at = expire_at } in
      if is_some (find key nodes)
      then (put_answer false none, node ∷ others key nodes)
      else (if nat_beq (length nodes) size
          then (put_answer true (evicted_of nodes), node ∷ drop_last nodes)
          else (put_answer true none, node ∷ nodes))
  apply size (get_call key) nodes = elim (find key nodes) [
    | none ↦ (node_answer none, nodes)
    | some node ↦ (node_answer (some node), node ∷ others key nodes)
  ]
  apply size (del_call key) nodes = elim (find key nodes) [
    | none ↦ (node_answer none, nodes)
    | some node ↦
        if Int64.lt 0 node.expire_at
        then (node_answer (some node), others key nodes ++ record node { expire_at = 0 } ∷ [])
        else (node_answer none, nodes)
  ]

  -- The answers of a sequence of calls, and the list after it.
  unfoldable pub replay :
      (size : ℕ) → List (Call V) → List (Node V) → List (Answer V) × List (Node V)
  replay size [] nodes = ([], nodes)
  replay size (c ∷ calls) nodes =
      let (answer, nodes') = apply size c nodes in
      let (answers, last) = replay size calls nodes' in (answer ∷ answers, last)

  -- The same calls on a bucket; `none` is a panic.
  unfoldable pub run_call : Call V → Bucket V → Option (Answer V × Bucket V)
  run_call (put_call key val expire_at) b = elim (put key val expire_at b) [
    | none ↦ none
    | some q ↦ some (put_answer q.added q.evicted, q.bucket)
  ]
  run_call (get_call key) b = some (node_answer (get key b).0, (get key b).1)
  run_call (del_call key) b = some (node_answer (del key b).0, (del key b).1)

  unfoldable pub run : List (Call V) → Bucket V → Option (List (Answer V) × Bucket V)
  run [] b = some ([], b)
  run (c ∷ calls) b = elim (run_call c b) [
    | none ↦ none
    | some (answer, b') ↦ elim (run calls b') [
      | none ↦ none
      | some (answers, last) ↦ some (answer ∷ answers, last)
    ]
  ]
