-- ===== src/Client.antt =====
-- cache/client.go: the calls to another node. What gRPC makes of a call is a parameter, with `none`
-- for an error; the message types of cache/pb are written out as their fields. Timeouts are errors of
-- the call.
use go.Common.{Bool, true, false, Option, none, some, [], ◌∷◌, ◌++◌, if◌then◌else◌, Bytes}
use go.Metadata.{Pairs, Marks, from_peer_key, from_migration_key, true_text}

-- `pb.Request`, with the metadata that goes with the call.
pub record Request : Type 0 where
  pub group : Bytes
  pub key : Bytes
  pub value : Bytes
  pub pairs : Pairs

-- `Client` over the type of connections; `conn` is nil in no client that `NewClient` returns.
pub record Client (E C : Type 0) : Type 0 where
  pub addr : Bytes
  pub svc_name : Bytes
  pub etcd_cli : E
  pub conn : Option C

-- An etcd client is made where none is given.
abbrev given_or : {E : Type 0} → Option E → Option E → Option E
given_or none new_etcd = new_etcd
given_or (some cli) new_etcd = some cli

-- `NewClient`: `new_etcd` is the outcome of making an etcd client, `dial` that of `grpc.Dial`.
unfoldable pub new_client :
    {E C : Type 0}
    → (new_etcd : Option E) → (dial : Bytes → Option C) → (addr svc_name : Bytes)
    → (etcd_cli : Option E) → Option (Client E C)
new_client new_etcd dial addr svc_name etcd_cli = elim (given_or etcd_cli new_etcd) [
  | none ↦ none
  | some cli ↦ elim (dial addr) [
    | none ↦ none
    | some conn ↦
        some (record { addr = addr; svc_name = svc_name; etcd_cli = cli; conn = some conn })
  ]
]

unfoldable pub propagate_context : Marks → Pairs
propagate_context marks =
    (if marks.from_peer then (from_peer_key, true_text) ∷ [] else [])
    ++ (if marks.from_migration then (from_migration_key, true_text) ∷ [] else [])

-- `Get` sends no marks.
unfoldable pub get_request : (group key : Bytes) → Request
get_request group key = record { group = group; key = key; value = []; pairs = [] }

unfoldable pub delete_request : Marks → (group key : Bytes) → Request
delete_request marks group key = record {
  group = group;
  key = key;
  value = [];
  pairs = propagate_context marks;
}

unfoldable pub set_request : Marks → (group key value : Bytes) → Request
set_request marks group key value = record {
  group = group;
  key = key;
  value = value;
  pairs = propagate_context marks;
}

module _ {R : Type 0} (invoke : Request → Option R) where
  unfoldable pub get : (group key : Bytes) → Option R
  get group key = invoke (get_request group key)

  unfoldable pub delete : Marks → (group key : Bytes) → Option R
  delete marks group key = invoke (delete_request marks group key)

  -- `none` is the error; the answer of a `Set` is only logged.
  unfoldable pub set : Marks → (group key value : Bytes) → Bool
  set marks group key value = elim (invoke (set_request marks group key value)) [
    | none ↦ false
    | some _ ↦ true
  ]

-- `Close` closes the connection where there is one; `shut` says whether that succeeds.
unfoldable pub close : {E C : Type 0} → (shut : C → Bool) → Client E C → Bool
close shut c = elim c.conn [ none ↦ true | some conn ↦ shut conn ]
