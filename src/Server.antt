-- ===== src/Server.antt =====
-- cache/server.go: the options, the service's handlers over the table of groups, the interceptor for
-- cross-origin calls, and stopping. The gRPC server and etcd are parameters or steps of a log.
pub mod Relay
pub mod Sharing
use go.Common.{
  ℕ, ◌*◌, ◌^◌, Bool, true, false, not, ◌&&◌, Option, none, some, List, [], ◌∷◌, ◌++◌, if◌then◌else◌,
  Bytes, ◌==◌, bytes_eq, ◌⊎◌, inl, inr, contains, map,
}
use go.Common.Map.{Map, lookup, insert}
use go.ByteView.{ByteView, byte_slice}
use go.Store.Backend.{Backend, Times}
use go.Metadata.{Metadata, Marks, from_peer_key, from_migration_key, true_text}
use go.Client.{Request}
use go.Group.{Group, Result, Error, error, ok}
use go.Group.Methods

pub record ServerOptions : Type 0 where
  pub etcd_endpoints : List Bytes
  pub dial_timeout : ℕ
  pub max_msg_size : ℕ
  pub tls : Bool
  pub cert_file : Bytes
  pub key_file : Bytes
  pub cors_allowed_origins : List Bytes

-- "localhost:2379"
abbrev pub local_etcd : Bytes
local_etcd =
    b'l' ∷ b'o' ∷ b'c' ∷ b'a' ∷ b'l' ∷ b'h' ∷ b'o' ∷ b's' ∷ b't' ∷ b':' ∷ b'2' ∷ b'3' ∷ b'7' ∷ b'9'
    ∷ []

unfoldable pub default_server_options : ServerOptions
default_server_options = record {
  etcd_endpoints = local_etcd ∷ [];
  dial_timeout = 5_000_000_000;
  max_msg_size = 4 * 2 ^ 20;
  tls = false;
  cert_file = [];
  key_file = [];
  cors_allowed_origins = [];
}

pub data ServerOption : Type 0 where
  with_etcd_endpoints : List Bytes → ServerOption
  with_dial_timeout : ℕ → ServerOption
  with_tls : (cert_file key_file : Bytes) → ServerOption
  with_cors : List Bytes → ServerOption

unfoldable pub set_option : ServerOption → ServerOptions → ServerOptions
set_option (with_etcd_endpoints endpoints) o = record o { etcd_endpoints = endpoints }
set_option (with_dial_timeout timeout) o = record o { dial_timeout = timeout }
set_option (with_tls cert_file key_file) o = record o {
  tls = true;
  cert_file = cert_file;
  key_file = key_file;
}
set_option (with_cors origins) o = record o { cors_allowed_origins = origins }

unfoldable pub set_options : List ServerOption → ServerOptions → ServerOptions
set_options [] o = o
set_options (opt ∷ opts) o = set_options opts (set_option opt o)

-- A `Server`. Its `opts` is the pointer to the defaults, so it has no field for them here.
pub record Server (E : Type 0) : Type 0 where
  pub addr : Bytes
  pub svc_name : Bytes
  pub etcd_cli : E
  pub stopped : Bool  -- `stopCh` is closed

-- `NewServer` sets its options in `DefaultServerOptions` itself, which it returns as it leaves them;
-- `new_etcd` and `load_tls` are the outcomes of making an etcd client and of loading the certificate.
unfoldable pub new_server :
    {E : Type 0}
    → (new_etcd : ServerOptions → Option E) → (load_tls : (cert_file key_file : Bytes) → Bool)
    → (addr svc_name : Bytes) → List ServerOption
    → (defaults : ServerOptions) → Option (Server E) × ServerOptions
new_server new_etcd load_tls addr svc_name opts defaults =
    let options = set_options opts defaults in
    (
      elim (new_etcd options) [
        | none ↦ none
        | some cli ↦
            if options.tls && not (load_tls options.cert_file options.key_file)
            then none
            else some (record { addr = addr; svc_name = svc_name; etcd_cli = cli; stopped = false })
      ],
      options,
    )

-- What `Start` returns: an error of listening, or what serving the listener returns, with a goroutine
-- that registers the server under its name and address until `stopCh` is closed.
pub data Started (R : Type 0) : Type 0 where
  not_listening : Started R
  served : (registers : Bytes × Bytes) → R → Started R

unfoldable pub start :
    {E L R : Type 0} → (listen : Bytes → Option L) → (serve : L → R) → Server E → Started R
start listen serve s = elim (listen s.addr) [
  | none ↦ not_listening
  | some lis ↦ served (s.svc_name, s.addr) (serve lis)
]

-- What stopping does to the outside, in its order.
pub data Action : Type 0 where
  migrate_data_away close_stop_channel graceful_stop close_etcd close_picker : Action

-- `Stop`; `none`: closing the channel a second time panics.
unfoldable pub stop : {E : Type 0} → Server E → Option (List Action × Server E)
stop s =
    if s.stopped
    then none
    else some (close_stop_channel ∷ graceful_stop ∷ close_etcd ∷ [], record s { stopped = true })

unfoldable pub graceful_shutdown :
    {E : Type 0} → (has_picker : Bool) → Server E → Option (List Action × Server E)
graceful_shutdown has_picker s = elim (stop s) [
  | none ↦ none
  | some (actions, s') ↦ some (
    (if has_picker then migrate_data_away ∷ [] else [])
        ++ (actions ++ (if has_picker then close_picker ∷ [] else [])),
    s',
  )
]

-- `len(vals) > 0 && vals[0] == text`
abbrev pub first_is : Bytes → List Bytes → Bool
first_is text [] = false
first_is text (v ∷ _) = v == text

module _ (md : Metadata) where
  unfoldable pub decorate_context : md.Wire → Marks
  decorate_context wire = record {
    from_peer = first_is true_text (md.get wire from_peer_key);
    from_migration = first_is true_text (md.get wire from_migration_key);
  }

-- An error of a handler: there is no such group, or the group's own.
pub data Failure : Type 0 where
  no_group : Failure
  of_group : Error → Failure

module _ {V P : Type 0} (backend : Backend V) (as_view : V → Option ByteView)
    (of_view : ByteView → V) (peer_get : P → Bytes → Option Bytes)
    (getter : Bytes → Option Bytes) where
  abbrev pub Groups : Type 0
  Groups = Map Bytes (Group backend.State P)

  -- The bytes of the answer, or the error; `none` is a panic.
  unfoldable pub get :
      (now : ℕ) → Times → (group key : Bytes) → Groups → Option ((Failure ⊎ Bytes) × Groups)
  get now t group key groups = elim (lookup group groups) [
    | none ↦ some (inl no_group, groups)
    | some g ↦ elim (Methods.get backend as_view of_view peer_get getter now t key g) [
      | none ↦ none
      | some (error e, g') ↦ some (inl (of_group e), insert group g' groups)
      | some (ok view, g') ↦ some (inr (byte_slice view), insert group g' groups)
    ]
  ]

  unfoldable pub set :
      (now : ℕ)
      → Times
      → Marks
      → (group key value : Bytes) → Groups
      → Option ((Failure ⊎ Bytes) × Groups)
  set now t marks group key value groups = elim (lookup group groups) [
    | none ↦ some (inl no_group, groups)
    | some g ↦
        elim (Methods.set backend as_view of_view peer_get getter now t marks.from_peer
          marks.from_migration key value g) [
            | none ↦ none
            | some (some e, g') ↦ some (inl (of_group e), insert group g' groups)
            | some (none, g') ↦ some (inr value, insert group g' groups)
          ]
  ]

  -- The value of the answer says whether there was no error.
  unfoldable pub delete : Marks → (group key : Bytes) → Groups → (Bool × Option Failure) × Groups
  delete marks group key groups = elim (lookup group groups) [
    | none ↦ ((false, some no_group), groups)
    | some g ↦
        let (e, g') =
          Methods.delete backend as_view of_view peer_get getter marks.from_peer
            marks.from_migration key g in
        (
          elim e [ none ↦ (true, none) | some e' ↦ (false, some (of_group e')) ],
          insert group g' groups,
        )
  ]

  -- A request as it arrives, for the two methods that read its marks.
  module _ (md : Metadata) where
    unfoldable pub serve_set :
        (now : ℕ) → Times → Request → Groups → Option ((Failure ⊎ Bytes) × Groups)
    serve_set now t r groups =
        set now t (decorate_context md (md.deliver r.pairs)) r.group r.key r.value groups

    unfoldable pub serve_delete : Request → Groups → (Bool × Option Failure) × Groups
    serve_delete r groups = delete (decorate_context md (md.deliver r.pairs)) r.group r.key groups

-- "*" and "OPTIONS"
abbrev pub star : Bytes
star = b'*' ∷ []

abbrev pub options_text : Bytes
options_text = b'O' ∷ b'P' ∷ b'T' ∷ b'I' ∷ b'O' ∷ b'N' ∷ b'S' ∷ []

abbrev pub origin_key : Bytes
origin_key = b'o' ∷ b'r' ∷ b'i' ∷ b'g' ∷ b'i' ∷ b'n' ∷ []

abbrev pub method_key : Bytes
method_key = b':' ∷ b'm' ∷ b'e' ∷ b't' ∷ b'h' ∷ b'o' ∷ b'd' ∷ []

abbrev pub first_or : Bytes → List Bytes → Bytes
first_or d [] = d
first_or d (v ∷ _) = v

-- The origin that `corsInterceptor` allows; `trim` is `strings.TrimSpace`.
unfoldable pub allow_origin :
    (trim : Bytes → Bytes) → (allowed : List Bytes) → (origins : List Bytes) → Bytes
allow_origin trim [] origins = star
allow_origin trim (first ∷ rest) origins =
    let origin = first_or star origins in
    if contains (map trim (first ∷ rest)) origin then origin else first

-- The interceptor, over what the header may hold and the handler's answer: the allowed origin, and
-- the answer, which is nil for a preflight request.
unfoldable pub intercept :
    {R : Type 0}
    → (trim : Bytes → Bytes) → (md : Metadata) → (allowed : List Bytes) → md.Wire
    → (handler : Option R) → Bytes × Option R
intercept trim md allowed wire handler = (
  allow_origin trim allowed (md.get wire origin_key),
  if first_is options_text (md.get wire method_key) then none else handler,
)
