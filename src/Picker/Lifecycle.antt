-- ===== src/Picker/Lifecycle.antt =====
-- cache/peers.go: making a picker and closing it. What etcd answers is a parameter, with `none` or
-- `false` for an error.
use go.Common.{
  ◌≡◌, refl, ap, Bool, true, false, not, ◌&&◌, ◌||◌, Option, none, some, List, [], ◌∷◌,
  if◌then◌else◌, Bytes, bytes_eq, bytes_beq, bytes_beq_iff, contains, arith, Option-cases,
  Bool-cases, inl, inr,
}
use go.Common.Map.{Map, lookup, lookup-insert}
use go.ConsistentHash.Defaults.{Config}
use go.ConsistentHash.Ring.{mark_healthy}
use go.Picker.{Picker, new_picker, set, fetch_all_services}

-- `WithServiceName`
pub data PickerOption : Type 0 where
  with_service_name : Bytes → PickerOption

-- "kama-cache"
abbrev pub default_svc_name : Bytes
default_svc_name = b'k' ∷ b'a' ∷ b'm' ∷ b'a' ∷ b'-' ∷ b'c' ∷ b'a' ∷ b'c' ∷ b'h' ∷ b'e' ∷ []

-- The name of the service after the options.
unfoldable pub service_name : List PickerOption → Bytes → Bytes
service_name [] name = name
service_name (with_service_name name ∷ opts) _ = service_name opts name

-- What etcd is asked for: the prefix of `fetchAllServices` and of the watch.
unfoldable pub watch_prefix : (svc_name : Bytes) → Bytes
watch_prefix svc_name =
    b'/' ∷ b's' ∷ b'e' ∷ b'r' ∷ b'v' ∷ b'i' ∷ b'c' ∷ b'e' ∷ b's' ∷ b'/' ∷ svc_name

module _ {P : Type 0} where
  -- `NewClientPicker`; `services` is what etcd has under a prefix.
  unfoldable pub new_client_picker :
      (new_etcd : Bool)
      → (services : Bytes → Option (List Bytes)) → (dial : Bytes → Option P) → (addr : Bytes)
      → Config
      → List PickerOption
      → Option (Picker P)
  new_client_picker new_etcd services dial addr config opts =
      if not new_etcd
      then none
      else elim (services (watch_prefix (service_name opts default_svc_name))) [
        | none ↦ none
        | some addrs ↦ some (fetch_all_services dial addrs (new_picker addr config))
      ]

  -- The addresses of the clients that do not close.
  unfoldable pub stuck : (shut : P → Bool) → Map Bytes P → List Bytes
  stuck shut [] = []
  stuck shut ((addr, client) ∷ m) =
      let rest = stuck shut m in if shut client then rest else addr ∷ rest

  -- `Close`: the addresses of the clients with an error, and whether etcd's client has one; `none` is
  -- no error. Every client is closed, whatever the others report.
  unfoldable pub close :
      (shut : P → Bool) → (etcd_shut : Bool) → Picker P → Option (List Bytes × Bool)
  close shut etcd_shut p = elim (stuck shut p.clients) [
    | [] ↦ if etcd_shut then none else some ([], true)
    | addr ∷ more ↦ some (addr ∷ more, not etcd_shut)
  ]

  -- The client that a new address gets, and else the one that there was.
  abbrev pub or_old : Option P → Option P → Option P
  or_old none old = old
  or_old (some client) old = some client

  module _ (dial : Bytes → Option P) where
    set-clients :
        (addr other : Bytes) (p : Picker P)
        → lookup other (set dial addr p).clients ≡ (
            if bytes_beq addr other
            then or_old (dial other) (lookup other p.clients)
            else lookup other p.clients)
    unfolding set
    set-clients addr other p = elim (Bool-cases (bytes_beq addr other)) [
      | inl same ↦
          let e : addr ≡ other = ground (arith, bytes_beq_iff addr other) in
          let same_dial = ap dial e in
          elim (Option-cases (dial addr)) [
            | inl down ↦ ground arith
            | inr (client, up) ↦ ground (arith, lookup-insert addr other client p.clients)
          ]
      | inr apart ↦ elim (Option-cases (dial addr)) [
        | inl down ↦ ground arith
        | inr (client, up) ↦ ground (arith, lookup-insert addr other client p.clients)
      ]
    ]

    set-self_addr : (addr : Bytes) (p : Picker P) → (set dial addr p).self_addr ≡ p.self_addr
    unfolding set
    set-self_addr addr p = ground arith

    -- Which of the addresses are taken for peers.
    abbrev pub taken : List Bytes → Bytes → Bytes → Bool
    taken addrs self addr =
        contains addrs addr && (not (bytes_beq addr []) && not (bytes_beq addr self))

    fetch-clients :
        (addrs : List Bytes) (other : Bytes) (p : Picker P)
        → lookup other (fetch_all_services dial addrs p).clients ≡ (
            if taken addrs p.self_addr other
            then or_old (dial other) (lookup other p.clients)
            else lookup other p.clients)
    unfolding fetch_all_services contains
    fetch-clients [] other p = refl
    fetch-clients (addr ∷ addrs) other p =
        elim (Bool-cases (bytes_beq addr [] || bytes_beq addr p.self_addr)) [
          | inl skip ↦ ground (
            arith,
            fetch-clients addrs other p,
            bytes_beq_iff addr other,
            bytes_beq_iff addr [],
            bytes_beq_iff other [],
            bytes_beq_iff addr p.self_addr,
            bytes_beq_iff other p.self_addr,
          )
          | inr new_node ↦
              let q = set dial addr p in
              let marked : Picker P = record q { cons_hash = mark_healthy addr q.cons_hash } in
              elim (Option-cases (dial other)) [
                | inl down ↦ ground (
                  arith,
                  fetch-clients addrs other marked,
                  set-clients addr other p,
                  set-self_addr addr p,
                )
                | inr (client, up) ↦ ground (
                  arith,
                  fetch-clients addrs other marked,
                  set-clients addr other p,
                  set-self_addr addr p,
                  bytes_beq_iff addr other,
                  bytes_beq_iff addr [],
                  bytes_beq_iff other [],
                  bytes_beq_iff addr p.self_addr,
                  bytes_beq_iff other p.self_addr,
                )
              ]
        ]

    fetched_anew :
        (addrs : List Bytes) (addr : Bytes) (config : Config) (other : Bytes)
        → lookup other (fetch_all_services dial addrs (new_picker addr config)).clients
          ≡ (if taken addrs addr other then dial other else none)
    unfolding new_picker lookup
    fetched_anew addrs addr config other =
        let all = fetch-clients addrs other (new_picker addr config) in
        elim (Option-cases (dial other)) [
          | inl down ↦ ground arith
          | inr (client, up) ↦ ground arith
        ]

    -- A picker that could be made has a client for exactly the addresses that etcd listed under the
    -- prefix of its service and that could be dialled, the empty address and its own left out,
    -- however often and in whatever order they are listed; where etcd cannot be reached or does not
    -- answer, there is no picker.
    pub new_client_picker-clients :
        (new_etcd : Bool) (services : Bytes → Option (List Bytes)) (addr : Bytes) (config : Config)
        (opts : List PickerOption)
        → let listed = services (watch_prefix (service_name opts default_svc_name)) in
          (new_etcd ≡ false → new_client_picker new_etcd services dial addr config opts ≡ none)
          × (listed ≡ none → new_client_picker new_etcd services dial addr config opts ≡ none)
          × ((addrs : List Bytes)
              → new_etcd ≡ true
              → listed ≡ some addrs
              → (p : Picker P) × (new_client_picker new_etcd services dial addr config opts
                  ≡ some p)
                × ((other : Bytes)
                    → lookup other p.clients
                      ≡ (if taken addrs addr other then dial other else none)))
    unfolding new_client_picker
    new_client_picker-clients new_etcd services addr config opts = (
      λ down. ground arith,
      λ silent. ground arith,
      λ addrs up answer. (
        fetch_all_services dial addrs (new_picker addr config),
        ground arith,
        λ other. fetched_anew addrs addr config other,
      ),
    )
