-- ===== src/Registry.antt =====
-- cache/registry/registry.go: registering a service in etcd under a lease, and what is done about the
-- lease afterwards. What etcd and the network answer is a parameter, with `none` or `false` for an
-- error; the calls that are made of them are listed in their order.
pub mod Registered
use go.Common.{
  ℕ, Bool, true, false, not, ◌&&◌, Option, none, some, List, [], ◌∷◌, ◌++◌, if◌then◌else◌, nat_beq,
  Bytes,
}

pub record Config : Type 0 where
  pub endpoints : List Bytes
  pub dial_timeout : ℕ

unfoldable pub default_config : Config
default_config = record { endpoints = go.Server.local_etcd ∷ []; dial_timeout = 5_000_000_000 }

-- An address of `net.InterfaceAddrs`: an IP network or something else.
pub data Address : Type 0 where
  ip_net : (is_loopback is_v4 : Bool) → (text : Bytes) → Address
  other_address : Address

-- The loop of `getLocalIP`.
unfoldable pub first_ip : List Address → Option Bytes
first_ip [] = none
first_ip (other_address ∷ addrs) = first_ip addrs
first_ip (ip_net is_loopback is_v4 text ∷ addrs) =
    if not is_loopback && is_v4 then some text else first_ip addrs

unfoldable pub get_local_ip : (interface_addrs : Option (List Address)) → Option Bytes
get_local_ip none = none
get_local_ip (some addrs) = first_ip addrs

-- What the world answers to `Register`.
pub record World : Type 0 where
  pub new_etcd : Config → Bool
  pub interface_addrs : Option (List Address)
  pub grant : Option ℕ  -- the lease
  pub put : (key val : Bytes) (lease : ℕ) → Bool
  pub keep_alive : ℕ → Bool

pub data Call : Type 0 where
  put_call : (key val : Bytes) → (lease : ℕ) → Call
  revoke : (lease : ℕ) → Call
  close_call : Call

pub data Failure : Type 0 where
  no_client no_local_ip no_lease no_put no_keep_alive : Failure

-- "/services/"
abbrev pub services : Bytes
services = b'/' ∷ b's' ∷ b'e' ∷ b'r' ∷ b'v' ∷ b'i' ∷ b'c' ∷ b'e' ∷ b's' ∷ b'/' ∷ []

unfoldable pub service_key : (svc_name addr : Bytes) → Bytes
service_key svc_name addr = services ++ svc_name ++ b'/' ∷ addr

-- The address that is registered; `none`: `addr[0]` of the empty string panics.
unfoldable pub full_addr : (local_ip addr : Bytes) → Option Bytes
full_addr local_ip [] = none
full_addr local_ip (c ∷ cs) = some (if nat_beq c b':' then local_ip ++ c ∷ cs else c ∷ cs)

-- The error, or the lease that the loop keeps alive from then on; the calls before; `none` is a panic.
pub record Outcome : Type 0 where
  pub failure : Option Failure
  pub lease : Option ℕ
  pub calls : List Call

abbrev pub failed : Failure → List Call → Outcome
failed why calls = record { failure = some why; lease = none; calls = calls }

-- `Register` from the lease on, over the full address.
unfoldable pub register_lease : World → (svc_name addr : Bytes) → Outcome
register_lease w svc_name addr = elim w.grant [
  | none ↦ failed no_lease (close_call ∷ [])
  | some lease ↦
      let key = service_key svc_name addr in
      if not (w.put key addr lease)
      then failed no_put (put_call key addr lease ∷ close_call ∷ [])
      else (if not (w.keep_alive lease)
          then failed no_keep_alive (put_call key addr lease ∷ close_call ∷ [])
          else record { failure = none; lease = some lease; calls = put_call key addr lease ∷ [] })
]

unfoldable pub register : World → (svc_name addr : Bytes) → Option Outcome
register w svc_name addr =
    if not (w.new_etcd default_config)
    then some (failed no_client [])
    else elim (get_local_ip w.interface_addrs) [
      | none ↦ some (failed no_local_ip (close_call ∷ []))
      | some local_ip ↦ elim (full_addr local_ip addr) [
        | none ↦ none
        | some addr' ↦ some (register_lease w svc_name addr')
      ]
    ]

-- What the goroutine of `Register` receives.
pub data Message : Type 0 where
  stop renewed channel_closed : Message

-- Its calls, and whether it has ended; it waits for ever where nothing more comes.
unfoldable pub keep : (lease : ℕ) → List Message → List Call × Bool
keep lease [] = ([], false)
keep lease (stop ∷ ms) = (revoke lease ∷ close_call ∷ [], true)
keep lease (channel_closed ∷ ms) = (close_call ∷ [], true)
keep lease (renewed ∷ ms) = keep lease ms
