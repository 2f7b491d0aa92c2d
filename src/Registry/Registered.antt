-- ===== src/Registry/Registered.antt =====
-- What `Register` of cache/registry/registry.go leaves in etcd for peers.go to find, and what becomes
-- of the client and of the lease.
use go.Common.{
  ℕ, zero, suc, replicate, ◌≡◌, ◌≢◌, refl, ap, if◌then◌else◌, true, none, some, Option, List, [],
  ◌∷◌, ◌++◌, Bytes, arith, length, take, drop, bytes_beq, bytes_beq_iff, Option-cases, Bool-cases,
  inl, inr, ◌⊎◌, false, All, ◌∙◌, nat_beq_iff,
}
use go.Registry.{
  World, Address, ip_net, other_address, first_ip, Call, put_call, revoke, close_call, Outcome,
  register, register_lease, service_key, services, full_addr, get_local_ip, Message, stop, renewed,
  channel_closed, keep, default_config,
}
use go.Picker.{parse_addr_from_key}

take-append : (xs ys : Bytes) → take (length xs) (xs ++ ys) ≡ xs
take-append [] ys = ground arith
take-append (x ∷ xs) ys = ground (arith, take-append xs ys)

drop-append : (xs ys : Bytes) → drop (length xs) (xs ++ ys) ≡ ys
drop-append [] ys = ground arith
drop-append (x ∷ xs) ys = ground (arith, drop-append xs ys)

parted : (xs ys : Bytes) (x : ℕ) → xs ++ x ∷ ys ≡ (xs ++ x ∷ []) ++ ys
parted [] ys x = refl
parted (y ∷ xs) ys x = ap (λ zs. y ∷ zs) (parted xs ys x)

without_prefix :
    (prefix key addr : Bytes)
    → key ≡ prefix ++ addr
    → (if bytes_beq (take (length prefix) key) prefix then drop (length prefix) key else []) ≡ addr
without_prefix prefix key addr split =
    rw split (
      ground (arith, take-append prefix addr, drop-append prefix addr, bytes_beq_iff prefix prefix))

-- The address comes back from the key that it was registered under.
parse-service_key :
    (svc_name addr : Bytes) → parse_addr_from_key (service_key svc_name addr) svc_name ≡ addr
unfolding parse_addr_from_key service_key
parse-service_key svc_name addr =
    without_prefix (services ++ svc_name ++ b'/' ∷ []) (services ++ svc_name ++ b'/' ∷ addr) addr
      (ap (λ zs. services ++ zs) (parted svc_name addr b'/'))

-- An address that does not serve as this machine's: a loopback one, or none of version 4.
abbrev pub IsUnfit : Address → Type 0
IsUnfit other_address = Unit
IsUnfit (ip_net is_loopback is_v4 text) = (is_loopback ≡ true) ⊎ (is_v4 ≡ false)

-- The machine's address: the first of its interfaces' that is of version 4 and no loopback one.
pub record IsLocal (interface_addrs : Option (List Address)) (local_ip : Bytes) : Type 0 where
  pub before : List Address
  pub after : List Address
  pub listed : interface_addrs ≡ some (before ++ ip_net false true local_ip ∷ after)
  pub unfit : All IsUnfit before

-- What a registration that did not fail leaves: the full address under the service's key, for as long
-- as the lease holds, from which key the peers read the address.
pub record IsRegistered (interface_addrs : Option (List Address)) (svc_name addr : Bytes)
    (o : Outcome) : Type 0 where
  pub local_ip : Bytes
  pub local : IsLocal interface_addrs local_ip
  pub full : Bytes
  pub fronted : (port : Bytes) → addr ≡ b':' ∷ port → full ≡ local_ip ++ addr
  pub as_given : (c : ℕ) (rest : Bytes) → addr ≡ c ∷ rest → c ≢ b':' → full ≡ addr
  pub lease : ℕ
  pub kept : o.lease ≡ some lease
  pub calls : o.calls ≡ put_call (service_key svc_name full) full lease ∷ []
  pub parsed : parse_addr_from_key (service_key svc_name full) svc_name ≡ full

-- The client of a registration that failed is closed in the end.
pub IsClosed : List Call → Type 0
IsClosed calls = (before : List Call) × (calls ≡ before ++ close_call ∷ [])

first_ip-First :
    (addrs : List Address) (local_ip : Bytes)
    → first_ip addrs ≡ some local_ip
    → (before : List Address) × (after : List Address) × (addrs
        ≡ before ++ ip_net false true local_ip ∷ after)
      × All IsUnfit before
unfolding first_ip
first_ip-First [] local_ip found = absurd (ground arith)
first_ip-First (other_address ∷ addrs) local_ip found =
    let (before, after, listed, unfit) = first_ip-First addrs local_ip found in
    (other_address ∷ before, after, ap (λ l. other_address ∷ l) listed, (tt, unfit))
first_ip-First (ip_net true is_v4 text ∷ addrs) local_ip found =
    let (before, after, listed, unfit) = first_ip-First addrs local_ip found in
    (
      ip_net true is_v4 text ∷ before,
      after,
      ap (λ l. ip_net true is_v4 text ∷ l) listed,
      (inl refl, unfit),
    )
first_ip-First (ip_net false false text ∷ addrs) local_ip found =
    let (before, after, listed, unfit) = first_ip-First addrs local_ip found in
    (
      ip_net false false text ∷ before,
      after,
      ap (λ l. ip_net false false text ∷ l) listed,
      (inr refl, unfit),
    )
first_ip-First (ip_net false true text ∷ addrs) local_ip found =
    let same : text ≡ local_ip = ground arith in
    ([], addrs, ap (λ t. ip_net false true t ∷ addrs) same, tt)

get_local_ip-IsLocal :
    (interface_addrs : Option (List Address)) (local_ip : Bytes)
    → get_local_ip interface_addrs ≡ some local_ip
    → IsLocal interface_addrs local_ip
unfolding get_local_ip
get_local_ip-IsLocal interface_addrs local_ip online = elim (Option-cases interface_addrs) [
  | inl unread ↦ absurd (ground arith)
  | inr (addrs, read) ↦
      let found : first_ip addrs ≡ some local_ip = ground arith in
      let (before, after, listed, unfit) = first_ip-First addrs local_ip found in
      record {
        before = before;
        after = after;
        listed = read ∙ ap (λ l. some l) listed;
        unfit = unfit;
      }
]

full_addr-parts :
    (local_ip addr full : Bytes)
    → full_addr local_ip addr ≡ some full
    → ((port : Bytes) → addr ≡ b':' ∷ port → full ≡ local_ip ++ addr)
      × ((c : ℕ) (rest : Bytes) → addr ≡ c ∷ rest → c ≢ b':' → full ≡ addr)
unfolding full_addr
full_addr-parts local_ip [] full made = absurd (ground arith)
full_addr-parts local_ip (c ∷ cs) full made = (
  λ port e. ground (arith, nat_beq_iff c b':'),
  λ d rest e ne. ground (arith, nat_beq_iff c b':'),
)

full_addr-total : (local_ip addr : Bytes) → addr ≢ [] → full_addr local_ip addr ≢ none
unfolding full_addr
full_addr-total local_ip [] named = absurd (named refl)
full_addr-total local_ip (c ∷ cs) named = ground arith

register_lease-cases :
    (w : World) (svc_name local_ip addr full : Bytes)
    → IsLocal w.interface_addrs local_ip
    → full_addr local_ip addr ≡ some full
    → let o = register_lease w svc_name full in
      ((o.failure ≢ none) × (o.lease ≡ none) × IsClosed o.calls)
      ⊎ ((o.failure ≡ none) × IsRegistered w.interface_addrs svc_name addr o)
unfolding register_lease IsClosed
register_lease-cases w svc_name local_ip addr full local made = elim (Option-cases w.grant) [
  | inl refused ↦ rw refused (inl (ground arith, refl, ([], refl)))
  | inr (lease, granted) ↦
      let key = service_key svc_name full in
      elim (Bool-cases (w.put key full lease)) [
        | inr no_entry ↦
            rw (granted, no_entry) (inl (ground arith, refl, (put_call key full lease ∷ [], refl)))
        | inl entered ↦ elim (Bool-cases (w.keep_alive lease)) [
          | inr short ↦
              rw (granted, entered, short)
                (inl (ground arith, refl, (put_call key full lease ∷ [], refl)))
          | inl alive ↦
              rw (granted, entered, alive)
                (inr (
                  refl,
                  record {
                    local_ip = local_ip;
                    local = local;
                    full = full;
                    fronted = (full_addr-parts local_ip addr full made).0;
                    as_given = (full_addr-parts local_ip addr full made).1;
                    lease = lease;
                    kept = refl;
                    calls = refl;
                    parsed = parse-service_key svc_name full;
                  },
                ))
        ]
      ]
]

-- `Register` of an address that is not empty does not panic. Where an etcd client was made and the
-- registration fails, no lease is kept and the client is closed as the last thing; where it does not
-- fail, what it put under the lease is the address, with the first address in front that an interface
-- of the machine has of version 4 and that is no loopback one, where the address began with a colon,
-- under a key of the service from which the peers' `parseAddrFromKey` reads what was put.
pub register-IsRegistered :
    (w : World) (svc_name addr : Bytes)
    → addr ≢ []
    → w.new_etcd default_config ≡ true
    → (o : Outcome) × (register w svc_name addr ≡ some o)
      × (((o.failure ≢ none) × (o.lease ≡ none) × IsClosed o.calls)
          ⊎ ((o.failure ≡ none) × IsRegistered w.interface_addrs svc_name addr o))
unfolding register IsClosed
register-IsRegistered w svc_name addr named client =
    elim (Option-cases (get_local_ip w.interface_addrs)) [
      | inl offline ↦ rw (client, offline) (_, refl, inl (ground arith, refl, ([], refl)))
      | inr (local_ip, online) ↦ elim (Option-cases (full_addr local_ip addr)) [
        | inl blank ↦ absurd (full_addr-total local_ip addr named blank)
        | inr (full, made) ↦
            rw (client, online, made)
              (
                register_lease w svc_name full,
                refl,
                register_lease-cases w svc_name local_ip addr full
                    (get_local_ip-IsLocal w.interface_addrs local_ip online) made,
              )
      ]
    ]

-- However often the lease was renewed before, the goroutine that keeps it ends with the client
-- closed at the first message of another kind: it revokes the lease where it is told to stop, and
-- not where the channel was closed.
pub keep_ends :
    (n lease : ℕ) (more : List Message)
    → (keep lease (replicate n renewed ++ stop ∷ more) ≡ (revoke lease ∷ close_call ∷ [], true))
      × (keep lease (replicate n renewed ++ channel_closed ∷ more) ≡ (close_call ∷ [], true))
unfolding keep
keep_ends zero lease more = (refl, refl)
keep_ends (suc n) lease more = keep_ends n lease more
