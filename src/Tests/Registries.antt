-- ===== src/Tests/Registries.antt =====
-- A machine with a loopback address and one other, in a network where everything succeeds.
use go.Common.{◌≡◌, ◌≢◌, ◌⊎◌, refl, true, false, none, some, [], ◌∷◌, Bytes, arith}
use go.Registry.{World, ip_net, other_address, Outcome, register}
use go.Registry.Registered.{register-IsRegistered, IsRegistered, IsClosed}

abbrev kama : Bytes
kama = b'k' ∷ []

-- ":80"
abbrev port : Bytes
port = b':' ∷ b'8' ∷ b'0' ∷ []

abbrev world : World
world = record {
  new_etcd = λ config. true;
  interface_addrs =
      some
        (other_address ∷ ip_net true true (b'l' ∷ []) ∷ ip_net false true (b'1' ∷ b'0' ∷ []) ∷ []);
  grant = some 4;
  put = λ key val lease. true;
  keep_alive = λ lease. true;
}

register-IsRegistered_example :
    (o : Outcome) × (register world kama port ≡ some o)
    × (((o.failure ≢ none) × (o.lease ≡ none) × IsClosed o.calls)
        ⊎ ((o.failure ≡ none) × IsRegistered world.interface_addrs kama port o))
register-IsRegistered_example =
    register-IsRegistered world kama port (λ e. absurd (ground arith)) refl
