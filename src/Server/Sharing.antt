-- ===== src/Server/Sharing.antt =====
-- The servers of one process share their options: `NewServer` of cache/server.go sets them in the
-- defaults themselves.
use go.Common.{◌≡◌, refl, sym, Bool, true, false, Option, none, List, [], ◌∷◌, ◌++◌, Bytes, arith}
use go.Server.{
  ServerOptions, ServerOption, with_etcd_endpoints, with_dial_timeout, with_tls, with_cors,
  set_option, set_options, new_server,
}

set_options-append :
    (opts more : List ServerOption) (o : ServerOptions)
    → set_options (opts ++ more) o ≡ set_options more (set_options opts o)
unfolding set_options
set_options-append [] more o = refl
set_options-append (opt ∷ opts) more o = set_options-append opts more (set_option opt o)

set_options-tls :
    (opts : List ServerOption) (o : ServerOptions) → o.tls ≡ true → (set_options opts o).tls ≡ true
unfolding set_options set_option
set_options-tls [] o on = on
set_options-tls (with_etcd_endpoints e ∷ opts) o on = set_options-tls opts _ on
set_options-tls (with_dial_timeout t ∷ opts) o on = set_options-tls opts _ on
set_options-tls (with_tls c k ∷ opts) o on = set_options-tls opts _ refl
set_options-tls (with_cors a ∷ opts) o on = set_options-tls opts _ on

-- A second server of a process has the options of the first with its own set on top of them: those
-- of the first are not forgotten, whether or not it could be made. So where the options of the first
-- ask for TLS, so do those of the second, whatever its own options say, and it fails where no
-- certificate can be loaded.
pub new_server-shared :
    {E : Type 0} (new_etcd : ServerOptions → Option E)
    (load_tls : (cert_file key_file : Bytes) → Bool) (addr addr' svc_name svc_name' : Bytes)
    (opts opts' : List ServerOption) (defaults : ServerOptions)
    → let first = new_server new_etcd load_tls addr svc_name opts defaults in
      let second = new_server new_etcd load_tls addr' svc_name' opts' first.1 in
      (second.1 ≡ set_options (opts ++ opts') defaults)
      × (first.1.tls ≡ true
          → (second.1.tls ≡ true) × (((c k : Bytes) → load_tls c k ≡ false) → second.0 ≡ none))
unfolding new_server
new_server-shared new_etcd load_tls addr addr' svc_name svc_name' opts opts' defaults =
    let o = set_options opts' (set_options opts defaults) in
    (
      sym (set_options-append opts opts' defaults),
      λ on.
          let still = set_options-tls opts' (set_options opts defaults) on in
          (still, λ unreadable. ground (arith, unreadable o.cert_file o.key_file)),
    )
