-- ===== src/Options/NetworkBuilder.antt =====
-- The pieces of `build_builder` (sandbox.rs) that call the network builder.
use microsandbox_rb.Common.{
  ℕ, Bool, String, ◌||◌, Option, List, [], ◌∷◌, ◌++◌, map, Result, ok, err, ◌>>=◌, if◌then◌else◌,
  traverse, each, map_err,
}
use microsandbox_rb.Common.Text.{◌=?◌}
use microsandbox_rb.Error.{RubyError, base_error}
use microsandbox_rb.Options.Outside.{Outside}
use microsandbox_rb.Options.Conv.{opt, opt_or, opt_string, opt_flag, opt_hash, opt_string_vec, set}
use microsandbox_rb.Options.HostPath.{HostPaths, is_empty}
use microsandbox_rb.Options.Secrets.{parse_violation_spec, apply_violation}
use microsandbox_rb.Options.Connection.{
  parse_dns, DnsSpec, parse_tls, TlsSpec, parse_rate_limiter, NetworkRateLimiterSpec,
  apply_rate_limiter,
}
use microsandbox_rb.Options.Policy.{
  NetworkPolicy, Policies, parse_network_policy, network_profile_from_str,
}
use microsandbox_rb.Options.Calls.{Call, PlainCall, NetworkCall, DnsCall, TlsCall, DirectionCall}
use microsandbox_rb.Options.Calls as Calls

module _ (o : Outside) where
  module _ (core : Policies o) where
    unfoldable pub network_mode : String → Result RubyError (Call o)
    network_mode net =
        if net =? "none" || net =? "disabled" || net =? "disable" || net =? "airgapped"
        then ok (Calls.plain Calls.disable_network)
        else if net =? "all" || net =? "allow_all"
        then ok (Calls.network (Calls.policy core.allow_all ∷ []))
        else err (
            base_error
              "unknown network mode {:?} (expected none/allow_all; compose public/private/host access via network profiles)"
              (net ∷ []))

    unfoldable pub profiles_policy : List String → Result RubyError (List (NetworkPolicy o))
    unfolding each network_profile_from_str
    profiles_policy [] = ok []
    profiles_policy (n ∷ ns) = do
      profiles ← each network_profile_from_str (n ∷ ns)
      ok (core.from_profiles profiles ∷ [])

    abbrev pub policy_call : NetworkPolicy o → Call o
    policy_call p = Calls.network (Calls.policy p ∷ [])

    unfoldable pub network_calls : o.Hash → Result RubyError (List (Call o))
    unfolding opt opt_or set network_mode profiles_policy parse_network_policy
    network_calls opts = do
      net ← opt_string o opts "network"
      mode ← traverse network_mode net
      names ← opt_string_vec o opts "network_profiles"
      profiles ← profiles_policy names
      policy ← parse_network_policy o core opts
      ok (set mode (λ c. c) ++ map policy_call profiles ++ set policy policy_call)

  unfoldable pub dns_calls : DnsSpec o → List (DnsCall o)
  unfolding set is_empty
  dns_calls d =
      (if is_empty d.nameservers then [] else Calls.nameservers d.nameservers ∷ [])
      ++ set d.rebind_protection Calls.rebind_protection
      ++ set d.query_timeout_ms Calls.query_timeout_ms

  unfoldable pub tls_calls : TlsSpec o → List TlsCall
  unfolding set
  tls_calls t =
      map Calls.bypass t.bypass
      ++ set t.verify_upstream Calls.verify_upstream
      ++ set t.intercepted_ports Calls.intercepted_ports
      ++ set t.block_quic Calls.block_quic
      ++ set t.upstream_ca_cert Calls.upstream_ca_cert
      ++ set t.intercept_ca_cert Calls.intercept_ca_cert
      ++ set t.intercept_ca_key Calls.intercept_ca_key

  abbrev pub pool : (String → Result String o.Cidr) → String → String → Result RubyError o.Cidr
  pool parse template s = map_err (λ e. base_error template (s ∷ e ∷ [])) (parse s)

  -- One network call when there is anything in it.
  unfoldable pub when_any : List (NetworkCall o) → List (Call o)
  when_any [] = []
  when_any (c ∷ cs) = Calls.network (c ∷ cs) ∷ []

  pub record Advanced : Type 0 where
    pub dns : Option (DnsSpec o)
    pub tls : Option (TlsSpec o)
    pub ipv4_pool : Option o.Cidr
    pub ipv6_pool : Option o.Cidr
    pub max_connections : Option ℕ
    pub trust_host_cas : Option Bool
    pub strict : Option Bool

  unfoldable pub settings_calls : Advanced → List (NetworkCall o)
  unfolding set dns_calls tls_calls
  settings_calls s =
      set s.dns (λ d. Calls.dns (dns_calls d))
      ++ set s.tls (λ t. Calls.tls (tls_calls t))
      ++ set s.ipv4_pool Calls.ipv4_pool
      ++ set s.ipv6_pool Calls.ipv6_pool
      ++ set s.max_connections Calls.max_connections
      ++ set s.trust_host_cas Calls.trust_host_cas
      ++ set s.strict Calls.strict

  unfoldable pub advanced_calls : HostPaths → o.Hash → Result RubyError (List (Call o))
  unfolding opt opt_or parse_dns parse_tls settings_calls when_any
  advanced_calls paths opts = do
    d ← opt_hash o opts "dns"
    dns ← traverse (parse_dns o) d
    t ← opt_hash o opts "tls"
    tls ← traverse (parse_tls o paths) t
    p ← opt_string o opts "ipv4_pool"
    ipv4 ← traverse (pool o.ipv4_network "invalid ipv4_pool {:?}: {}") p
    q ← opt_string o opts "ipv6_pool"
    ipv6 ← traverse (pool o.ipv6_network "invalid ipv6_pool {:?}: {}") q
    connections ← opt o o.to_usize opts "max_connections"
    trust ← opt_flag o opts "trust_host_cas"
    strict ← opt_flag o opts "strict"
    ok (
        when_any (
          settings_calls (record {
            dns = dns;
            tls = tls;
            ipv4_pool = ipv4;
            ipv6_pool = ipv6;
            max_connections = connections;
            trust_host_cas = trust;
            strict = strict;
          })))

  unfoldable pub limiter_call : NetworkRateLimiterSpec → NetworkCall o
  unfolding set apply_rate_limiter
  limiter_call s = Calls.rate_limiter (
      set s.egress (λ e. Calls.egress (apply_rate_limiter e))
      ++ set s.ingress (λ e. Calls.ingress (apply_rate_limiter e)))

  unfoldable pub rate_calls : o.Hash → Result RubyError (List (Call o))
  unfolding opt set parse_rate_limiter limiter_call
  rate_calls opts = do
    h ← opt_hash o opts "rate_limiter"
    spec ← traverse (parse_rate_limiter o) h
    ok (set spec (λ s. Calls.network (limiter_call s ∷ [])))

  unfoldable pub violation_calls : o.Hash → Result RubyError (List (Call o))
  unfolding opt set parse_violation_spec apply_violation
  violation_calls opts = do
    v ← opt o ok opts "on_secret_violation"
    spec ← traverse (parse_violation_spec o) v
    ok (set spec (λ s. Calls.network (Calls.on_secret_violation (apply_violation s) ∷ [])))
