-- ===== src/Options/Connection.antt =====
-- Connection options of sandbox.rs: DNS, the outbound proxy, rate limits and TLS interception.
use microsandbox_rb.Common.{
  ℕ, String, Bool, Option, none, some, List, [], ◌∷◌, ◌++◌, Result, ok, err, ◌>>=◌, if◌then◌else◌,
  traverse, each, map_err, ok_or, ltb,
}
use microsandbox_rb.Common.Text.{◌=?◌}
use microsandbox_rb.Error.{RubyError, base_error}
use microsandbox_rb.Options.Outside.{Outside}
use microsandbox_rb.Options.Conv.{
  opt, opt_or, opt_string, opt_u64, opt_flag, opt_hash, opt_string_vec, required, set, flag,
  checked,
}
use microsandbox_rb.Options.HostPath.{HostPaths, pin}

-- One bucket: its size, its refill time in milliseconds, and its burst.
pub record TokenBucket : Type 0 where
  pub size : ℕ
  pub refill_time_ms : ℕ
  pub burst : ℕ

pub record RateLimiterSpec : Type 0 where
  pub bandwidth : Option TokenBucket
  pub ops : Option TokenBucket

pub record NetworkRateLimiterSpec : Type 0 where
  pub egress : Option RateLimiterSpec
  pub ingress : Option RateLimiterSpec

-- The refill times of the calls are in milliseconds.
pub data LimiterCall : Type 0 where
  bandwidth ops : ℕ → ℕ → LimiterCall
  bandwidth_burst ops_burst : ℕ → LimiterCall

unfoldable pub bucket_calls :
    (ℕ → ℕ → LimiterCall) → (ℕ → LimiterCall) → Option TokenBucket → List LimiterCall
unfolding flag
bucket_calls fill burst none = []
bucket_calls fill burst (some b) =
    fill b.size b.refill_time_ms ∷ flag (ltb 0 b.burst) (burst b.burst)

unfoldable pub apply_rate_limiter : RateLimiterSpec → List LimiterCall
unfolding bucket_calls
apply_rate_limiter s =
    bucket_calls bandwidth bandwidth_burst s.bandwidth ++ bucket_calls ops ops_burst s.ops

-- An outbound proxy, with the password as the name of an environment variable.
pub data ProxyCall : Type 0 where
  socks4 socks5 user_id : String → ProxyCall
  credentials : String → String → ProxyCall

module _ (o : Outside) where
  pub record DnsSpec : Type 0 where
    pub nameservers : List o.Nameserver
    pub rebind_protection : Option Bool
    pub query_timeout_ms : Option ℕ

  unfoldable pub parse_nameserver : String → Result RubyError o.Nameserver
  parse_nameserver s =
      map_err (λ e. base_error "invalid nameserver {:?}: {}" (s ∷ e ∷ [])) (o.nameserver s)

  unfoldable pub parse_dns : o.Hash → Result RubyError DnsSpec
  unfolding opt opt_or each parse_nameserver
  parse_dns d = do
    texts ← opt_string_vec o d "nameservers"
    servers ← each parse_nameserver texts
    rebind ← opt_flag o d "rebind_protection"
    timeout ← opt_u64 o d "query_timeout_ms"
    ok (record { nameservers = servers; rebind_protection = rebind; query_timeout_ms = timeout })

  unfoldable pub proxy_credentials : o.Hash → Result RubyError (List ProxyCall)
  unfolding opt checked
  proxy_credentials c = do
    username ← required o c "username" (base_error "SOCKS5 credentials require username:" [])
    found ← opt_hash o c "password"
    password ← ok_or (base_error "SOCKS5 credentials require password:" []) found
    kind ← required o password "kind" (base_error "SOCKS5 password source requires kind:" [])
    _ ←
        checked (kind =? "env")
          (base_error "unsupported SOCKS5 password source {:?}; only env is supported" (kind ∷ []))
    var ← required o password "var" (base_error "SOCKS5 password source requires var:" [])
    ok (credentials username var ∷ [])

  abbrev pub optional_credentials : Option o.Hash → Result RubyError (List ProxyCall)
  optional_credentials none = ok []
  optional_credentials (some c) = proxy_credentials c

  unfoldable pub proxy_calls : String → String → o.Hash → Result RubyError (List ProxyCall)
  unfolding opt set proxy_credentials
  proxy_calls protocol address proxy =
      if protocol =? "socks4"
      then (do user ← opt_string o proxy "user_id"; ok (socks4 address ∷ set user user_id))
      else if protocol =? "socks5"
      then (do
        found ← opt_hash o proxy "credentials"
        rest ← optional_credentials found
        ok (socks5 address ∷ rest))
      else err (
          base_error "unsupported outbound proxy protocol {:?}; expected socks4 or socks5"
            (protocol ∷ []))

  unfoldable pub apply_outbound_proxy : o.Hash → Result RubyError (List ProxyCall)
  unfolding opt proxy_calls
  apply_outbound_proxy proxy = do
    protocol ← required o proxy "protocol" (base_error "proxy requires protocol:" [])
    address ← required o proxy "address" (base_error "proxy requires address:" [])
    proxy_calls protocol address proxy

  unfoldable pub parse_token_bucket : String → String → o.Hash → Result RubyError TokenBucket
  unfolding opt opt_or
  parse_token_bucket dir dim b = do
    size_ ← opt_u64 o b "size"
    size ←
        ok_or (base_error "rate_limiter {dir} {dim} bucket requires size:" (dir ∷ dim ∷ [])) size_
    refill_ ← opt_u64 o b "refill_time_ms"
    refill ←
        ok_or
          (base_error "rate_limiter {dir} {dim} bucket requires refill_time_ms:" (dir ∷ dim ∷ []))
          refill_
    burst ← opt_or o o.to_u64 0 b "one_time_burst"
    ok (record { size = size; refill_time_ms = refill; burst = burst })

  unfoldable pub parse_rate_limiter_direction : String → o.Hash → Result RubyError RateLimiterSpec
  unfolding opt parse_token_bucket
  parse_rate_limiter_direction dir h = do
    b ← opt_hash o h "bandwidth"
    bandwidth_ ← traverse (parse_token_bucket dir "bandwidth") b
    p ← opt_hash o h "ops"
    ops_ ← traverse (parse_token_bucket dir "ops") p
    ok (record { bandwidth = bandwidth_; ops = ops_ })

  unfoldable pub parse_rate_limiter : o.Hash → Result RubyError NetworkRateLimiterSpec
  unfolding opt parse_rate_limiter_direction
  parse_rate_limiter h = do
    e ← opt_hash o h "egress"
    egress ← traverse (parse_rate_limiter_direction "egress") e
    i ← opt_hash o h "ingress"
    ingress ← traverse (parse_rate_limiter_direction "ingress") i
    ok (record { egress = egress; ingress = ingress })

  pub record TlsSpec : Type 0 where
    pub bypass : List String
    pub verify_upstream : Option Bool
    pub intercepted_ports : Option (List ℕ)
    pub block_quic : Option Bool
    pub upstream_ca_cert : Option String
    pub intercept_ca_cert : Option String
    pub intercept_ca_key : Option String

  unfoldable pub pin_key : HostPaths → o.Hash → String → String → Result RubyError (Option String)
  unfolding opt pin
  pin_key paths t key label = do
    raw ← opt_string o t key
    traverse (λ path. pin o paths path label) raw

  unfoldable pub parse_tls : HostPaths → o.Hash → Result RubyError TlsSpec
  unfolding opt opt_or pin_key
  parse_tls paths t = do
    bypass ← opt_string_vec o t "bypass"
    verify ← opt_flag o t "verify_upstream"
    ports ← opt o o.to_u16s t "intercepted_ports"
    quic ← opt_flag o t "block_quic"
    upstream ← pin_key paths t "upstream_ca_cert" "upstream CA certificate path"
    cert ← pin_key paths t "intercept_ca_cert" "interception CA certificate path"
    key ← pin_key paths t "intercept_ca_key" "interception CA key path"
    ok (record {
      bypass = bypass;
      verify_upstream = verify;
      intercepted_ports = ports;
      block_quic = quic;
      upstream_ca_cert = upstream;
      intercept_ca_cert = cert;
      intercept_ca_key = key;
    })
