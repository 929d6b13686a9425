-- ===== src/Options/Calls.antt =====
-- The calls that `build_builder` makes of the core's sandbox builder, in the order it makes them.
use microsandbox_rb.Common.{ℕ, String, Bool, List}
use microsandbox_rb.Options.Outside.{Outside}
use microsandbox_rb.Options.Enums.{LogLevel, PullPolicy, SecurityProfile, RlimitResource}
use microsandbox_rb.Options.Patches.{Patch}
use microsandbox_rb.Options.Secrets.{SecretCall, ViolationCall}
use microsandbox_rb.Options.Connection.{ProxyCall, LimiterCall}
use microsandbox_rb.Options.Policy.{NetworkPolicy}
use microsandbox_rb.Options.RootDisk.{RootDiskCall}
use microsandbox_rb.Options.Volumes.{MountCall}
use microsandbox_rb.Options.Registry.{RegistryCall}

pub data DnsCall (o : Outside) : Type 0 where
  nameservers : List o.Nameserver → DnsCall o
  rebind_protection : Bool → DnsCall o
  query_timeout_ms : ℕ → DnsCall o

pub data TlsCall : Type 0 where
  bypass : String → TlsCall
  verify_upstream block_quic : Bool → TlsCall
  intercepted_ports : List ℕ → TlsCall
  upstream_ca_cert intercept_ca_cert intercept_ca_key : String → TlsCall

pub data DirectionCall : Type 0 where
  egress ingress : List LimiterCall → DirectionCall

-- One call of the network builder that has nothing to do with a path, and the call for TLS.
pub data NetworkCall (o : Outside) : Type 0 where
  policy : NetworkPolicy o → NetworkCall o
  on_secret_violation : List ViolationCall → NetworkCall o
  dns : List (DnsCall o) → NetworkCall o
  tls : List TlsCall → NetworkCall o
  ipv4_pool ipv6_pool : o.Cidr → NetworkCall o
  max_connections : ℕ → NetworkCall o
  trust_host_cas strict : Bool → NetworkCall o
  rate_limiter : List DirectionCall → NetworkCall o

-- The calls that carry no host path of the options, but for the host socket of a vsock route, which
-- the source hands on as it is given and the core refuses when it is relative.
pub data PlainCall (o : Outside) : Type 0 where
  cpus max_cpus memory max_memory : ℕ → PlainCall o
  workdir shell user hostname : String → PlainCall o
  env label script : String × String → PlainCall o
  entrypoint cmd : List String → PlainCall o
  port port_udp : ℕ × ℕ → PlainCall o
  vsock vsock_dgram : String → ℕ → PlainCall o
  disable_network : PlainCall o
  log_level : LogLevel → PlainCall o
  quiet_logs : PlainCall o
  security : SecurityProfile → PlainCall o
  pull_policy : PullPolicy → PlainCall o
  registry : List RegistryCall → PlainCall o
  max_duration idle_timeout : ℕ → PlainCall o
  rlimit_range : RlimitResource × ℕ × ℕ → PlainCall o
  secret : List SecretCall → PlainCall o
  proxy : List ProxyCall → PlainCall o
  init_with : String → List String → List (String × String) → PlainCall o
  ephemeral detached : Bool → PlainCall o
  replace_with_timeout : ℕ → PlainCall o
  replace : PlainCall o

pub data Call (o : Outside) : Type 0 where
  plain : PlainCall o → Call o
  image_with : String → String → Call o
  image_text image_path : String → Call o
  from_snapshot : String → Call o
  volume : String × List (MountCall o) → Call o
  add_patch : Patch o → Call o
  network : List (NetworkCall o) → Call o
  root_disk_with : List (RootDiskCall o) → Call o
