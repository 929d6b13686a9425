-- ===== src/Options/Builder.antt =====
-- `build_builder` of sandbox.rs in the order of the source, as the calls that it makes, in the
-- pieces that the source separates by comments.
use microsandbox_rb.Common.{
  String, true, Option, none, some, List, [], ◌∷◌, ◌++◌, map, Result, ok, err, ◌>>=◌, if◌then◌else◌,
  traverse, each, ok_or,
}
use microsandbox_rb.Common.Text.{◌=?◌}
use microsandbox_rb.Error.{RubyError, base_error}
use microsandbox_rb.Options.Outside.{Outside}
use microsandbox_rb.Options.Conv.{
  opt, opt_or, opt_string, opt_bool, opt_u8, opt_u32, opt_u64, opt_hash, opt_f64, opt_string_map,
  opt_port_map, opt_string_vec, opt_hash_vec, to_hashes, required, secs_to_duration, set, flag,
}
use microsandbox_rb.Options.HostPath.{HostPaths, Image, pin, pin_image, pin_snapshot}
use microsandbox_rb.Options.Enums.{
  log_level_from_str, pull_policy_from_str, security_profile_from_str,
}
use microsandbox_rb.Options.Exec.{parse_rlimits}
use microsandbox_rb.Options.Patches.{parse_patches}
use microsandbox_rb.Options.Secrets.{parse_secret, apply_secret}
use microsandbox_rb.Options.Connection.{apply_outbound_proxy}
use microsandbox_rb.Options.Policy.{Policies}
use microsandbox_rb.Options.RootDisk.{parse_root_disk, apply_root_disk}
use microsandbox_rb.Options.Volumes.{parse_volumes}
use microsandbox_rb.Options.Registry.{parse_registry_config, apply_registry}
use microsandbox_rb.Options.Calls.{Call, PlainCall, NetworkCall, DnsCall, TlsCall, DirectionCall}
use microsandbox_rb.Options.Calls as Calls
use microsandbox_rb.Options.NetworkBuilder.{
  network_calls, advanced_calls, violation_calls, rate_calls,
}

module _ (o : Outside) where
  abbrev pub lift : List (PlainCall o) → List (Call o)
  lift cs = map Calls.plain cs

  unfoldable pub image_call : Image → List (Call o)
  image_call (Image.text t) = Calls.image_text t ∷ []
  image_call (Image.path p) = Calls.image_path p ∷ []

  module _ (paths : HostPaths) where
    unfoldable pub image_of : String → Option String → Result RubyError (List (Call o))
    unfolding pin pin_image image_call
    image_of v (some fstype) = do
      path ← pin o paths v "root disk image path"
      ok (Calls.image_with path fstype ∷ [])
    image_of v none = do i ← pin_image o paths v; ok (image_call i)

    unfoldable pub image_calls : Option String → o.Hash → Result RubyError (List (Call o))
    unfolding opt image_of
    image_calls none opts = ok []
    image_calls (some v) opts = do fstype ← opt_string o opts "fstype"; image_of v fstype

    unfoldable pub source_calls : o.Hash → Result RubyError (List (Call o))
    unfolding opt image_calls pin_snapshot set
    source_calls opts = do
      v ← opt_string o opts "image"
      image ← image_calls v opts
      s ← opt_string o opts "from_snapshot"
      snapshot ← traverse (pin_snapshot o paths) s
      ok (image ++ set snapshot Calls.from_snapshot)

  unfoldable pub vsock_route : o.Hash → Result RubyError (PlainCall o)
  unfolding opt
  vsock_route route = do
    socket ← required o route "host_socket" (base_error "vsock route requires host_socket:" [])
    p ← opt_u32 o route "port"
    port ← ok_or (base_error "vsock route requires port:" []) p
    kind ← opt_string o route "socket_type"
    elim kind [
      | none ↦ ok (Calls.vsock socket port)
      | some k ↦
          if k =? "stream"
          then ok (Calls.vsock socket port)
          else if k =? "dgram"
          then ok (Calls.vsock_dgram socket port)
          else err (base_error "unknown vsock socket_type {:?} (expected stream/dgram)" (k ∷ []))
    ]

  -- From `cpus` to `vsock`.
  unfoldable pub guest_calls : o.Hash → Result RubyError (List (PlainCall o))
  unfolding opt opt_or set vsock_route each to_hashes
  guest_calls opts = do
    cpus ← opt_u8 o opts "cpus"
    max_cpus ← opt_u8 o opts "max_cpus"
    memory ← opt_u32 o opts "memory"
    max_memory ← opt_u32 o opts "max_memory"
    workdir ← opt_string o opts "workdir"
    shell ← opt_string o opts "shell"
    user ← opt_string o opts "user"
    hostname ← opt_string o opts "hostname"
    env ← opt_string_map o opts "env"
    labels ← opt_string_map o opts "labels"
    scripts ← opt_string_map o opts "scripts"
    entrypoint ← opt o o.to_strings opts "entrypoint"
    cmd ← opt o o.to_strings opts "cmd"
    ports ← opt_port_map o opts "ports"
    routes ← opt_hash_vec o opts "vsock"
    vsock ← each vsock_route routes
    ok (
        set cpus Calls.cpus
        ++ set max_cpus Calls.max_cpus
        ++ set memory Calls.memory
        ++ set max_memory Calls.max_memory
        ++ set workdir Calls.workdir
        ++ set shell Calls.shell
        ++ set user Calls.user
        ++ set hostname Calls.hostname
        ++ map Calls.env env
        ++ map Calls.label labels
        ++ map Calls.script scripts
        ++ set entrypoint Calls.entrypoint
        ++ set cmd Calls.cmd
        ++ map Calls.port ports
        ++ vsock)

  -- From `log_level` to `pull_policy`.
  unfoldable pub log_calls : o.Hash → Result RubyError (List (PlainCall o))
  unfolding opt opt_or set flag log_level_from_str security_profile_from_str pull_policy_from_str
  log_calls opts = do
    l ← opt_string o opts "log_level"
    level ← traverse log_level_from_str l
    quiet ← opt_bool o opts "quiet_logs"
    s ← opt_string o opts "security"
    profile ← traverse security_profile_from_str s
    p ← opt_string o opts "pull_policy"
    pull ← traverse pull_policy_from_str p
    ok (
        set level Calls.log_level
        ++ flag quiet Calls.quiet_logs
        ++ set profile Calls.security
        ++ set pull Calls.pull_policy)

  unfoldable pub secret_call : o.Hash → Result RubyError (PlainCall o)
  unfolding parse_secret apply_secret
  secret_call h = do spec ← parse_secret o h; ok (Calls.secret (apply_secret o spec))

  -- From `registry` to `secrets`.
  unfoldable pub limit_calls : o.Hash → Result RubyError (List (PlainCall o))
  unfolding opt opt_or set parse_registry_config apply_registry parse_rlimits each to_hashes
      secret_call
  limit_calls opts = do
    registry ← parse_registry_config o opts
    duration ← opt_u64 o opts "max_duration"
    idle ← opt_u64 o opts "idle_timeout"
    udp ← opt_port_map o opts "ports_udp"
    limits ← parse_rlimits o opts
    hs ← opt_hash_vec o opts "secrets"
    secrets ← each secret_call hs
    ok (
        set registry (λ c. Calls.registry (apply_registry c))
        ++ set duration Calls.max_duration
        ++ set idle Calls.idle_timeout
        ++ map Calls.port_udp udp
        ++ map Calls.rlimit_range limits
        ++ secrets)

  unfoldable pub init_call : o.Hash → Result RubyError (PlainCall o)
  unfolding opt opt_or
  init_call h = do
    cmd ← required o h "cmd" (base_error "init requires a :cmd" [])
    args ← opt_string_vec o h "args"
    env ← opt_string_map o h "env"
    ok (Calls.init_with cmd args env)

  abbrev pub replace_calls : Option o.F64 → o.Hash → Result RubyError (List (PlainCall o))
  replace_calls (some secs) opts = do
    d ← secs_to_duration o secs
    ok (Calls.replace_with_timeout d ∷ [])
  replace_calls none opts = do r ← opt_bool o opts "replace"; ok (flag r Calls.replace)

  -- From `proxy` to the end.
  unfoldable pub last_calls : o.Hash → Result RubyError (List (PlainCall o))
  unfolding opt opt_or set flag apply_outbound_proxy init_call secs_to_duration
  last_calls opts = do
    p ← opt_hash o opts "proxy"
    proxy ← traverse (apply_outbound_proxy o) p
    i ← opt_hash o opts "init"
    init ← traverse init_call i
    ephemeral ← opt_bool o opts "ephemeral"
    detached ← opt_bool o opts "detached"
    secs ← opt_f64 o opts "replace_with_timeout"
    replacement ← replace_calls secs opts
    ok (
        set proxy Calls.proxy
        ++ set init (λ c. c)
        ++ flag ephemeral (Calls.ephemeral true)
        ++ flag detached (Calls.detached true)
        ++ replacement)

  unfoldable pub root_disk_calls : HostPaths → o.Hash → Result RubyError (List (Call o))
  unfolding opt set parse_root_disk apply_root_disk
  root_disk_calls paths opts = do
    v ← opt o ok opts "root_disk"
    spec ← traverse (parse_root_disk o paths) v
    ok (set spec (λ s. Calls.root_disk_with (apply_root_disk o s)))

  -- The whole of it, after the backend is known.
  unfoldable pub builder_calls : Policies o → HostPaths → o.Hash → Result RubyError (List (Call o))
  unfolding source_calls guest_calls parse_volumes parse_patches network_calls log_calls
      root_disk_calls limit_calls violation_calls advanced_calls rate_calls last_calls
  builder_calls core paths opts = do
    source ← source_calls paths opts
    guest ← guest_calls opts
    volumes ← parse_volumes o paths opts
    patches ← parse_patches o paths opts
    net ← network_calls o core opts
    logs ← log_calls opts
    disk ← root_disk_calls paths opts
    limits ← limit_calls opts
    violation ← violation_calls o opts
    advanced ← advanced_calls o paths opts
    rate ← rate_calls o opts
    rest ← last_calls opts
    ok (
        source
        ++ lift guest
        ++ map Calls.volume volumes
        ++ map Calls.add_patch patches
        ++ net
        ++ lift logs
        ++ disk
        ++ lift limits
        ++ violation
        ++ advanced
        ++ rate
        ++ lift rest)
