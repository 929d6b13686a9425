-- ===== src/Values/Results.antt =====
-- The value conversions of sandbox.rs: what exec, the file system, metrics, logs and the lifecycle
-- calls return to Ruby. The records are the fields that the source reads of the core's values.
use microsandbox_rb.Common.{ℕ, String, Bool, Option, List, [], ◌∷◌, map}
use microsandbox_rb.Common.Int.{ℤ}
use microsandbox_rb.Options.Outside.{Outside}
use microsandbox_rb.Options.Enums.{SandboxStatus, sandbox_status_str}
use microsandbox_rb.Options.Lifecycle.{LogSource, stdout, stderr, output, system}
use microsandbox_rb.Values.Hashes.{
  RubyValue, bool, int, float, str, bytes, array, set_all, hash_of, items, nat, or_nil,
}

pub data FsEntryKind : Type 0 where
  file directory symlink other : FsEntryKind

unfoldable pub fs_entry_kind_str : FsEntryKind → String
fs_entry_kind_str file = "file"
fs_entry_kind_str directory = "directory"
fs_entry_kind_str symlink = "symlink"
fs_entry_kind_str other = "other"

pub record ExitStatus : Type 0 where
  pub code : Option ℤ
  pub success : Bool

pub record PingResult : Type 0 where
  pub name : String
  pub latency : ℕ

pub record TouchResult : Type 0 where
  pub name : String
  pub activity_seq : ℕ

unfoldable pub log_source_str : LogSource → String
log_source_str stdout = "stdout"
log_source_str stderr = "stderr"
log_source_str output = "output"
log_source_str system = "system"

module _ (o : Outside) where
  -- A moment as epoch milliseconds.
  abbrev pub ms : o.DateTime → RubyValue o
  ms t = int (o.timestamp_millis t)

  pub record ExecOutput : Type 0 where
    pub code : ℤ
    pub success : Bool
    pub stdout_bytes : o.Bytes
    pub stderr_bytes : o.Bytes

  unfoldable pub exec_output_to_hash : ExecOutput → RubyValue o
  unfolding set_all
  exec_output_to_hash r = hash_of o (
      ("exit_code", int r.code)
      ∷ ("success", bool r.success)
      ∷ ("stdout", bytes r.stdout_bytes)
      ∷ ("stderr", bytes r.stderr_bytes)
      ∷ [])

  pub record FsEntry : Type 0 where
    pub path : String
    pub kind : FsEntryKind
    pub size : ℕ
    pub mode : ℕ
    pub modified : Option o.DateTime

  unfoldable pub fs_entry_to_hash : FsEntry → RubyValue o
  unfolding set_all fs_entry_kind_str
  fs_entry_to_hash e = hash_of o (
      ("path", str e.path)
      ∷ ("type", str (fs_entry_kind_str e.kind))
      ∷ ("size", nat o e.size)
      ∷ ("mode", nat o e.mode)
      ∷ ("modified_ms", or_nil o ms e.modified)
      ∷ [])

  pub record FsMetadata : Type 0 where
    pub kind : FsEntryKind
    pub size : ℕ
    pub mode : ℕ
    pub readonly : Bool
    pub modified : Option o.DateTime
    pub created : Option o.DateTime

  unfoldable pub fs_metadata_to_hash : FsMetadata → RubyValue o
  unfolding set_all fs_entry_kind_str
  fs_metadata_to_hash m = hash_of o (
      ("type", str (fs_entry_kind_str m.kind))
      ∷ ("size", nat o m.size)
      ∷ ("mode", nat o m.mode)
      ∷ ("readonly", bool m.readonly)
      ∷ ("modified_ms", or_nil o ms m.modified)
      ∷ ("created_ms", or_nil o ms m.created)
      ∷ [])

  -- `cpu_percent` is the value after `as f64`; two of the counts are as the Ruby conversion gives
  -- them.
  pub record SandboxMetrics : Type 0 where
    pub cpu_percent : o.F64
    pub vcpu_time_ns : ℕ
    pub memory_bytes : ℕ
    pub memory_available_bytes : RubyValue o
    pub memory_host_resident_bytes : RubyValue o
    pub memory_limit_bytes : ℕ
    pub disk_read_bytes : ℕ
    pub disk_write_bytes : ℕ
    pub net_rx_bytes : ℕ
    pub net_tx_bytes : ℕ
    pub upper_used_bytes : Option ℕ
    pub upper_free_bytes : Option ℕ
    pub upper_host_allocated_bytes : Option ℕ
    pub uptime : ℕ
    pub timestamp : o.DateTime

  unfoldable pub metrics_to_hash : SandboxMetrics → RubyValue o
  unfolding set_all
  metrics_to_hash m = hash_of o (
      ("cpu_percent", float m.cpu_percent)
      ∷ ("vcpu_time_ns", nat o m.vcpu_time_ns)
      ∷ ("memory_bytes", nat o m.memory_bytes)
      ∷ ("memory_available_bytes", m.memory_available_bytes)
      ∷ ("memory_host_resident_bytes", m.memory_host_resident_bytes)
      ∷ ("memory_limit_bytes", nat o m.memory_limit_bytes)
      ∷ ("disk_read_bytes", nat o m.disk_read_bytes)
      ∷ ("disk_write_bytes", nat o m.disk_write_bytes)
      ∷ ("net_rx_bytes", nat o m.net_rx_bytes)
      ∷ ("net_tx_bytes", nat o m.net_tx_bytes)
      ∷ ("upper_used_bytes", or_nil o (nat o) m.upper_used_bytes)
      ∷ ("upper_free_bytes", or_nil o (nat o) m.upper_free_bytes)
      ∷ ("upper_host_allocated_bytes", or_nil o (nat o) m.upper_host_allocated_bytes)
      ∷ ("uptime_secs", float (o.as_secs_f64 m.uptime))
      ∷ ("timestamp_ms", ms m.timestamp)
      ∷ [])

  unfoldable pub exit_status_to_hash : ExitStatus → RubyValue o
  unfolding set_all
  exit_status_to_hash s =
      hash_of o (("exit_code", or_nil o int s.code) ∷ ("success", bool s.success) ∷ [])

  pub record StopResult : Type 0 where
    pub name : String
    pub status : SandboxStatus
    pub exit_code : Option ℤ
    pub signal : Option ℤ
    pub observed_at : o.DateTime
    -- A text, or an optional one, as the Ruby conversion gives it.
    pub source : RubyValue o

  unfoldable pub stop_result_to_hash : StopResult → RubyValue o
  unfolding set_all sandbox_status_str
  stop_result_to_hash r = hash_of o (
      ("name", str r.name)
      ∷ ("status", str (sandbox_status_str r.status))
      ∷ ("exit_code", or_nil o int r.exit_code)
      ∷ ("signal", or_nil o int r.signal)
      ∷ ("observed_at_ms", ms r.observed_at)
      ∷ ("source", r.source)
      ∷ [])

  unfoldable pub ping_result_to_hash : PingResult → RubyValue o
  unfolding set_all
  ping_result_to_hash r =
      hash_of o (("name", str r.name) ∷ ("latency_secs", float (o.as_secs_f64 r.latency)) ∷ [])

  unfoldable pub touch_result_to_hash : TouchResult → RubyValue o
  unfolding set_all
  touch_result_to_hash r =
      hash_of o (("name", str r.name) ∷ ("activity_seq", nat o r.activity_seq) ∷ [])

  -- The session id as the Ruby conversion gives it.
  pub record LogEntry : Type 0 where
    pub timestamp : o.DateTime
    pub source : LogSource
    pub session_id : RubyValue o
    pub cursor : String
    pub content : o.Bytes

  unfoldable pub log_entry_to_hash : LogEntry → RubyValue o
  unfolding set_all log_source_str
  log_entry_to_hash e = hash_of o (
      ("timestamp_ms", ms e.timestamp)
      ∷ ("source", str (log_source_str e.source))
      ∷ ("session_id", e.session_id)
      ∷ ("cursor", str e.cursor)
      ∷ ("data", bytes e.content)
      ∷ [])

  -- `rhash_array`, and the loops that push one Hash for each value.
  unfoldable pub hash_array {ℓ} : {A : Type ℓ} → (A → RubyValue o) → List A → RubyValue o
  hash_array f xs = array (items o (map f xs))

  unfoldable pub labels_to_hash : List (String × String) → RubyValue o
  unfolding set_all
  labels_to_hash ls = hash_of o (map (λ (l : String × String). (l.0, str l.1)) ls)
