-- ===== src/Error.antt =====
-- ext/microsandbox/src/error.rs: core errors and the Ruby exceptions they become. The core's error
-- text (`to_string`) is kept as the error itself; a text built here is kept as its template and
-- arguments. The classes are those of lib/microsandbox/errors.rb, taken to be defined.
pub mod Names
pub mod NameLaws
use microsandbox_rb.Common.{ℕ, String, List, [], ◌∷◌, if◌then◌else◌, ◌==◌}
use microsandbox_rb.Common.Text.{codes}
use microsandbox_rb.Error.Names.{ruby_api_name}

-- An operation of the core, by its `api_path`.
pub record Operation : Type 0 where
  pub api_path : String

pub data UnsupportedReason : Type 0 where
  use_instead : Operation → UnsupportedReason
  other_hint : String → UnsupportedReason

pub data AgentClientError : Type 0 where
  unsupported_operation : AgentClientError
  other_agent : String → AgentClientError

pub data BuildError : Type 0 where
  invalid_outbound_proxy : String → BuildError
  other_build : String → BuildError

-- The variants that the source names, and `other` for the rest.
pub data MicrosandboxError : Type 0 where
  invalid_config sandbox_not_found sandbox_already_exists : String → MicrosandboxError
  sandbox_still_running sandbox_replaced sandbox_not_running : String → MicrosandboxError
  exec_timeout exec_failed sandbox_fs_ops image_not_found : String → MicrosandboxError
  image_in_use volume_not_found volume_already_exists io : String → MicrosandboxError
  metrics_disabled metrics_unavailable cloud_http : String → MicrosandboxError
  agent_client : AgentClientError → MicrosandboxError
  unsupported : Operation → UnsupportedReason → MicrosandboxError
  snapshot_not_found snapshot_already_exists : String → MicrosandboxError
  snapshot_sandbox_running snapshot_image_missing : String → MicrosandboxError
  snapshot_integrity snapshot_migration custom : String → MicrosandboxError
  network_builder : BuildError → MicrosandboxError
  no_default_command : MicrosandboxError
  other : String → MicrosandboxError

unfoldable pub class_name : MicrosandboxError → String
class_name (invalid_config _) = "InvalidConfigError"
class_name (sandbox_not_found _) = "SandboxNotFoundError"
class_name (sandbox_already_exists _) = "SandboxAlreadyExistsError"
class_name (sandbox_still_running _) = "SandboxStillRunningError"
class_name (sandbox_replaced _) = "SandboxReplacedError"
class_name (sandbox_not_running _) = "SandboxNotRunningError"
class_name (exec_timeout _) = "ExecTimeoutError"
class_name (exec_failed _) = "ExecFailedError"
class_name (sandbox_fs_ops _) = "FilesystemError"
class_name (image_not_found _) = "ImageNotFoundError"
class_name (image_in_use _) = "ImageInUseError"
class_name (volume_not_found _) = "VolumeNotFoundError"
class_name (volume_already_exists _) = "VolumeAlreadyExistsError"
class_name (io _) = "IoError"
class_name (metrics_disabled _) = "MetricsDisabledError"
class_name (metrics_unavailable _) = "MetricsUnavailableError"
class_name (agent_client unsupported_operation) = "UnsupportedOperationError"
class_name (agent_client (other_agent _)) = "Error"
class_name (cloud_http _) = "CloudHttpError"
class_name (unsupported _ _) = "UnsupportedError"
class_name (snapshot_not_found _) = "SnapshotNotFoundError"
class_name (snapshot_already_exists _) = "SnapshotAlreadyExistsError"
class_name (snapshot_sandbox_running _) = "SnapshotSandboxRunningError"
class_name (snapshot_image_missing _) = "SnapshotImageMissingError"
class_name (snapshot_integrity _) = "SnapshotIntegrityError"
class_name (snapshot_migration _) = "SnapshotMigrationError"
class_name (network_builder (invalid_outbound_proxy _)) = "InvalidConfigError"
class_name (network_builder (other_build _)) = "NetworkPolicyError"
class_name no_default_command = "NoDefaultCommandError"
class_name (custom _) = "Error"
class_name (other _) = "Error"

pub data Message : Type 0 where
  core_text : MicrosandboxError → Message
  text : String → List String → Message
  pids : String → String → ℕ → ℕ → Message
  numbers : String → String → List ℕ → Message
  quoted : String → List ℕ → String → Message

-- A Ruby exception: its class under `Microsandbox` and its message. `unsupported_op` is an
-- `UnsupportedError` with its `@operation` and `@hint`, as code points; `raised` is an exception
-- that Ruby or the conversion layer made.
pub data RubyError : Type 0 where
  exception : String → Message → RubyError
  unsupported_op : List ℕ → List ℕ → RubyError
  raised : String → RubyError

unfoldable pub ruby_hint : UnsupportedReason → List ℕ
ruby_hint (use_instead op) = b'u' ∷ b's' ∷ b'e' ∷ b' ' ∷ ruby_api_name (codes op.api_path)
ruby_hint (other_hint hint) = codes hint

unfoldable pub to_ruby : MicrosandboxError → RubyError
unfolding ruby_hint class_name
to_ruby (unsupported op reason) =
    unsupported_op (ruby_api_name (codes op.api_path)) (ruby_hint reason)
to_ruby e = exception (class_name e) (core_text e)

unfoldable pub local_only : String → RubyError
local_only name = unsupported_op (codes name) (codes "use a local backend")

abbrev pub base_error : String → List String → RubyError
base_error template arguments = exception "Error" (text template arguments)

unfoldable pub forked_handle : String → ℕ → ℕ → RubyError
forked_handle class born cur = exception "ForkedHandleError" (
    if born == cur
    then pids
        "{class} was created in an earlier process that also had pid {born} and cannot be used in this forked process; create a new handle after fork"
        class born cur
    else pids
        "{class} was created in process {born} and cannot be used in forked process {cur}; create a new handle after fork (the original keeps working in process {born})"
        class born cur)
