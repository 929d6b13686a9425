-- ===== src/Native/Sandbox/Requests.antt =====
-- What the methods of `Sandbox` (sandbox.rs) ask of the core, and the kinds of its answers.
use microsandbox_rb.Common.{ℕ, String, Bool, Option, List, Result}
use microsandbox_rb.Common.Int.{ℤ}
use microsandbox_rb.Error.{MicrosandboxError}
use microsandbox_rb.Options.Outside.{Outside}
use microsandbox_rb.Options.Calls.{Call as BuilderCall}
use microsandbox_rb.Options.Enums.{SandboxStatus}
use microsandbox_rb.Options.Exec.{OptionCall}
use microsandbox_rb.Options.Lifecycle.{RestartOptions, DestroyOptions, LogOptions, LogStreamOptions}
use microsandbox_rb.Options.Modify.{Request as Modification}
use microsandbox_rb.Values.Results.{
  ExecOutput, ExitStatus, SandboxMetrics, PingResult, TouchResult, LogEntry, FsEntry, FsMetadata,
}
use microsandbox_rb.Native.Objects.{Objects}
use microsandbox_rb.Native.SshOptions.{SshCall}

module _ (o : Outside) (t : Objects) where
  pub data SandboxRequest : Type 0 where
    create create_with_pull_progress connect_or_create :
        String → List (BuilderCall o) → SandboxRequest
    start start_detached get_by_name remove : String → SandboxRequest
    list : SandboxRequest
    list_with : Option ℕ → Option String → List (String × String) → SandboxRequest
    exec_with exec_stream_with shell_with shell_stream_with attach_with :
        t.Sandbox → String → List (OptionCall o) → SandboxRequest
    exec_default_with exec_default_stream_with attach_default_with :
        t.Sandbox → List (OptionCall o) → SandboxRequest
    stop stop_and_wait kill drain wait status detach metrics ping touch attach_shell :
        t.Sandbox → SandboxRequest
    wait_for_status : t.Sandbox → SandboxStatus → SandboxRequest
    restart_with : t.Sandbox → RestartOptions → SandboxRequest
    destroy_with : t.Sandbox → DestroyOptions → SandboxRequest
    modify : t.Sandbox → Modification o → SandboxRequest
    logs : t.Sandbox → LogOptions o → SandboxRequest
    log_stream : t.Sandbox → LogStreamOptions o → SandboxRequest
    metrics_stream : t.Sandbox → ℕ → SandboxRequest
    fs_read fs_read_text fs_list fs_mkdir fs_remove fs_remove_dir fs_exists fs_stat fs_read_stream
          fs_write_stream :
        t.Sandbox → String → SandboxRequest
    fs_write : t.Sandbox → String → o.Bytes → SandboxRequest
    fs_copy fs_rename copy_from_host copy_to_host : t.Sandbox → String → String → SandboxRequest
    ssh_open_client ssh_prepare_server : t.Sandbox → List SshCall → SandboxRequest

  -- `SandboxPage`
  pub record SandboxPage : Type 0 where
    pub sandboxes : List t.SandboxHandle
    pub next_cursor : Option String

  abbrev Fallible : Type 0 → Type 0
  Fallible A = Result MicrosandboxError A

  abbrev pub SandboxReply : SandboxRequest → Type 0
  SandboxReply (create _ _) = Fallible t.Sandbox
  SandboxReply (create_with_pull_progress _ _) = Fallible t.Pull
  SandboxReply (connect_or_create _ _) = Fallible t.Sandbox
  SandboxReply (start _) = Fallible t.Sandbox
  SandboxReply (start_detached _) = Fallible t.Sandbox
  SandboxReply (get_by_name _) = Fallible t.SandboxHandle
  SandboxReply (remove _) = Fallible (Unit {0})
  SandboxReply list = Fallible SandboxPage
  SandboxReply (list_with _ _ _) = Fallible SandboxPage
  SandboxReply (exec_with _ _ _) = Fallible (ExecOutput o)
  SandboxReply (exec_stream_with _ _ _) = Fallible t.Exec
  SandboxReply (shell_with _ _ _) = Fallible (ExecOutput o)
  SandboxReply (shell_stream_with _ _ _) = Fallible t.Exec
  SandboxReply (attach_with _ _ _) = Fallible ℤ
  SandboxReply (exec_default_with _ _) = Fallible (ExecOutput o)
  SandboxReply (exec_default_stream_with _ _) = Fallible t.Exec
  SandboxReply (attach_default_with _ _) = Fallible ℤ
  SandboxReply (stop _) = Fallible (Unit {0})
  SandboxReply (stop_and_wait _) = Fallible ExitStatus
  SandboxReply (kill _) = Fallible (Unit {0})
  SandboxReply (drain _) = Fallible (Unit {0})
  SandboxReply (wait _) = Fallible ExitStatus
  SandboxReply (status _) = Fallible SandboxStatus
  SandboxReply (detach _) = Unit
  SandboxReply (metrics _) = Fallible (SandboxMetrics o)
  SandboxReply (ping _) = Fallible PingResult
  SandboxReply (touch _) = Fallible TouchResult
  SandboxReply (attach_shell _) = Fallible ℤ
  SandboxReply (wait_for_status _ _) = Fallible t.SandboxHandle
  SandboxReply (restart_with _ _) = Fallible t.Sandbox
  SandboxReply (destroy_with _ _) = Fallible (Unit {0})
  SandboxReply (modify _ _) = Fallible t.Plan
  SandboxReply (logs _ _) = Fallible (List (LogEntry o))
  SandboxReply (log_stream _ _) = Fallible t.Logs
  SandboxReply (metrics_stream _ _) = t.Metrics
  SandboxReply (fs_read _ _) = Fallible o.Bytes
  SandboxReply (fs_read_text _ _) = Fallible String
  SandboxReply (fs_list _ _) = Fallible (List (FsEntry o))
  SandboxReply (fs_mkdir _ _) = Fallible (Unit {0})
  SandboxReply (fs_remove _ _) = Fallible (Unit {0})
  SandboxReply (fs_remove_dir _ _) = Fallible (Unit {0})
  SandboxReply (fs_exists _ _) = Fallible Bool
  SandboxReply (fs_stat _ _) = Fallible (FsMetadata o)
  SandboxReply (fs_read_stream _ _) = Fallible t.ReadStream
  SandboxReply (fs_write_stream _ _) = Fallible t.WriteSink
  SandboxReply (fs_write _ _ _) = Fallible (Unit {0})
  SandboxReply (fs_copy _ _ _) = Fallible (Unit {0})
  SandboxReply (fs_rename _ _ _) = Fallible (Unit {0})
  SandboxReply (copy_from_host _ _ _) = Fallible (Unit {0})
  SandboxReply (copy_to_host _ _ _) = Fallible (Unit {0})
  SandboxReply (ssh_open_client _ _) = Fallible t.Ssh
  SandboxReply (ssh_prepare_server _ _) = Fallible t.SshServer
