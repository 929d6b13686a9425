-- ===== src/Native/Objects.antt =====
-- The core's objects that handles hold, and what a native method gives to Ruby.
use microsandbox_rb.Common.{ℕ, String, Bool, Option, List, [], ◌∷◌, Result, ok, ◌>>=◌, map_err}
use microsandbox_rb.Error.{RubyError, MicrosandboxError, base_error, to_ruby}
use microsandbox_rb.Runtime.Guard.{ForkGuarded}
use microsandbox_rb.Backend.Build.{Core}
use microsandbox_rb.Backend.State.{Backend}
use microsandbox_rb.Options.Outside.{Outside}
use microsandbox_rb.Values.Hashes.{RubyValue, str}

pub record Objects : Type 1 where
  pub Sandbox : Type 0
  pub SandboxHandle : Type 0
  pub Exec : Type 0
  pub Sink : Type 0
  pub ReadStream : Type 0
  pub WriteSink : Type 0
  pub Logs : Type 0
  pub Metrics : Type 0
  pub Pull : Type 0
  pub Ssh : Type 0
  pub Sftp : Type 0
  pub SshServer : Type 0
  pub Bridge : Type 0
  -- What the objects tell without a round trip.
  pub sandbox_name : Sandbox → String
  pub sandbox_id : Sandbox → String
  pub owns_lifecycle : Sandbox → Bool
  -- A modification plan, and serde_json's text of it or its error.
  pub Plan : Type 0
  pub plan_json : Plan → Result String String
  -- The timeouts of `RestartOptions::default()` and `DestroyOptions::default()`.
  pub restart_timeout : ℕ
  pub destroy_timeout : ℕ

module _ (core : Core) (o : Outside) (t : Objects) where
  -- A value, a page of handles, or a new handle.
  pub data Given : Type 0 where
    plain : RubyValue o → Given
    page : List (ForkGuarded t.SandboxHandle) → Option String → Given
    sandbox : ForkGuarded t.Sandbox → Given
    sandbox_handle : ForkGuarded t.SandboxHandle → Given
    exec_handle : ForkGuarded t.Exec → Given
    pull_session : ForkGuarded t.Pull → Given
    read_stream : ForkGuarded t.ReadStream → Given
    write_sink : ForkGuarded t.WriteSink → Given
    log_stream : ForkGuarded t.Logs → Given
    metrics_stream : ForkGuarded t.Metrics → Given
    ssh_client : ForkGuarded t.Ssh → Given
    sftp_client : ForkGuarded t.Sftp → Given
    ssh_server : ForkGuarded t.SshServer → Given
    agent_client : ForkGuarded t.Bridge → Given
    volume_fs : String → ForkGuarded (Backend core) → Given

  -- The end of `run_modify`: the plan as JSON text.
  unfoldable pub plan_text : Result MicrosandboxError t.Plan → Result RubyError Given
  plan_text r = do
    plan ← map_err to_ruby r
    json ←
        map_err (λ e. base_error "failed to serialize modification plan: {e}" (e ∷ []))
          (t.plan_json plan)
    ok (plain (str json))
