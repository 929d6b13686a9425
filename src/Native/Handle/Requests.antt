-- ===== src/Native/Handle/Requests.antt =====
-- What the methods of a sandbox handle ask of the core, and the kinds of its answers.
use microsandbox_rb.Common.{ℕ, String, Bool, Result}
use microsandbox_rb.Error.{MicrosandboxError}
use microsandbox_rb.Options.Outside.{Outside}
use microsandbox_rb.Options.Enums.{SandboxStatus}
use microsandbox_rb.Options.Lifecycle.{RestartOptions, DestroyOptions}
use microsandbox_rb.Options.Modify.{Request as Modification}
use microsandbox_rb.Values.Results.{StopResult, PingResult, TouchResult}
use microsandbox_rb.Values.Stores.{Snapshot}
use microsandbox_rb.Native.Objects.{Objects}

module _ (o : Outside) (t : Objects) where
  -- `connect_or_start` is the core's function of that name, or the detached one.
  pub data HandleRequest : Type 0 where
    stop : t.SandboxHandle → HandleRequest
    kill : t.SandboxHandle → HandleRequest
    request_stop : t.SandboxHandle → HandleRequest
    request_kill : t.SandboxHandle → HandleRequest
    request_drain : t.SandboxHandle → HandleRequest
    wait_until_stopped : t.SandboxHandle → HandleRequest
    ping : t.SandboxHandle → HandleRequest
    touch : t.SandboxHandle → HandleRequest
    stop_with_timeout : t.SandboxHandle → ℕ → HandleRequest
    kill_with_timeout : t.SandboxHandle → ℕ → HandleRequest
    connect_or_start : t.SandboxHandle → Bool → HandleRequest
    wait_for_status : t.SandboxHandle → SandboxStatus → HandleRequest
    restart_with : t.SandboxHandle → RestartOptions → HandleRequest
    destroy_with : t.SandboxHandle → DestroyOptions → HandleRequest
    snapshot : t.SandboxHandle → String → HandleRequest
    modify : t.SandboxHandle → Modification o → HandleRequest

  abbrev pub HandleReply : HandleRequest → Type 0
  HandleReply (stop _) = Result MicrosandboxError (Unit {0})
  HandleReply (kill _) = Result MicrosandboxError (Unit {0})
  HandleReply (request_stop _) = Result MicrosandboxError (Unit {0})
  HandleReply (request_kill _) = Result MicrosandboxError (Unit {0})
  HandleReply (request_drain _) = Result MicrosandboxError (Unit {0})
  HandleReply (wait_until_stopped _) = Result MicrosandboxError (StopResult o)
  HandleReply (ping _) = Result MicrosandboxError PingResult
  HandleReply (touch _) = Result MicrosandboxError TouchResult
  HandleReply (stop_with_timeout _ _) = Result MicrosandboxError (Unit {0})
  HandleReply (kill_with_timeout _ _) = Result MicrosandboxError (Unit {0})
  HandleReply (connect_or_start _ _) = Result MicrosandboxError t.Sandbox
  HandleReply (wait_for_status _ _) = Result MicrosandboxError t.SandboxHandle
  HandleReply (restart_with _ _) = Result MicrosandboxError t.Sandbox
  HandleReply (destroy_with _ _) = Result MicrosandboxError (Unit {0})
  HandleReply (snapshot _ _) = Result MicrosandboxError (Snapshot o)
  HandleReply (modify _ _) = Result MicrosandboxError t.Plan
