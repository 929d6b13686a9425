-- ===== src/Native/Exec.antt =====
-- The methods of `ExecHandle` and `ExecSink` (exec.rs). A handle's `recv`, `wait` and `collect` lock
-- it inside the call; `signal`, `kill` and `resize` go through its control channel.
use microsandbox_rb.Common.{ℕ, Bool, Option, [], ◌∷◌, Result}
use microsandbox_rb.Common.Int.{ℤ}
use microsandbox_rb.Error.{MicrosandboxError}
use microsandbox_rb.Runtime.Guard.{ForkGuarded}
use microsandbox_rb.Backend.Build.{Core}
use microsandbox_rb.Options.Outside.{Outside}
use microsandbox_rb.Values.Hashes.{nil, int, bool, hash_of, set_all, or_nil}
use microsandbox_rb.Values.Events.{ExecEvent, exec_event_to_hash}
use microsandbox_rb.Values.Results.{ExecOutput, exec_output_to_hash}
use microsandbox_rb.Native.Call.{Site, Call, shaped, method}
use microsandbox_rb.Native.Objects.{Objects, Given, plain}
use microsandbox_rb.Common.{ok}

-- What `wait` reads of the core's status.
pub record WaitStatus : Type 0 where
  pub code : ℤ
  pub success : Bool

module _ (o : Outside) (t : Objects) where
  pub data ExecRequest : Type 0 where
    recv wait collect kill : t.Exec → ExecRequest
    signal : t.Exec → ℤ → ExecRequest
    resize : t.Exec → ℕ → ℕ → ExecRequest
    write : t.Sink → o.Bytes → ExecRequest
    close : t.Sink → ExecRequest

  abbrev pub ExecReply : ExecRequest → Type 0
  ExecReply (recv _) = Option (ExecEvent o)
  ExecReply (wait _) = Result MicrosandboxError WaitStatus
  ExecReply (collect _) = Result MicrosandboxError (ExecOutput o)
  ExecReply (kill _) = Result MicrosandboxError (Unit {0})
  ExecReply (signal _ _) = Result MicrosandboxError (Unit {0})
  ExecReply (resize _ _ _) = Result MicrosandboxError (Unit {0})
  ExecReply (write _ _) = Result MicrosandboxError (Unit {0})
  ExecReply (close _) = Result MicrosandboxError (Unit {0})

module _ {core : Core} (o : Outside) (t : Objects) (site : Site core (ExecReply o t)) where
  abbrev pub Answer : Type 0
  Answer = Given core o t

  abbrev nothing : Unit {0} → Answer
  nothing _ = plain nil

  module _ (g : ForkGuarded t.Exec) where
    unfoldable pub recv_event : Call site Answer
    recv_event =
        method site g (λ h. ExecRequest.recv h)
          (λ _ e. ok (plain (or_nil o (exec_event_to_hash o) e)))

    unfoldable pub wait_exit : Call site Answer
    unfolding set_all
    wait_exit =
        method site g (λ h. ExecRequest.wait h)
          (λ _.
            shaped (λ s.
              plain (hash_of o (("exit_code", int s.code) ∷ ("success", bool s.success) ∷ []))))

    unfoldable pub collect_output : Call site Answer
    collect_output =
        method site g (λ h. ExecRequest.collect h)
          (λ _. shaped (λ r. plain (exec_output_to_hash o r)))

    unfoldable pub send_signal : ℤ → Call site Answer
    send_signal sig = method site g (λ h. ExecRequest.signal h sig) (λ _. shaped nothing)

    unfoldable pub kill_process : Call site Answer
    kill_process = method site g (λ h. ExecRequest.kill h) (λ _. shaped nothing)

    unfoldable pub resize_terminal : ℕ → ℕ → Call site Answer
    resize_terminal rows cols =
        method site g (λ h. ExecRequest.resize h rows cols) (λ _. shaped nothing)

  module _ (g : ForkGuarded t.Sink) where
    unfoldable pub write_sink : o.Bytes → Call site Answer
    write_sink content = method site g (λ h. ExecRequest.write h content) (λ _. shaped nothing)

    unfoldable pub close_sink : Call site Answer
    close_sink = method site g (λ h. ExecRequest.close h) (λ _. shaped nothing)
