-- ===== src/Values/Events.antt =====
-- `exec_event_to_hash` of exec.rs, `ssh_output_to_hash` of ssh.rs and `frame_to_hash` of agent.rs.
use microsandbox_rb.Common.{ℕ, String, Option, [], ◌∷◌, ◌==◌}
use microsandbox_rb.Common.Int.{ℤ, pos, negsuc}
use microsandbox_rb.Options.Outside.{Outside}
use microsandbox_rb.Values.Hashes.{RubyValue, bool, int, str, bytes, set_all, hash_of, nat, or_nil}

module _ (o : Outside) where
  -- Of a failure's payload, the message and the error number.
  pub data ExecEvent : Type 0 where
    started : ℕ → ExecEvent
    stdout stderr : o.Bytes → ExecEvent
    exited : ℤ → ExecEvent
    failed stdin_error : String → Option ℤ → ExecEvent

  unfoldable pub exec_event_to_hash : ExecEvent → RubyValue o
  unfolding set_all
  exec_event_to_hash (started pid) = hash_of o (("type", str "started") ∷ ("pid", nat o pid) ∷ [])
  exec_event_to_hash (stdout b) = hash_of o (("type", str "stdout") ∷ ("data", bytes b) ∷ [])
  exec_event_to_hash (stderr b) = hash_of o (("type", str "stderr") ∷ ("data", bytes b) ∷ [])
  exec_event_to_hash (exited code) = hash_of o (("type", str "exited") ∷ ("code", int code) ∷ [])
  exec_event_to_hash (failed message errno) = hash_of o (
      ("type", str "failed")
      ∷ ("data", bytes (o.text_bytes message))
      ∷ ("code", or_nil o int errno)
      ∷ [])
  exec_event_to_hash (stdin_error message errno) = hash_of o (
      ("type", str "stdin_error")
      ∷ ("data", bytes (o.text_bytes message))
      ∷ ("code", or_nil o int errno)
      ∷ [])

  pub record SshOutput : Type 0 where
    pub status : ℤ
    pub stdout : o.Bytes
    pub stderr : o.Bytes

  unfoldable pub ssh_output_to_hash : SshOutput → RubyValue o
  unfolding set_all
  ssh_output_to_hash r = hash_of o (
      ("status", int r.status)
      ∷ ("success", bool (elim r.status [ pos n ↦ n == 0 | negsuc _ ↦ 0 == 1 ]))
      ∷ ("stdout", bytes r.stdout)
      ∷ ("stderr", bytes r.stderr)
      ∷ [])

  pub record BridgeFrame : Type 0 where
    pub id : ℕ
    pub flags : ℕ
    pub body : o.Bytes

  unfoldable pub frame_to_hash : BridgeFrame → RubyValue o
  unfolding set_all
  frame_to_hash f =
      hash_of o (("id", nat o f.id) ∷ ("flags", nat o f.flags) ∷ ("body", bytes f.body) ∷ [])
