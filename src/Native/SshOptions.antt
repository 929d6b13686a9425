-- ===== src/Native/SshOptions.antt =====
-- The options of `ssh_open_client` and `ssh_prepare_server` of sandbox.rs, and of `metrics_stream`.
use microsandbox_rb.Common.{
  ℕ, String, Bool, true, List, [], ◌∷◌, ◌++◌, Result, ok, ◌>>=◌, traverse, if◌then◌else◌,
}
use microsandbox_rb.Error.{RubyError}
use microsandbox_rb.Options.Outside.{Outside}
use microsandbox_rb.Options.Conv.{opt, opt_or, opt_string, opt_f64, secs_to_duration, set}

-- The calls of the core's client and server builders.
pub data SshCall : Type 0 where
  user term host_key_path authorized_keys_path : String → SshCall
  inactivity_timeout : ℕ → SshCall
  sftp : Bool → SshCall

module _ (o : Outside) where
  unfoldable pub open_client_calls : o.Hash → Result RubyError (List SshCall)
  unfolding opt opt_or secs_to_duration set
  open_client_calls opts = do
    u ← opt_string o opts "user"
    t ← opt_string o opts "term"
    s ← opt_or o o.to_bool true opts "sftp"
    secs ← opt_f64 o opts "inactivity_timeout"
    i ← traverse (secs_to_duration o) secs
    ok (set u user ++ (set t term ++ (set i inactivity_timeout ++ (sftp s ∷ []))))

  unfoldable pub prepare_server_calls : o.Hash → Result RubyError (List SshCall)
  unfolding opt opt_or secs_to_duration set
  prepare_server_calls opts = do
    h ← opt_string o opts "host_key_path"
    a ← opt_string o opts "authorized_keys_path"
    u ← opt_string o opts "user"
    s ← opt_or o o.to_bool true opts "sftp"
    secs ← opt_f64 o opts "inactivity_timeout"
    i ← traverse (secs_to_duration o) secs
    ok (
        set h host_key_path
        ++ (set a authorized_keys_path
            ++ (set u user ++ (set i inactivity_timeout ++ (sftp s ∷ [])))))

  -- `interval <= 0.0` stands for a second.
  unfoldable pub metrics_interval : o.F64 → Result RubyError ℕ
  unfolding secs_to_duration
  metrics_interval interval =
      if o.is_nonpos interval then ok 1_000_000_000 else secs_to_duration o interval
