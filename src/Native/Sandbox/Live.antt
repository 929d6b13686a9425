-- ===== src/Native/Sandbox/Live.antt =====
-- The methods of a live sandbox: running commands, the lifecycle, health, logs and metrics.
use microsandbox_rb.Common.{String, List, [], Result, ok, ◌>>=◌}
use microsandbox_rb.Error.{RubyError}
use microsandbox_rb.Runtime.Guard.{ForkGuarded, peek}
use microsandbox_rb.Backend.Build.{Core}
use microsandbox_rb.Options.Outside.{Outside}
use microsandbox_rb.Options.Enums.{sandbox_status_str, sandbox_status_from_str}
use microsandbox_rb.Options.Exec.{OptionCall, parse_exec, apply_exec}
use microsandbox_rb.Options.Lifecycle.{
  restart_options, destroy_options, parse_log_options, parse_log_stream_options,
}
use microsandbox_rb.Options.Modify.{modify_request}
use microsandbox_rb.Values.Hashes.{bool, str}
use microsandbox_rb.Values.Results.{
  exec_output_to_hash, exit_status_to_hash, metrics_to_hash, ping_result_to_hash,
  touch_result_to_hash, log_entry_to_hash, hash_array,
}
use microsandbox_rb.Native.Call.{Site, Call, lift, and_then, get, shaped, method, method_with}
use microsandbox_rb.Native.Objects.{Objects, Given, plan_text, plain}
use microsandbox_rb.Native.SshOptions.{metrics_interval}
use microsandbox_rb.Native.Sandbox.Requests.{SandboxRequest, SandboxReply}
use microsandbox_rb.Native.Sandbox.Class.{
  Answer, own, from_sandbox, from_handle, from_exec, nothing,
}

module _ {core : Core} (o : Outside) (t : Objects) (site : Site core (SandboxReply o t)) where
  -- `ExecOpts::parse` and `apply`.
  abbrev pub exec_calls : List String → o.Hash → Result RubyError (List (OptionCall o))
  exec_calls args opts = parse_exec o args opts >>= λ p. ok (apply_exec o p)

  module _ (g : ForkGuarded t.Sandbox) where
    abbrev pub name : String
    name = t.sandbox_name (peek g)

    abbrev pub id : String
    id = t.sandbox_id (peek g)

    unfoldable pub exec : String → List String → o.Hash → Call site (Answer o t site)
    exec cmd args opts =
        method_with site g (exec_calls args opts) (λ i. SandboxRequest.exec_with i cmd)
          (λ _ _. shaped (λ r. plain (exec_output_to_hash o r)))

    unfoldable pub shell : String → o.Hash → Call site (Answer o t site)
    shell script opts =
        method_with site g (exec_calls [] opts) (λ i. SandboxRequest.shell_with i script)
          (λ _ _. shaped (λ r. plain (exec_output_to_hash o r)))

    unfoldable pub exec_stream : String → List String → o.Hash → Call site (Answer o t site)
    exec_stream cmd args opts =
        method_with site g (exec_calls args opts) (λ i. SandboxRequest.exec_stream_with i cmd)
          (λ _ _. shaped (from_exec o t site))

    unfoldable pub exec_default : o.Hash → Call site (Answer o t site)
    exec_default opts =
        method_with site g (exec_calls [] opts) (λ i. SandboxRequest.exec_default_with i)
          (λ _ _. shaped (λ r. plain (exec_output_to_hash o r)))

    unfoldable pub exec_default_stream : o.Hash → Call site (Answer o t site)
    exec_default_stream opts =
        method_with site g (exec_calls [] opts) (λ i. SandboxRequest.exec_default_stream_with i)
          (λ _ _. shaped (from_exec o t site))

    unfoldable pub shell_stream : String → o.Hash → Call site (Answer o t site)
    shell_stream script opts =
        method_with site g (exec_calls [] opts) (λ i. SandboxRequest.shell_stream_with i script)
          (λ _ _. shaped (from_exec o t site))

    unfoldable pub stop : Call site (Answer o t site)
    stop = method site g (λ i. SandboxRequest.stop i) (λ _. shaped (nothing o t site))

    unfoldable pub stop_and_wait : Call site (Answer o t site)
    stop_and_wait =
        method site g (λ i. SandboxRequest.stop_and_wait i)
          (λ _. shaped (λ r. plain (exit_status_to_hash o r)))

    unfoldable pub kill : Call site (Answer o t site)
    kill = method site g (λ i. SandboxRequest.kill i) (λ _. shaped (nothing o t site))

    unfoldable pub drain : Call site (Answer o t site)
    drain = method site g (λ i. SandboxRequest.drain i) (λ _. shaped (nothing o t site))

    unfoldable pub wait : Call site (Answer o t site)
    wait =
        method site g (λ i. SandboxRequest.wait i)
          (λ _. shaped (λ r. plain (exit_status_to_hash o r)))

    unfoldable pub wait_for_status : String → Call site (Answer o t site)
    wait_for_status status =
        method_with site g (sandbox_status_from_str status) (λ i. SandboxRequest.wait_for_status i)
          (λ _ _. shaped (from_handle o t site))

    unfoldable pub restart : o.Hash → Call site (Answer o t site)
    restart opts =
        method_with site g (restart_options o t.restart_timeout opts)
          (λ i. SandboxRequest.restart_with i) (λ _ _. shaped (from_sandbox o t site))

    unfoldable pub destroy : o.Hash → Call site (Answer o t site)
    destroy opts =
        method_with site g (destroy_options o t.destroy_timeout opts)
          (λ i. SandboxRequest.destroy_with i) (λ _ _. shaped (nothing o t site))

    unfoldable pub status : Call site (Answer o t site)
    status =
        method site g (λ i. SandboxRequest.status i)
          (λ _. shaped (λ s. plain (str (sandbox_status_str s))))

    unfoldable pub owns_lifecycle : Call site (Answer o t site)
    owns_lifecycle =
        and_then site (get site g) (λ i. lift site (ok (plain (bool (t.owns_lifecycle i)))))

    unfoldable pub detach : Call site (Answer o t site)
    detach = method site g (λ i. SandboxRequest.detach i) (λ _. λ r. ok (nothing o t site r))

    unfoldable pub metrics : Call site (Answer o t site)
    metrics =
        method site g (λ i. SandboxRequest.metrics i)
          (λ _. shaped (λ m. plain (metrics_to_hash o m)))

    unfoldable pub ping : Call site (Answer o t site)
    ping =
        method site g (λ i. SandboxRequest.ping i)
          (λ _. shaped (λ r. plain (ping_result_to_hash o r)))

    unfoldable pub touch : Call site (Answer o t site)
    touch =
        method site g (λ i. SandboxRequest.touch i)
          (λ _. shaped (λ r. plain (touch_result_to_hash o r)))

    unfoldable pub modify : o.Hash → Call site (Answer o t site)
    modify opts =
        method_with site g (modify_request o opts) (λ i. SandboxRequest.modify i)
          (λ _ _. plan_text core o t)

    unfoldable pub logs : o.Hash → Call site (Answer o t site)
    logs opts =
        method_with site g (parse_log_options o opts) (λ i. SandboxRequest.logs i)
          (λ _ _. shaped (λ es. plain (hash_array o (log_entry_to_hash o) es)))

    unfoldable pub metrics_stream : o.F64 → Call site (Answer o t site)
    metrics_stream interval =
        method_with site g (metrics_interval o interval) (λ i. SandboxRequest.metrics_stream i)
          (λ _ _. λ s. ok (Given.metrics_stream (own o t site "Microsandbox::MetricsStream" s)))

    unfoldable pub log_stream : o.Hash → Call site (Answer o t site)
    log_stream opts =
        method_with site g (parse_log_stream_options o opts) (λ i. SandboxRequest.log_stream i)
          (λ _ _. shaped (λ s. Given.log_stream (own o t site "Microsandbox::LogStream" s)))
