-- ===== src/Native/Handle/Live.antt =====
-- The methods of a sandbox handle (`SbHandle` of sandbox.rs).
use microsandbox_rb.Common.{String, Result}
use microsandbox_rb.Error.{RubyError, MicrosandboxError}
use microsandbox_rb.Runtime.Guard.{ForkGuarded, guarded}
use microsandbox_rb.Backend.Build.{Core}
use microsandbox_rb.Options.Outside.{Outside}
use microsandbox_rb.Options.Conv.{opt_bool, secs_to_duration}
use microsandbox_rb.Options.Enums.{sandbox_status_from_str}
use microsandbox_rb.Options.Lifecycle.{restart_options, destroy_options}
use microsandbox_rb.Options.Modify.{modify_request}
use microsandbox_rb.Values.Hashes.{nil}
use microsandbox_rb.Values.Results.{stop_result_to_hash, ping_result_to_hash, touch_result_to_hash}
use microsandbox_rb.Values.Stores.{snapshot_to_hash}
use microsandbox_rb.Native.Call.{Site, Call, shaped, method, method_with}
use microsandbox_rb.Native.Objects.{Objects, Given, plain, sandbox, sandbox_handle, plan_text}
use microsandbox_rb.Native.Handle.Requests.{HandleRequest, HandleReply}

module _ {core : Core} (o : Outside) (t : Objects) (site : Site core (HandleReply o t)) where
  abbrev pub Answer : Type 0
  Answer = Given core o t

  abbrev plan_given : Result MicrosandboxError t.Plan → Result RubyError Answer
  plan_given = plan_text core o t

  module _ (g : ForkGuarded t.SandboxHandle) where
    unfoldable pub stop : Call site Answer
    stop = method site g (λ i. HandleRequest.stop i) (λ _. shaped (λ _. plain nil))

    unfoldable pub stop_with_timeout : o.F64 → Call site Answer
    stop_with_timeout secs =
        method_with site g (secs_to_duration o secs) (λ i. HandleRequest.stop_with_timeout i)
          (λ _ _. shaped (λ _. plain nil))

    unfoldable pub kill : Call site Answer
    kill = method site g (λ i. HandleRequest.kill i) (λ _. shaped (λ _. plain nil))

    unfoldable pub kill_with_timeout : o.F64 → Call site Answer
    kill_with_timeout secs =
        method_with site g (secs_to_duration o secs) (λ i. HandleRequest.kill_with_timeout i)
          (λ _ _. shaped (λ _. plain nil))

    unfoldable pub request_stop : Call site Answer
    request_stop = method site g (λ i. HandleRequest.request_stop i) (λ _. shaped (λ _. plain nil))

    unfoldable pub request_kill : Call site Answer
    request_kill = method site g (λ i. HandleRequest.request_kill i) (λ _. shaped (λ _. plain nil))

    unfoldable pub request_drain : Call site Answer
    request_drain =
        method site g (λ i. HandleRequest.request_drain i) (λ _. shaped (λ _. plain nil))

    unfoldable pub connect_or_start : o.Hash → Call site Answer
    connect_or_start opts =
        method_with site g (opt_bool o opts "detached") (λ i. HandleRequest.connect_or_start i)
          (λ _ _. shaped (λ i. sandbox (guarded site.cur "Microsandbox::Sandbox" i)))

    unfoldable pub wait_for_status : String → Call site Answer
    wait_for_status status =
        method_with site g (sandbox_status_from_str status) (λ i. HandleRequest.wait_for_status i)
          (λ _ _. shaped (λ i. sandbox_handle (guarded site.cur "Microsandbox::SandboxHandle" i)))

    unfoldable pub restart : o.Hash → Call site Answer
    restart opts =
        method_with site g (restart_options o t.restart_timeout opts)
          (λ i. HandleRequest.restart_with i)
          (λ _ _. shaped (λ i. sandbox (guarded site.cur "Microsandbox::Sandbox" i)))

    unfoldable pub destroy : o.Hash → Call site Answer
    destroy opts =
        method_with site g (destroy_options o t.destroy_timeout opts)
          (λ i. HandleRequest.destroy_with i) (λ _ _. shaped (λ _. plain nil))

    unfoldable pub wait_until_stopped : Call site Answer
    wait_until_stopped =
        method site g (λ i. HandleRequest.wait_until_stopped i)
          (λ _. shaped (λ r. plain (stop_result_to_hash o r)))

    unfoldable pub snapshot : String → Call site Answer
    snapshot name =
        method site g (λ i. HandleRequest.snapshot i name)
          (λ _. shaped (λ r. plain (snapshot_to_hash o r)))

    unfoldable pub ping : Call site Answer
    ping =
        method site g (λ i. HandleRequest.ping i)
          (λ _. shaped (λ r. plain (ping_result_to_hash o r)))

    unfoldable pub touch : Call site Answer
    touch =
        method site g (λ i. HandleRequest.touch i)
          (λ _. shaped (λ r. plain (touch_result_to_hash o r)))

    unfoldable pub modify : o.Hash → Call site Answer
    modify opts =
        method_with site g (modify_request o opts) (λ i. HandleRequest.modify i) (λ _ _. plan_given)
