-- ===== src/Native/Sandbox/Class.antt =====
-- The functions of the class `Sandbox` (sandbox.rs), and the handles that they make.
use microsandbox_rb.Common.{ℕ, String, true, false, Option, List, map, Result, ok, ◌>>=◌}
use microsandbox_rb.Error.{RubyError}
use microsandbox_rb.Runtime.Guard.{ForkGuarded, guarded}
use microsandbox_rb.Backend.Build.{Core}
use microsandbox_rb.Options.Outside.{Outside}
use microsandbox_rb.Options.Conv.{opt, opt_or, opt_string, opt_bool, opt_u32, opt_string_map}
use microsandbox_rb.Options.Policy.{Policies}
use microsandbox_rb.Options.Create.{build_builder}
use microsandbox_rb.Options.Calls.{Call as BuilderCall}
use microsandbox_rb.Values.Hashes.{nil}
use microsandbox_rb.Native.Call.{Site, Call, lift, and_then, on_world, shaped, asked, asked_with}
use microsandbox_rb.Native.Objects.{
  Objects, Given, plain, page, sandbox, sandbox_handle, exec_handle, pull_session,
}
use microsandbox_rb.Native.Sandbox.Requests.{SandboxRequest, SandboxReply, SandboxPage}

module _ {core : Core} (o : Outside) (t : Objects) (site : Site core (SandboxReply o t)) where
  abbrev pub Answer : Type 0
  Answer = Given core o t

  -- `from_inner`, `from_core`, `new`, `from_stream`: a handle of this process.
  abbrev pub own : {H : Type 0} → String → H → ForkGuarded H
  own class inner = guarded site.cur class inner

  abbrev pub from_sandbox : t.Sandbox → Answer
  from_sandbox i = sandbox (own "Microsandbox::Sandbox" i)

  abbrev pub from_handle : t.SandboxHandle → Answer
  from_handle i = sandbox_handle (own "Microsandbox::SandboxHandle" i)

  abbrev pub from_exec : t.Exec → Answer
  from_exec i = exec_handle (own "Microsandbox::ExecHandle" i)

  abbrev pub nothing : Unit {0} → Answer
  nothing _ = plain nil

  unfoldable pub page_to_hash : SandboxPage o t → Answer
  unfolding guarded
  page_to_hash p = page (map (own "Microsandbox::SandboxHandle") p.sandboxes) p.next_cursor

  module _ (policies : Policies o) where
    abbrev built : o.Hash → Call site (List (BuilderCall o))
    built opts = on_world site (build_builder core site.cur site.env o policies opts)

    unfoldable pub create : String → o.Hash → Call site Answer
    create name opts =
        and_then site (built opts)
          (λ b. asked site (SandboxRequest.create name b) (shaped from_sandbox))

    unfoldable pub create_with_progress : String → o.Hash → Call site Answer
    create_with_progress name opts = and_then site (built opts) (λ b.
        asked site (SandboxRequest.create_with_pull_progress name b)
          (shaped (λ p. pull_session (own "Microsandbox::PullSession" p))))

    unfoldable pub connect_or_create : String → o.Hash → Call site Answer
    connect_or_create name opts =
        and_then site (built opts)
          (λ b. asked site (SandboxRequest.connect_or_create name b) (shaped from_sandbox))

  -- Both branches of `start` ask for a sandbox.
  unfoldable pub start : String → o.Hash → Call site Answer
  unfolding opt_or and_then asked guarded
  start name opts = and_then site (lift site (opt_bool o opts "detached")) (λ detached.
      elim detached [
        | true ↦ asked site (SandboxRequest.start_detached name) (shaped from_sandbox)
        | false ↦ asked site (SandboxRequest.start name) (shaped from_sandbox)
      ])

  unfoldable pub get_by_name : String → Call site Answer
  get_by_name name = asked site (SandboxRequest.get_by_name name) (shaped from_handle)

  unfoldable pub list : Call site Answer
  list = asked site SandboxRequest.list (shaped page_to_hash)

  unfoldable pub list_options :
      o.Hash → Result RubyError (Option ℕ × Option String × List (String × String))
  unfolding opt opt_or
  list_options opts = do
    labels ← opt_string_map o opts "labels"
    limit ← opt_u32 o opts "limit"
    cursor ← opt_string o opts "cursor"
    ok (limit, cursor, labels)

  unfoldable pub list_with : o.Hash → Call site Answer
  list_with opts =
      asked_with site (list_options opts) (λ a. SandboxRequest.list_with a.0 a.1 a.2)
        (λ _. shaped page_to_hash)

  unfoldable pub remove : String → Call site Answer
  remove name = asked site (SandboxRequest.remove name) (shaped nothing)
