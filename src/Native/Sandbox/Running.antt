-- ===== src/Native/Sandbox/Running.antt =====
-- Running a command in a sandbox, when nothing stands in the way.
use microsandbox_rb.Common.{ℕ, ◌≡◌, refl, ◌<◌, true, String, List, ok, ◌>>=◌}
use microsandbox_rb.Runtime.Identity.{identity_eq, to_bits}
use microsandbox_rb.Runtime.Guard.{ForkGuarded}
use microsandbox_rb.Backend.Build.{Core}
use microsandbox_rb.Options.Outside.{Outside}
use microsandbox_rb.Options.Exec.{parse_exec, apply_exec, ExecOpts}
use microsandbox_rb.Values.Results.{exec_output_to_hash}
use microsandbox_rb.Native.Call.{Site, State, serve, shaped}
use microsandbox_rb.Native.Objects.{Objects, plain}
use microsandbox_rb.Native.Answers.{given, method_with_answers}
use microsandbox_rb.Native.Sandbox.Requests.{SandboxRequest, SandboxReply}
use microsandbox_rb.Native.Sandbox.Live.{exec}

module _ {core : Core} (o : Outside) (t : Objects) (site : Site core (SandboxReply o t)) where
  parsed_calls :
      (args : List String) (opts : o.Hash) (p : ExecOpts o)
      → parse_exec o args opts ≡ ok p
      → (parse_exec o args opts >>= λ p. ok (apply_exec o p)) ≡ ok (apply_exec o p)
  unfolding ◌>>=◌
  parsed_calls args opts p e = rw e refl

  -- `exec` in the process that made the handle and owns the backend, with options that pass and a
  -- CRuby that lets one of its 64 attempts start without an interrupt, runs the command in this
  -- sandbox with exactly the parsed options, and gives the Hash of its output, the core's error as a
  -- Ruby error, or its panic; the backend is as it was.
  pub exec_answers :
      (g : ForkGuarded t.Sandbox) (cmd : String) (args : List String) (opts : o.Hash)
      (p : ExecOpts o) (k : ℕ) (s : State site)
      → identity_eq g.owner site.cur ≡ true
      → s.world.owner ≡ to_bits site.cur
      → k < 64
      → ((i : ℕ) → site.ruby.check i ≡ ok tt)
      → site.ruby.starts k ≡ true
      → parse_exec o args opts ≡ ok p
      → exec o t site g cmd args opts s ≡ (
        given site
            (shaped (λ r. plain (exec_output_to_hash o r)))
            (serve site (SandboxRequest.exec_with g.inner cmd (apply_exec o p)) s.outer).0,
        record s {
          outer = (serve site (SandboxRequest.exec_with g.inner cmd (apply_exec o p)) s.outer).1;
        },
      )
  unfolding exec
  exec_answers g cmd args opts p k s mine own few quiet go parsed =
      method_with_answers site k s own few quiet go g _ (apply_exec o p)
        (λ i. SandboxRequest.exec_with i cmd) (λ _ _. shaped (λ r. plain (exec_output_to_hash o r)))
        mine (parsed_calls args opts p parsed)
