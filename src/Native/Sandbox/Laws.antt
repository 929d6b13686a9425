-- ===== src/Native/Sandbox/Laws.antt =====
-- Every method of a live sandbox that asks the core, at once.
use microsandbox_rb.Common.{◌≡◌, refl, false, err}
use microsandbox_rb.Error.{forked_handle}
use microsandbox_rb.Runtime.Nogvl.{returned}
use microsandbox_rb.Runtime.Identity.{identity_eq}
use microsandbox_rb.Runtime.Guard.{ForkGuarded}
use microsandbox_rb.Backend.Build.{Core}
use microsandbox_rb.Options.Outside.{Outside}
use microsandbox_rb.Native.Call.{Site, State}
use microsandbox_rb.Native.Objects.{Objects}
use microsandbox_rb.Native.Sandbox.Requests.{SandboxRequest, SandboxReply}
use microsandbox_rb.Native.Sandbox.Methods.{Method, run}
use microsandbox_rb.Native.Shapes.{Reaches}
use microsandbox_rb.Native.Keeps.{Keeps, method-Keeps, method_with-Keeps}

module _ {core : Core} (o : Outside) (t : Objects) (site : Site core (SandboxReply o t)) where
  -- A request about the sandbox `i`.
  abbrev pub About : t.Sandbox → SandboxRequest o t → Type 0
  About i (SandboxRequest.create _ _) = ⊥
  About i (SandboxRequest.create_with_pull_progress _ _) = ⊥
  About i (SandboxRequest.connect_or_create _ _) = ⊥
  About i (SandboxRequest.start _) = ⊥
  About i (SandboxRequest.start_detached _) = ⊥
  About i (SandboxRequest.get_by_name _) = ⊥
  About i (SandboxRequest.remove _) = ⊥
  About i SandboxRequest.list = ⊥
  About i (SandboxRequest.list_with _ _ _) = ⊥
  About i (SandboxRequest.exec_with j _ _) = j ≡ i
  About i (SandboxRequest.exec_stream_with j _ _) = j ≡ i
  About i (SandboxRequest.shell_with j _ _) = j ≡ i
  About i (SandboxRequest.shell_stream_with j _ _) = j ≡ i
  About i (SandboxRequest.attach_with j _ _) = j ≡ i
  About i (SandboxRequest.exec_default_with j _) = j ≡ i
  About i (SandboxRequest.exec_default_stream_with j _) = j ≡ i
  About i (SandboxRequest.attach_default_with j _) = j ≡ i
  About i (SandboxRequest.stop j) = j ≡ i
  About i (SandboxRequest.stop_and_wait j) = j ≡ i
  About i (SandboxRequest.kill j) = j ≡ i
  About i (SandboxRequest.drain j) = j ≡ i
  About i (SandboxRequest.wait j) = j ≡ i
  About i (SandboxRequest.status j) = j ≡ i
  About i (SandboxRequest.detach j) = j ≡ i
  About i (SandboxRequest.metrics j) = j ≡ i
  About i (SandboxRequest.ping j) = j ≡ i
  About i (SandboxRequest.touch j) = j ≡ i
  About i (SandboxRequest.attach_shell j) = j ≡ i
  About i (SandboxRequest.wait_for_status j _) = j ≡ i
  About i (SandboxRequest.restart_with j _) = j ≡ i
  About i (SandboxRequest.destroy_with j _) = j ≡ i
  About i (SandboxRequest.modify j _) = j ≡ i
  About i (SandboxRequest.logs j _) = j ≡ i
  About i (SandboxRequest.log_stream j _) = j ≡ i
  About i (SandboxRequest.metrics_stream j _) = j ≡ i
  About i (SandboxRequest.fs_read j _) = j ≡ i
  About i (SandboxRequest.fs_read_text j _) = j ≡ i
  About i (SandboxRequest.fs_list j _) = j ≡ i
  About i (SandboxRequest.fs_mkdir j _) = j ≡ i
  About i (SandboxRequest.fs_remove j _) = j ≡ i
  About i (SandboxRequest.fs_remove_dir j _) = j ≡ i
  About i (SandboxRequest.fs_exists j _) = j ≡ i
  About i (SandboxRequest.fs_stat j _) = j ≡ i
  About i (SandboxRequest.fs_read_stream j _) = j ≡ i
  About i (SandboxRequest.fs_write_stream j _) = j ≡ i
  About i (SandboxRequest.fs_write j _ _) = j ≡ i
  About i (SandboxRequest.fs_copy j _ _) = j ≡ i
  About i (SandboxRequest.fs_rename j _ _) = j ≡ i
  About i (SandboxRequest.copy_from_host j _ _) = j ≡ i
  About i (SandboxRequest.copy_to_host j _ _) = j ≡ i
  About i (SandboxRequest.ssh_open_client j _) = j ≡ i
  About i (SandboxRequest.ssh_prepare_server j _) = j ≡ i

  module _ (g : ForkGuarded t.Sandbox) where
    -- What one method keeps to.
    run-Keeps : (m : Method o) → Keeps site (About g.inner) g (run o t site g m)
    unfolding run
    run-Keeps (Method.exec a b c) = method_with-Keeps site _ g _ _ _ (λ _. refl)
    run-Keeps (Method.shell a b) = method_with-Keeps site _ g _ _ _ (λ _. refl)
    run-Keeps (Method.exec_stream a b c) = method_with-Keeps site _ g _ _ _ (λ _. refl)
    run-Keeps (Method.exec_default a) = method_with-Keeps site _ g _ _ _ (λ _. refl)
    run-Keeps (Method.exec_default_stream a) = method_with-Keeps site _ g _ _ _ (λ _. refl)
    run-Keeps (Method.shell_stream a b) = method_with-Keeps site _ g _ _ _ (λ _. refl)
    run-Keeps Method.stop = method-Keeps site _ g _ _ refl
    run-Keeps Method.stop_and_wait = method-Keeps site _ g _ _ refl
    run-Keeps Method.kill = method-Keeps site _ g _ _ refl
    run-Keeps Method.drain = method-Keeps site _ g _ _ refl
    run-Keeps Method.wait = method-Keeps site _ g _ _ refl
    run-Keeps (Method.wait_for_status a) = method_with-Keeps site _ g _ _ _ (λ _. refl)
    run-Keeps (Method.restart a) = method_with-Keeps site _ g _ _ _ (λ _. refl)
    run-Keeps (Method.destroy a) = method_with-Keeps site _ g _ _ _ (λ _. refl)
    run-Keeps Method.status = method-Keeps site _ g _ _ refl
    run-Keeps Method.detach = method-Keeps site _ g _ _ refl
    run-Keeps Method.metrics = method-Keeps site _ g _ _ refl
    run-Keeps Method.ping = method-Keeps site _ g _ _ refl
    run-Keeps Method.touch = method-Keeps site _ g _ _ refl
    run-Keeps (Method.modify a) = method_with-Keeps site _ g _ _ _ (λ _. refl)
    run-Keeps (Method.logs a) = method_with-Keeps site _ g _ _ _ (λ _. refl)
    run-Keeps (Method.metrics_stream a) = method_with-Keeps site _ g _ _ _ (λ _. refl)
    run-Keeps (Method.log_stream a) = method_with-Keeps site _ g _ _ _ (λ _. refl)
    run-Keeps (Method.fs_read a) = method-Keeps site _ g _ _ refl
    run-Keeps (Method.fs_read_text a) = method-Keeps site _ g _ _ refl
    run-Keeps (Method.fs_write a b) = method-Keeps site _ g _ _ refl
    run-Keeps (Method.fs_list a) = method-Keeps site _ g _ _ refl
    run-Keeps (Method.fs_mkdir a) = method-Keeps site _ g _ _ refl
    run-Keeps (Method.fs_remove a) = method-Keeps site _ g _ _ refl
    run-Keeps (Method.fs_remove_dir a) = method-Keeps site _ g _ _ refl
    run-Keeps (Method.fs_copy a b) = method-Keeps site _ g _ _ refl
    run-Keeps (Method.fs_rename a b) = method-Keeps site _ g _ _ refl
    run-Keeps (Method.fs_exists a) = method-Keeps site _ g _ _ refl
    run-Keeps (Method.fs_stat a) = method-Keeps site _ g _ _ refl
    run-Keeps (Method.fs_copy_from_host a b) = method-Keeps site _ g _ _ refl
    run-Keeps (Method.fs_copy_to_host a b) = method-Keeps site _ g _ _ refl
    run-Keeps (Method.fs_read_stream a) = method-Keeps site _ g _ _ refl
    run-Keeps (Method.fs_write_stream a) = method-Keeps site _ g _ _ refl
    run-Keeps (Method.ssh_open_client a) = method_with-Keeps site _ g _ _ _ (λ _. refl)
    run-Keeps (Method.ssh_prepare_server a) = method_with-Keeps site _ g _ _ _ (λ _. refl)
    run-Keeps (Method.attach a b c) = method_with-Keeps site _ g _ _ _ (λ _. refl)
    run-Keeps Method.attach_shell = method-Keeps site _ g _ _ refl
    run-Keeps (Method.attach_default a) = method_with-Keeps site _ g _ _ _ (λ _. refl)

    -- In a process that did not make the handle, each of the 43 methods that ask the core (all but
    -- `name`, `id` and `owns_lifecycle`) raises a `ForkedHandleError` that names the handle's class and
    -- both processes, and neither the backend nor the core is touched.
    pub run-Refuses :
        (m : Method o) (s : State site)
        → identity_eq g.owner site.cur ≡ false
        → run o t site g m s ≡ (returned (err (forked_handle g.class g.owner.pid site.cur.pid)), s)
    run-Refuses m s foreign = (run-Keeps m).refuses foreign s

    -- Whatever the options and the schedule of CRuby, each of these methods either raises with the core
    -- as it was, or it has asked the core exactly once, about this very sandbox, in a process that owns
    -- the backend.
    pub run-Reaches :
        (m : Method o) (s : State site) → Reaches site (About g.inner) s (run o t site g m s)
    run-Reaches m s = (run-Keeps m).reaches s
