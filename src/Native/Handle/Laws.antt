-- ===== src/Native/Handle/Laws.antt =====
-- Every method of a sandbox handle that asks the core, at once.
use microsandbox_rb.Common.{◌≡◌, refl, false, err}
use microsandbox_rb.Error.{forked_handle}
use microsandbox_rb.Runtime.Nogvl.{returned}
use microsandbox_rb.Runtime.Identity.{identity_eq}
use microsandbox_rb.Runtime.Guard.{ForkGuarded}
use microsandbox_rb.Backend.Build.{Core}
use microsandbox_rb.Options.Outside.{Outside}
use microsandbox_rb.Native.Call.{Site, State}
use microsandbox_rb.Native.Objects.{Objects}
use microsandbox_rb.Native.Handle.Requests.{HandleRequest, HandleReply}
use microsandbox_rb.Native.Handle.Methods.{HandleMethod, run}
use microsandbox_rb.Native.Shapes.{Reaches}
use microsandbox_rb.Native.Keeps.{Keeps, method-Keeps, method_with-Keeps}

module _ {core : Core} (o : Outside) (t : Objects) (site : Site core (HandleReply o t)) where
  -- A request about the handle `i`, which carries the identity of one sandbox.
  abbrev pub AboutHandle : t.SandboxHandle → HandleRequest o t → Type 0
  AboutHandle i (HandleRequest.stop j) = j ≡ i
  AboutHandle i (HandleRequest.kill j) = j ≡ i
  AboutHandle i (HandleRequest.request_stop j) = j ≡ i
  AboutHandle i (HandleRequest.request_kill j) = j ≡ i
  AboutHandle i (HandleRequest.request_drain j) = j ≡ i
  AboutHandle i (HandleRequest.wait_until_stopped j) = j ≡ i
  AboutHandle i (HandleRequest.ping j) = j ≡ i
  AboutHandle i (HandleRequest.touch j) = j ≡ i
  AboutHandle i (HandleRequest.stop_with_timeout j _) = j ≡ i
  AboutHandle i (HandleRequest.kill_with_timeout j _) = j ≡ i
  AboutHandle i (HandleRequest.connect_or_start j _) = j ≡ i
  AboutHandle i (HandleRequest.wait_for_status j _) = j ≡ i
  AboutHandle i (HandleRequest.restart_with j _) = j ≡ i
  AboutHandle i (HandleRequest.destroy_with j _) = j ≡ i
  AboutHandle i (HandleRequest.snapshot j _) = j ≡ i
  AboutHandle i (HandleRequest.modify j _) = j ≡ i

  module _ (g : ForkGuarded t.SandboxHandle) where
    -- What one method keeps to.
    handle-Keeps : (m : HandleMethod o) → Keeps site (AboutHandle g.inner) g (run o t site g m)
    unfolding run
    handle-Keeps HandleMethod.stop = method-Keeps site _ g _ _ refl
    handle-Keeps (HandleMethod.stop_with_timeout a) = method_with-Keeps site _ g _ _ _ (λ _. refl)
    handle-Keeps HandleMethod.kill = method-Keeps site _ g _ _ refl
    handle-Keeps (HandleMethod.kill_with_timeout a) = method_with-Keeps site _ g _ _ _ (λ _. refl)
    handle-Keeps HandleMethod.request_stop = method-Keeps site _ g _ _ refl
    handle-Keeps HandleMethod.request_kill = method-Keeps site _ g _ _ refl
    handle-Keeps HandleMethod.request_drain = method-Keeps site _ g _ _ refl
    handle-Keeps (HandleMethod.connect_or_start a) = method_with-Keeps site _ g _ _ _ (λ _. refl)
    handle-Keeps (HandleMethod.wait_for_status a) = method_with-Keeps site _ g _ _ _ (λ _. refl)
    handle-Keeps (HandleMethod.restart a) = method_with-Keeps site _ g _ _ _ (λ _. refl)
    handle-Keeps (HandleMethod.destroy a) = method_with-Keeps site _ g _ _ _ (λ _. refl)
    handle-Keeps HandleMethod.wait_until_stopped = method-Keeps site _ g _ _ refl
    handle-Keeps (HandleMethod.snapshot a) = method-Keeps site _ g _ _ refl
    handle-Keeps HandleMethod.ping = method-Keeps site _ g _ _ refl
    handle-Keeps HandleMethod.touch = method-Keeps site _ g _ _ refl
    handle-Keeps (HandleMethod.modify a) = method_with-Keeps site _ g _ _ _ (λ _. refl)

    -- In a process that did not make the handle, each of the 16 methods of `SandboxHandle` that ask the
    -- core (all but the six readers of what the handle carries) raises a `ForkedHandleError` that names
    -- the handle's class and both processes, and neither the backend nor the core is touched.
    pub handle-Refuses :
        (m : HandleMethod o) (s : State site)
        → identity_eq g.owner site.cur ≡ false
        → run o t site g m s ≡ (returned (err (forked_handle g.class g.owner.pid site.cur.pid)), s)
    handle-Refuses m s foreign = (handle-Keeps m).refuses foreign s

    -- Each of these methods either raises with the core as it was, or it has asked the core exactly
    -- once, through this very handle, in a process that owns the backend.
    pub handle-Reaches :
        (m : HandleMethod o) (s : State site)
        → Reaches site (AboutHandle g.inner) s (run o t site g m s)
    handle-Reaches m s = (handle-Keeps m).reaches s
