-- ===== src/Options/Create.antt =====
-- `build_builder` of sandbox.rs with the backend it reads: the process makes the backend its own, the
-- core's builder reads it, and `HostPaths` captures whether it is local.
use microsandbox_rb.Common.{List, Result, ok, err}
use microsandbox_rb.Error.{RubyError}
use microsandbox_rb.Runtime.Identity.{ProcessIdentity}
use microsandbox_rb.Backend.Build.{Core}
use microsandbox_rb.Backend.State.{World}
use microsandbox_rb.Backend.Ops.{ensure_this_process_backend, default_backend}
use microsandbox_rb.Options.Outside.{Outside}
use microsandbox_rb.Options.HostPath.{HostPaths}
use microsandbox_rb.Options.Policy.{Policies}
use microsandbox_rb.Options.Calls.{Call}
use microsandbox_rb.Options.Builder.{builder_calls}

module _ (core : Core) (cur : ProcessIdentity) (env : core.Env) where
  unfoldable pub paths_ensured :
      Result RubyError (Unit {0}) × World core → Result RubyError HostPaths × World core
  unfolding default_backend
  paths_ensured (err e, w) = (err e, w)
  paths_ensured (ok _, w) =
      let (b, w') = default_backend core cur env w in
      (ok (record { local = core.is_local b.config }), w')

  -- `HostPaths::for_default_backend`
  unfoldable pub for_default_backend : World core → Result RubyError HostPaths × World core
  unfolding ensure_this_process_backend paths_ensured
  for_default_backend w = paths_ensured (ensure_this_process_backend core cur env w)

  module _ (o : Outside) (policies : Policies o) where
    unfoldable pub builder_read :
        o.Hash
        → Result RubyError HostPaths × World core
        → Result RubyError (List (Call o)) × World core
    unfolding builder_calls
    builder_read opts (err e, w) = (err e, w)
    builder_read opts (ok paths, w) = (builder_calls o policies paths opts, w)

    -- After the first `ensure_this_process_backend`; `Sandbox::builder` reads the default backend.
    unfoldable pub builder_ensured :
        o.Hash
        → Result RubyError (Unit {0}) × World core
        → Result RubyError (List (Call o)) × World core
    unfolding default_backend for_default_backend builder_read
    builder_ensured opts (err e, w) = (err e, w)
    builder_ensured opts (ok _, w) =
        builder_read opts (for_default_backend (default_backend core cur env w).1)

    unfoldable pub build_builder :
        o.Hash → World core → Result RubyError (List (Call o)) × World core
    unfolding ensure_this_process_backend builder_ensured
    build_builder opts w = builder_ensured opts (ensure_this_process_backend core cur env w)
