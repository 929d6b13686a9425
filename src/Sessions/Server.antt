-- ===== src/Sessions/Server.antt =====
-- `SshServer` of ssh.rs: serving a connection on a clone of the endpoint, and releasing it.
use microsandbox_rb.Common.{none, Result}
use microsandbox_rb.Error.{MicrosandboxError}
use microsandbox_rb.Runtime.Identity.{ProcessIdentity}
use microsandbox_rb.Runtime.Guard.{ForkGuarded}
use microsandbox_rb.Runtime.Nogvl.{Ruby, Run, value}
use microsandbox_rb.Backend.Build.{Core}
use microsandbox_rb.Backend.State.{World}
use microsandbox_rb.Sessions.{Session, Left, method, look_and_await}
use microsandbox_rb.Sessions.Ssh.{opened, shown}

module _ (core : Core) (cur : ProcessIdentity) (env : core.Env) (ruby : Ruby) where
  module _ {H V : Type 0} (guard : ForkGuarded (Unit {0})) where
    unfoldable pub serve_connection :
        (H → V → Run (Result MicrosandboxError (Unit {0})) × V)
        → World core
        → Session H V
        → Left core cur env ruby (Unit {0}) (Session H V)
    unfolding method look_and_await
    serve_connection serve =
        method core cur env ruby (look_and_await serve) (λ r. shown (λ u. u) (opened r)) guard

    -- `lock().await.take()`, with nothing awaited on what it takes.
    abbrev pub release : Session H V → Run (Unit {0}) × Session H V
    release s = (value tt, record s { held = none })

    unfoldable pub close_server :
        World core → Session H V → Left core cur env ruby (Unit {0}) (Session H V)
    unfolding method
    close_server = method core cur env ruby release (λ u. Result.ok u) guard
