-- ===== src/Sessions.antt =====
-- Handles whose core object can be taken once: the write sink of fs_stream.rs and the pull session of
-- sandbox.rs, with `block_on`, and in the child modules the sessions of ssh.rs and the standard input
-- of exec.rs. The object sits in a mutex that is shared through an `Arc`; `close` and `result` lock it,
-- take it and await the core in one `block_on`. What the core does is a parameter.
pub mod TakeOnce
pub mod Closing
pub mod Ssh
pub mod Stdin
pub mod Server
use microsandbox_rb.Common.{
  String, ◌∷◌, Bool, Option, none, some, Result, ok, err, ok_or, ◌>>=◌, map_err, List, [],
}
use microsandbox_rb.Error.{RubyError, MicrosandboxError, base_error, to_ruby}
use microsandbox_rb.Runtime.Identity.{ProcessIdentity}
use microsandbox_rb.Runtime.Guard.{ForkGuarded, get_in}
use microsandbox_rb.Runtime.Nogvl.{
  Ruby, Run, value, panicked, Exit, returned, unwinding, Outcome, nogvl,
}
use microsandbox_rb.Backend.Build.{Core}
use microsandbox_rb.Backend.State.{World}
use microsandbox_rb.Backend.Ops.{ensure_this_process_backend}

-- A handle's object, until it is taken, and the core's world.
pub record Session (H V : Type 0) : Type 0 where
  pub held : Option H
  pub outer : V

-- What a method makes of the result of `block_on`.
abbrev pub settle : {R Q : Type 0} → (R → Result RubyError Q) → Exit R → Exit Q
settle k (returned (ok r)) = returned (k r)
settle k (returned (err e)) = returned (err e)
settle k unwinding = unwinding

-- `Some(… .await)`; a panic goes on.
abbrev pub awaited : {R : Type 0} → Run R → Run (Option R)
awaited (value r) = value (some r)
awaited panicked = panicked

module _ {H V R : Type 0} (await : H → V → Run R × V) where
  -- Lock, take, and await what was there.
  unfoldable pub take_and_await : Session H V → Run (Option R) × Session H V
  take_and_await s = elim s.held [
    | none ↦ (value none, s)
    | some h ↦ (awaited (await h s.outer).0, record { held = none; outer = (await h s.outer).1 })
  ]

  -- Lock, and await on what is there without taking it.
  unfoldable pub look_and_await : Session H V → Run (Option R) × Session H V
  look_and_await s = elim s.held [
    | none ↦ (value none, s)
    | some h ↦ (awaited (await h s.outer).0, record s { outer = (await h s.outer).1 })
  ]

abbrev pub closed_or : Option (Result MicrosandboxError (Unit {0})) → Result RubyError (Unit {0})
closed_or none = ok tt
closed_or (some r) = map_err to_ruby r

abbrev pub written_or : Option (Result MicrosandboxError (Unit {0})) → Result RubyError (Unit {0})
written_or none = err (base_error "write to a closed FsWriteSink" [])
written_or (some r) = map_err to_ruby r

-- The join handle gives a `JoinError`'s text, or the create call's result.
abbrev pub joined_or :
    {A : Type 0} → Option (Result String (Result MicrosandboxError A)) → Result RubyError A
joined_or none = err (base_error "pull session result already taken" [])
joined_or (some (err e)) = err (base_error "sandbox creation task failed: {e}" (e ∷ []))
joined_or (some (ok r)) = map_err to_ruby r

module _ (core : Core) (cur : ProcessIdentity) (env : core.Env) (ruby : Ruby) where
  -- The handle's own state after a call, next to the backend's.
  pub record Left (Q S : Type 0) : Type 0 where
    pub exit : Exit Q
    pub world : World core
    pub session : S

  module _ {S R Q : Type 0} (f : S → Run R × S) (k : R → Result RubyError Q) where
    unfoldable pub block_on_ensured : S → Result RubyError (Unit {0}) × World core → Left Q S
    unfolding nogvl
    block_on_ensured s (err e, w) = record { exit = returned (err e); world = w; session = s }
    block_on_ensured s (ok _, w) =
        let o = nogvl ruby f s in record { exit = settle k o.exit; world = w; session = o.state }

    -- `block_on(…)?` and the rest of the method.
    unfoldable pub block_on : World core → S → Left Q S
    unfolding block_on_ensured ensure_this_process_backend
    block_on w s = block_on_ensured s (ensure_this_process_backend core cur env w)

    -- A method of a handle: `self.inner.get()?` first.
    unfoldable pub method : ForkGuarded (Unit {0}) → World core → S → Left Q S
    unfolding block_on get_in
    method guard w s = elim (get_in guard cur) [
      | err e ↦ record { exit = returned (err e); world = w; session = s }
      | ok _ ↦ block_on w s
    ]

  module _ {H V : Type 0} (guard : ForkGuarded (Unit {0})) where
    -- `FsWriteSink#close`
    unfoldable pub close_sink :
        (H → V → Run (Result MicrosandboxError (Unit {0})) × V)
        → World core
        → Session H V
        → Left (Unit {0}) (Session H V)
    unfolding method take_and_await
    close_sink await = method (take_and_await await) closed_or guard

    -- `FsWriteSink#write`, of bytes that `await` sends.
    unfoldable pub write_sink :
        (H → V → Run (Result MicrosandboxError (Unit {0})) × V)
        → World core
        → Session H V
        → Left (Unit {0}) (Session H V)
    unfolding method look_and_await
    write_sink await = method (look_and_await await) written_or guard

    -- `PullSession#result`
    unfoldable pub pull_result :
        {A : Type 0}
        → (H → V → Run (Result String (Result MicrosandboxError A)) × V)
        → World core
        → Session H V
        → Left A (Session H V)
    unfolding method take_and_await
    pull_result await = method (take_and_await await) joined_or guard
