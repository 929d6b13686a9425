-- ===== src/Sessions/Closing.antt =====
-- A session that is used any number of times and closed once: the clients of ssh.rs. What reaches the
-- core is logged, the last first.
use microsandbox_rb.Common.{
  ◌≡◌, sym, subst, inl, inr, ◌⊎◌, Option, none, some, List, [], ◌∷◌, Result, Option-cases, All,
}
use microsandbox_rb.Error.{RubyError}
use microsandbox_rb.Runtime.Identity.{ProcessIdentity}
use microsandbox_rb.Runtime.Guard.{ForkGuarded}
use microsandbox_rb.Runtime.Nogvl.{Ruby, Run}
use microsandbox_rb.Backend.Build.{Core}
use microsandbox_rb.Backend.State.{World}
use microsandbox_rb.Sessions.{Session, Left, method, look_and_await, take_and_await}
use microsandbox_rb.Sessions.TakeOnce.{Refused, method_cases}

-- What the core does with the object of an open session.
pub record Client (H : Type 0) {Req : Type 0} (Reply : Req → Type 0) (C : Type 0) : Type 1 where
  pub V : Type 0
  pub perform : (q : Req) → H → V → Run (Reply q) × V
  pub closing : H → V → Run C × V

pub data Deed (Req : Type 0) : Type 0 where
  used : Req → Deed Req
  shut : Deed Req

module _ {H Req C : Type 0} {Reply : Req → Type 0} (client : Client H Reply C) where
  pub record Outer : Type 0 where
    pub inner : client.V
    pub deeds : List (Deed Req)

  abbrev pub Handle : Type 0
  Handle = Session H Outer

  abbrev pub on_use : (q : Req) → H → Outer → Run (Reply q) × Outer
  on_use q h u =
      let r = client.perform q h u.inner in (r.0, record { inner = r.1; deeds = used q ∷ u.deeds })

  abbrev pub on_close : H → Outer → Run C × Outer
  on_close h u =
      let r = client.closing h u.inner in (r.0, record { inner = r.1; deeds = shut ∷ u.deeds })

  -- Nothing in the log is a close.
  abbrev pub IsUse : Deed Req → Type 0
  IsUse (used q) = Unit
  IsUse shut = ⊥

  abbrev pub IsClosed : List (Deed Req) → Type 0
  IsClosed [] = ⊥
  IsClosed (shut ∷ ds) = All IsUse ds
  IsClosed (used q ∷ ds) = ⊥

  -- An open session has not been closed; a closed one was closed once, as the last thing.
  abbrev pub IsOnce : Handle → Type 0
  IsOnce s = elim s.held [ none ↦ IsClosed s.outer.deeds | some _ ↦ All IsUse s.outer.deeds ]

  look-IsOnce : (q : Req) (s : Handle) → IsOnce s → IsOnce (look_and_await (on_use q) s).1
  unfolding look_and_await
  look-IsOnce q s h = elim (Option-cases s.held) [
    | inl e ↦ rw (e, look_and_await) h
    | inr (x, e) ↦ rw (e, look_and_await) (rw e (tt, rw e at h))
  ]

  take-IsOnce : (s : Handle) → IsOnce s → IsOnce (take_and_await on_close s).1
  unfolding take_and_await
  take-IsOnce s h = elim (Option-cases s.held) [
    | inl e ↦ rw (e, take_and_await) h
    | inr (x, e) ↦ rw (e, take_and_await) (rw e at h)
  ]

  module _ (core : Core) (guard : ForkGuarded (Unit {0})) {Q : Req → Type 0}
      (after_use : ProcessIdentity → (q : Req) → Option (Reply q) → Result RubyError (Q q))
      {D : Type 0} (after_close : Option C → Result RubyError D) where
    -- One call: the process that makes it, with its surroundings and schedule.
    pub record Visit : Type 0 where
      pub cur : ProcessIdentity
      pub env : core.Env
      pub ruby : Ruby

    pub record System : Type 0 where
      pub world : World core
      pub session : Handle

    unfoldable pub use_it :
        (q : Req) (v : Visit) → World core → Handle → Left core v.cur v.env v.ruby (Q q) Handle
    use_it q v =
        method core v.cur v.env v.ruby (look_and_await (on_use q)) (after_use v.cur q) guard

    unfoldable pub close_it :
        (v : Visit) → World core → Handle → Left core v.cur v.env v.ruby D Handle
    close_it v = method core v.cur v.env v.ruby (take_and_await on_close) after_close guard

    abbrev pub visited : Deed Req → Visit → System → System
    visited (used q) v t =
        let l = use_it q v t.world t.session in record { world = l.world; session = l.session }
    visited shut v t =
        let l = close_it v t.world t.session in record { world = l.world; session = l.session }

    pub history : List (Visit × Deed Req) → System → System
    history [] t = t
    history ((v, d) ∷ vs) t = history vs (visited d v t)

    kept :
        (v : Visit) {A : Type 0} (s s' : Handle) (l : Left core v.cur v.env v.ruby A Handle)
        → IsOnce s
        → IsOnce s'
        → (l.session ≡ s') ⊎ Refused core v.cur v.env v.ruby s l
        → IsOnce l.session
    kept v s s' l h h' (inl e) = subst IsOnce (sym e) h'
    kept v s s' l h h' (inr r) = subst IsOnce (sym r.1) h

    visited-IsOnce :
        (d : Deed Req) (v : Visit) (t : System) → IsOnce t.session → IsOnce (visited d v t).session
    unfolding use_it close_it
    visited-IsOnce (used q) v t h =
        kept v t.session (look_and_await (on_use q) t.session).1 (use_it q v t.world t.session) h
          (look-IsOnce q t.session h)
          (method_cases core v.cur v.env v.ruby (look_and_await (on_use q)) (after_use v.cur q)
            guard t.world t.session)
    visited-IsOnce shut v t h =
        kept v t.session (take_and_await on_close t.session).1 (close_it v t.world t.session) h
          (take-IsOnce t.session h)
          (method_cases core v.cur v.env v.ruby (take_and_await on_close) after_close guard t.world
            t.session)

    -- From a session in such a state, as a new one is, through any history of calls of an SSH or SFTP
    -- client, by whatever processes, with whatever interrupts and failures: the core is asked to
    -- close the session once at most, and is asked nothing of it afterwards; the handle is empty
    -- exactly when the session has been closed.
    pub history-IsOnce :
        (vs : List (Visit × Deed Req)) (t : System)
        → IsOnce t.session
        → IsOnce (history vs t).session
    unfolding history
    history-IsOnce [] t h = h
    history-IsOnce ((v, d) ∷ vs) t h = history-IsOnce vs (visited d v t) (visited-IsOnce d v t h)
