-- ===== src/Native/Call.antt =====
-- A native call: `?` on Ruby errors, panics, `ForkGuarded::get` and `block_on` (runtime.rs), over the
-- backend's state and the core's. What the core answers to a request is a parameter; `asked` lists
-- the requests that reached it, the last one first.
use microsandbox_rb.Common.{List, ◌∷◌, Result, ok, err}
use microsandbox_rb.Error.{RubyError, MicrosandboxError, to_ruby}
use microsandbox_rb.Runtime.Identity.{ProcessIdentity}
use microsandbox_rb.Runtime.Guard.{ForkGuarded, get_in}
use microsandbox_rb.Runtime.Nogvl.{Ruby, Run, Exit, returned, unwinding, nogvl}
use microsandbox_rb.Backend.Build.{Core}
use microsandbox_rb.Backend.State.{World}
use microsandbox_rb.Sessions.{block_on, Left}

-- The process that calls, CRuby's schedule, and the core.
pub record Site (core : Core) {Req : Type 0} (Reply : Req → Type 0) : Type 1 where
  pub cur : ProcessIdentity
  pub env : core.Env
  pub ruby : Ruby
  pub V : Type 0
  pub perform : (q : Req) → V → Run (Reply q) × V

-- `.map_err(error::to_ruby)?` and what is made of the value.
abbrev pub shaped {ℓ κ} :
    {A : Type ℓ} {B : Type κ} → (A → B) → Result MicrosandboxError A → Result RubyError B
shaped f (ok a) = ok (f a)
shaped f (err e) = err (to_ruby e)

module _ {core : Core} {Req : Type 0} {Reply : Req → Type 0} (site : Site core Reply) where
  pub record Outer : Type 0 where
    pub inner : site.V
    pub asked : List Req

  pub record State : Type 0 where
    pub world : World core
    pub outer : Outer

  abbrev pub Call : Type 0 → Type 0
  Call Q = State → Exit Q × State

  abbrev pub lift : {Q : Type 0} → Result RubyError Q → Call Q
  lift r s = (returned r, s)

  unfoldable pub next : {Q R : Type 0} → (Q → Call R) → Exit Q × State → Exit R × State
  next f (returned (ok a), s) = f a s
  next f (returned (err e), s) = (returned (err e), s)
  next f (unwinding, s) = (unwinding, s)

  unfoldable pub and_then : {Q R : Type 0} → Call Q → (Q → Call R) → Call R
  unfolding next
  and_then m f s = next f (m s)

  -- `self.inner.get()?`
  abbrev pub get : {H : Type 0} → ForkGuarded H → Call H
  get g = lift (get_in g site.cur)

  -- A step that only uses the backend's state.
  abbrev pub on_world : {Q : Type 0} → (World core → Result RubyError Q × World core) → Call Q
  on_world f s = (returned (f s.world).0, record s { world = (f s.world).1 })

  -- The core serves a request.
  abbrev pub serve : (q : Req) → Outer → Run (Reply q) × Outer
  serve q u = (
    (site.perform q u.inner).0,
    record { inner = (site.perform q u.inner).1; asked = q ∷ u.asked },
  )

  abbrev pub left_of : {Q : Type 0} → Left core site.cur site.env site.ruby Q Outer → Exit Q × State
  left_of l = (l.exit, record { world = l.world; outer = l.session })

  -- `block_on(…)?`
  unfoldable pub ask : (q : Req) → Call (Reply q)
  unfolding block_on
  ask q s =
      left_of (block_on core site.cur site.env site.ruby (serve q) (λ r. ok r) s.world s.outer)

  -- `block_on_runtime_install(…)?`, which leaves the backend alone.
  unfoldable pub ask_installer : (q : Req) → Call (Reply q)
  unfolding nogvl
  ask_installer q s =
      let l = nogvl site.ruby (serve q) s.outer in (l.exit, record s { outer = l.state })

  module _ {Q : Type 0} where
    -- A function of the module: a request, and what is made of the answer.
    unfoldable pub asked : (q : Req) → (Reply q → Result RubyError Q) → Call Q
    unfolding and_then ask
    asked q k = and_then (ask q) (λ r. lift (k r))

    -- The same, with options that are read first.
    unfoldable pub asked_with :
        {A : Type 0}
        → Result RubyError A
        → (q : A → Req) → ((a : A) → Reply (q a) → Result RubyError Q)
        → Call Q
    unfolding and_then asked
    asked_with parsed q k = and_then (lift parsed) (λ a. asked (q a) (k a))

    -- A method of a handle: the guard, a request, and what is made of the answer.
    unfoldable pub method :
        {H : Type 0}
        → ForkGuarded H
        → (q : H → Req) → ((h : H) → Reply (q h) → Result RubyError Q)
        → Call Q
    unfolding and_then get_in asked
    method g q k = and_then (get g) (λ h. asked (q h) (k h))

    -- The same, with options that are read after the guard.
    unfoldable pub method_with :
        {H A : Type 0}
        → ForkGuarded H
        → Result RubyError A
        → (q : H → A → Req) → ((h : H) (a : A) → Reply (q h a) → Result RubyError Q)
        → Call Q
    unfolding and_then get_in asked_with
    method_with g parsed q k = and_then (get g) (λ h. asked_with parsed (q h) (k h))
