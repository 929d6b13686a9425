-- ===== src/Native/Local.antt =====
-- `with_local_backend` of backend.rs: a local-only operation, which looks the backend up inside the
-- native call and refuses any other.
use microsandbox_rb.Common.{
  ◌∙◌, ◌≡◌, refl, ap, true, none, some, Result, ok, err, inl, inr, Bool-cases,
}
use microsandbox_rb.Error.{RubyError, MicrosandboxError, Operation}
use microsandbox_rb.Runtime.Identity.{to_bits}
use microsandbox_rb.Runtime.Nogvl.{Run, value, Exit, returned, unwinding, Outcome, nogvl, finish}
use microsandbox_rb.Runtime.Interrupts.{Settled, nogvl-Sound}
use microsandbox_rb.Backend.Build.{Core}
use microsandbox_rb.Backend.State.{World, Backend}
use microsandbox_rb.Backend.Ops.{ensure_this_process_backend, local_backend, default_backend}
use microsandbox_rb.Backend.History.{ensure-Mine}
use microsandbox_rb.Native.Call.{Site, Outer, State, Call, lift, next, serve, shaped}

module _ {core : Core} {Req : Type 0} {Value : Req → Type 0}
    (site : Site core (λ q. Result MicrosandboxError (Value q))) where
  abbrev Work : Req → Type 0
  Work q = Run (Result MicrosandboxError (Value q)) × State site

  unfoldable pub local_served :
      (q : Req) → Result MicrosandboxError (Backend core) × World core → Outer site → Work q
  local_served q (err e, w) u = (value (err e), record { world = w; outer = u })
  local_served q (ok _, w) u =
      ((serve site q u).0, record { world = w; outer = (serve site q u).1 })

  -- The future that is run.
  unfoldable pub local_work : Operation → (q : Req) → State site → Work q
  local_work op q s = local_served q (local_backend core site.cur site.env op s.world) s.outer

  unfoldable pub local_ensured :
      Operation
      → (q : Req) → State site
      → Result RubyError (Unit {0}) × World core
      → Exit (Result MicrosandboxError (Value q)) × State site
  local_ensured op q s (err e, w) = (returned (err e), record s { world = w })
  local_ensured op q s (ok _, w) =
      let l = nogvl site.ruby (local_work op q) (record s { world = w }) in (l.exit, l.state)

  unfoldable pub with_local_backend :
      {Q : Type 0} → Operation → (q : Req) → (Value q → Q) → Call site Q
  with_local_backend op q f s =
      next site (λ r. lift site (shaped f r))
        (local_ensured op q s (ensure_this_process_backend core site.cur site.env s.world))

  -- The default backend is a local one.
  abbrev pub IsLocal : World core → Type 0
  IsLocal w = elim w.slot [ none ↦ ⊥ | some b ↦ core.is_local b.config ≡ true ]

  pub data ReachesLocal (q : Req) {Q : Type 0} (s : State site) (x : Exit Q × State site)
      : Type 0 where
    raised : (e : RubyError) → x.0 ≡ returned (err e) → x.1.outer ≡ s.outer → ReachesLocal q s x
    reached :
        x.1.outer ≡ (serve site q s.outer).1
        → x.1.world.owner ≡ to_bits site.cur
        → IsLocal x.1.world
        → ReachesLocal q s x

  module _ {Q : Type 0} (op : Operation) (q : Req) (f : Value q → Q) where
    abbrev ending : Exit (Result MicrosandboxError (Value q)) × State site → Exit Q × State site
    ending = next site (λ r. lift site (shaped f r))

    served :
        (e : Exit (Result MicrosandboxError (Value q))) (s t : State site)
        → t.outer ≡ (serve site q s.outer).1
        → t.world.owner ≡ to_bits site.cur
        → IsLocal t.world
        → ReachesLocal q s (ending (e, t))
    unfolding next
    served (returned (ok (ok a))) s t u m l = reached u m l
    served (returned (ok (err d))) s t u m l = reached u m l
    served (returned (err d)) s t u m l = reached u m l
    served unwinding s t u m l = reached u m l

    worked :
        (s t : State site)
        → t.outer ≡ s.outer
        → t.world.owner ≡ to_bits site.cur
        → ReachesLocal q s (ending (finish (local_work op q t).0, (local_work op q t).1))
    unfolding local_work local_served local_backend default_backend next
    worked s t u m =
        elim (Bool-cases
          (core.is_local (default_backend core site.cur site.env t.world).0.config)) [
            | inl e ↦
                rw e (
                  served (finish (serve site q t.outer).0) s _ (ap (λ v. (serve site q v).1) u) m e)
            | inr e ↦ rw e (raised _ refl u)
          ]

    outcome :
        (s t : State site) (o : Outcome (State site) (Result MicrosandboxError (Value q)))
        → t.outer ≡ s.outer
        → t.world.owner ≡ to_bits site.cur
        → Settled (local_work op q) t o
        → ReachesLocal q s (ending (o.exit, o.state))
    unfolding next
    outcome s t o u m (Settled.done r x st) = rw (x, st) (worked s t u m)
    outcome s t o u m (Settled.refused e r x st) =
        rw x (raised e refl (ap (λ (y : State site). y.outer) st ∙ u))

    ensured :
        (s : State site) (r : Result RubyError (Unit {0}) × World core)
        → (r.0 ≡ ok tt → r.1.owner ≡ to_bits site.cur)
        → ReachesLocal q s (ending (local_ensured op q s r))
    unfolding local_ensured next
    ensured s (err e, w) m = raised e refl refl
    ensured s (ok _, w) m =
        outcome s (record s { world = w })
          (nogvl site.ruby (local_work op q) (record s { world = w })) refl (m refl)
          (nogvl-Sound site.ruby (local_work op q) (record s { world = w })).settled

    -- A local-only operation either raises with the core as it was, or it has asked the core once, in
    -- a process that owns its backend, while that backend is a local one.
    pub with_local_backend-ReachesLocal :
        (s : State site) → ReachesLocal q s (with_local_backend op q f s)
    unfolding with_local_backend
    with_local_backend-ReachesLocal s =
        ensured s (ensure_this_process_backend core site.cur site.env s.world)
          (ensure-Mine core site.cur site.env s.world)
