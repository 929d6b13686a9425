-- ===== src/Native/Agent/Deadlines.antt =====
-- The deadline of an agent connection (agent.rs).
use microsandbox_rb.Common.{
  ℕ, ◌≡◌, refl, inl, inr, String, Bool, true, false, ◌&&◌, Option, none, some, Result, ok, err,
  ◌>>=◌, Bool-cases, Result-cases,
}
use microsandbox_rb.Common.Successes.{Ok}
use microsandbox_rb.Error.{RubyError}
use microsandbox_rb.Backend.Build.{Core}
use microsandbox_rb.Options.Outside.{Outside}
use microsandbox_rb.Native.Call.{Site, State}
use microsandbox_rb.Native.Objects.{Objects}
use microsandbox_rb.Native.Agent.{
  dur, AgentRequest, AgentReply, connect_sandbox_to, connect_path_to,
}
use microsandbox_rb.Native.Shapes.{Reaches, asked_with-Reaches}

module _ (o : Outside) where
  -- No deadline for no timeout; for a timeout, its own: finite, not negative, and in range.
  abbrev pub IsDeadline : Option o.F64 → Option ℕ → Type 0
  IsDeadline none none = Unit
  IsDeadline none (some d) = ⊥
  IsDeadline (some t) none = ⊥
  IsDeadline (some t) (some d) =
      (o.is_finite t ≡ true) × (o.is_nonneg t ≡ true) × (o.duration t ≡ ok d)

  both_true : (a b : Bool) → (a && b) ≡ true → (a ≡ true) × (b ≡ true)
  both_true true b h = (refl, h)
  both_true false b h = absurd (cc)

  pub dur-IsDeadline : (t : Option o.F64) → Ok (IsDeadline t) (dur o t)
  unfolding dur ◌>>=◌
  dur-IsDeadline none = tt
  dur-IsDeadline (some t) = elim (Bool-cases (o.is_finite t && o.is_nonneg t)) [
    | inl e ↦ elim (Result-cases (o.duration t)) [
      | inl (d, f) ↦
          let b : (o.is_finite t ≡ true) × (o.is_nonneg t ≡ true) = both_true _ _ e in
          rw (e, f) (b.0, b.1, f)
      | inr (x, f) ↦ rw (e, f) tt
    ]
    | inr e ↦ rw e tt
  ]

module _ {core : Core} (o : Outside) (t : Objects) (site : Site core (AgentReply o t)) where
  -- A connection to the named sandbox, with a deadline that is right for the timeout.
  abbrev pub ConnectsTo : String → Option o.F64 → AgentRequest o t → Type 0
  ConnectsTo name timeout (AgentRequest.connect_sandbox n d) = (n ≡ name) × IsDeadline o timeout d
  ConnectsTo name timeout _ = ⊥

  -- The same to the socket at the path.
  abbrev pub ConnectsAt : String → Option o.F64 → AgentRequest o t → Type 0
  ConnectsAt path timeout (AgentRequest.connect_path p d) = (p ≡ path) × IsDeadline o timeout d
  ConnectsAt path timeout _ = ⊥

  deadline :
      (target : String) (timeout : Option o.F64) (r : Result RubyError (Option ℕ))
      → Ok (IsDeadline o timeout) r
      → Ok (λ d. (target ≡ target) × IsDeadline o timeout d) r
  deadline target timeout (ok d) h = (refl, h)
  deadline target timeout (err e) h = tt

  -- A connection to a sandbox's agent by the sandbox's name, and one by the path of the socket, either
  -- raises with the core as it was, or asks the core once for that very target: with the core's own
  -- deadline exactly when the timeout is nil, and else with the timeout itself, 0 included. A
  -- negative, infinite or undefined timeout, or one out of range, never gets there.
  pub connect-Reaches :
      (target : String) (timeout : Option o.F64) (s : State site)
      → Reaches site (ConnectsTo target timeout) s (connect_sandbox_to o t site target timeout s)
        × Reaches site (ConnectsAt target timeout) s (connect_path_to o t site target timeout s)
  unfolding connect_sandbox_to connect_path_to
  connect-Reaches target timeout s = (
    asked_with-Reaches site (ConnectsTo target timeout) s (dur o timeout) _ _
        (deadline target timeout (dur o timeout) (dur-IsDeadline o timeout)),
    asked_with-Reaches site (ConnectsAt target timeout) s (dur o timeout) _ _
        (deadline target timeout (dur o timeout) (dur-IsDeadline o timeout)),
  )
