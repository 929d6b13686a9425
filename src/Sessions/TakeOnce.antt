-- ===== src/Sessions/TakeOnce.antt =====
-- What an interrupted, repeated or forked call leaves of a handle's object.
use microsandbox_rb.Common.{
  ◌≡◌, refl, ap, ◌∙◌, ◌⊎◌, inl, inr, String, ◌>>=◌, Option, none, some, [], ◌∷◌, Result, ok, err,
  Result-cases, Option-cases,
}
use microsandbox_rb.Error.{RubyError, MicrosandboxError, base_error, to_ruby}
use microsandbox_rb.Runtime.Identity.{ProcessIdentity}
use microsandbox_rb.Runtime.Guard.{ForkGuarded, get_in}
use microsandbox_rb.Runtime.Nogvl.{
  Ruby, Run, value, panicked, Exit, returned, unwinding, Outcome, nogvl, finish,
}
use microsandbox_rb.Runtime.Interrupts.{Settled, nogvl-Sound}
use microsandbox_rb.Backend.Build.{Core}
use microsandbox_rb.Backend.State.{World}
use microsandbox_rb.Backend.Ops.{ensure_this_process_backend}
use microsandbox_rb.Sessions.{
  Session, settle, awaited, closed_or, joined_or, take_and_await, Left, block_on_ensured, block_on,
  method, close_sink, pull_result,
}

module _ (core : Core) (cur : ProcessIdentity) (env : core.Env) (ruby : Ruby) where
  -- The call raised, and the handle is as it was.
  abbrev pub Refused : {Q S : Type 0} → S → Left core cur env ruby Q S → Type 0
  Refused s l = ((e : RubyError) × (l.exit ≡ returned (err e))) × (l.session ≡ s)

  module _ {S R Q : Type 0} (f : S → Run R × S) (k : R → Result RubyError Q) where
    -- The work ran, with its effect and its result, or the call was refused.
    abbrev Ends : S → Left core cur env ruby Q S → Type 0
    Ends s l = ((l.session ≡ (f s).1) × (l.exit ≡ settle k (finish (f s).0))) ⊎ Refused s l

    settled :
        (s : S) (w : World core) (o : Outcome S R)
        → Settled f s o
        → Ends s (record { exit = settle k o.exit; world = w; session = o.state })
    settled s w o (Settled.done r x st) = inl (st, ap (settle k) x)
    settled s w o (Settled.refused e r x st) = inr ((e, ap (settle k) x), st)

    ensured :
        (s : S) (r : Result RubyError (Unit {0}) × World core)
        → Ends s (block_on_ensured core cur env ruby f k s r)
    unfolding block_on_ensured
    ensured s (ok _, w) = settled s w (nogvl ruby f s) (nogvl-Sound ruby f s).settled
    ensured s (err e, w) = inr ((e, refl), refl)

    method-Ends :
        (guard : ForkGuarded (Unit {0})) (w : World core) (s : S)
        → Ends s (method core cur env ruby f k guard w s)
    unfolding method block_on
    method-Ends guard w s = elim (Result-cases (get_in guard cur)) [
      | inl (_, e) ↦ rw (e, method) (ensured s (ensure_this_process_backend core cur env w))
      | inr (x, e) ↦ rw (e, method) (inr ((x, refl), refl))
    ]

    pub method_cases :
        (guard : ForkGuarded (Unit {0})) (w : World core) (s : S)
        → let l = method core cur env ruby f k guard w s in (l.session ≡ (f s).1) ⊎ Refused s l
    method_cases guard w s = elim (method-Ends guard w s) [ inl d ↦ inl d.0 | inr r ↦ inr r ]

  -- How a call leaves when the task of a pull session has ended so.
  abbrev pub joined : {A : Type 0} → Run (Result String (Result MicrosandboxError A)) → Exit A
  joined (value (ok (ok sandbox))) = returned (ok sandbox)
  joined (value (ok (err e))) = returned (err (to_ruby e))
  joined (value (err e)) = returned (err (base_error "sandbox creation task failed: {e}" (e ∷ [])))
  joined panicked = unwinding

  -- The same of a sink whose end of file went so.
  abbrev pub ended : Run (Result MicrosandboxError (Unit {0})) → Exit (Unit {0})
  ended (value (ok _)) = returned (ok tt)
  ended (value (err e)) = returned (err (to_ruby e))
  ended panicked = unwinding

  module _ {H V R : Type 0} (await : H → V → Run R × V) where
    abbrev Taken : Type 0
    Taken = Run (Option R) × Session H V

    take_none : (s : Session H V) → s.held ≡ none → take_and_await await s ≡ (value none, s)
    unfolding take_and_await
    take_none s e = rw (e, take_and_await) (ap (λ v. (value none, record s { held = v })) e)

    take_some :
        (s : Session H V) (h : H)
        → s.held ≡ some h
        → take_and_await await s
          ≡ (awaited (await h s.outer).0, record { held = none; outer = (await h s.outer).1 })
    unfolding take_and_await
    take_some s h e = rw (e, take_and_await) refl

  module _ {H V R Q : Type 0} (await : H → V → Run R × V) where
    -- A call that went through: on an empty handle it gives `gone` and changes nothing. Else the object
    -- is out of the handle, the core's world is as the await left it, and the call leaves with what
    -- the await came to.
    abbrev pub Consumed :
        Result RubyError Q
        → (Run R → Exit Q)
        → Session H V
        → Left core cur env ruby Q (Session H V)
        → Type 0
    Consumed gone came s l = elim s.held [
      | none ↦ (l.session ≡ s) × (l.exit ≡ returned gone)
      | some h ↦
          (l.session.held ≡ none)
          × (l.session.outer ≡ (await h s.outer).1)
          × (l.exit ≡ came (await h s.outer).0)
    ]

    take-Consumed :
        (k : Option R → Result RubyError Q) (came : Run R → Exit Q)
        → ((r : Run R) → settle k (finish (awaited r)) ≡ came r)
        → (s : Session H V) (l : Left core cur env ruby Q (Session H V))
        → l.session ≡ (take_and_await await s).1
        → l.exit ≡ settle k (finish (take_and_await await s).0)
        → Consumed (k none) came s l
    take-Consumed k came same s l st x = elim (Option-cases s.held) [
      | inl e ↦
          let q = take_none await s e in
          rw (e, Consumed)
            (
              st ∙ ap (λ (y : Taken await). y.1) q,
              x ∙ ap (λ (y : Taken await). settle k (finish y.0)) q,
            )
      | inr (h, e) ↦
          let q = take_some await s h e in
          let after = st ∙ ap (λ (y : Taken await). y.1) q in
          rw (e, Consumed)
            (
              ap (λ (y : Session H V). y.held) after,
              ap (λ (y : Session H V). y.outer) after,
              x ∙ ap (λ (y : Taken await). settle k (finish y.0)) q ∙ same (await h s.outer).0,
            )
    ]

    method-Consumed :
        (k : Option R → Result RubyError Q) (came : Run R → Exit Q)
        → ((r : Run R) → settle k (finish (awaited r)) ≡ came r)
        → (guard : ForkGuarded (Unit {0})) (w : World core) (s : Session H V)
        → let l = method core cur env ruby (take_and_await await) k guard w s in
          Consumed (k none) came s l ⊎ Refused s l
    method-Consumed k came same guard w s = elim (method-Ends (take_and_await await) k guard w s) [
      | inl d ↦ inl (
          take-Consumed k came same s (method core cur env ruby (take_and_await await) k guard w s)
            d.0 d.1)
      | inr r ↦ inr r
    ]

  joined_same :
      {A : Type 0} (r : Run (Result String (Result MicrosandboxError A)))
      → settle joined_or (finish (awaited r)) ≡ joined r
  unfolding ◌>>=◌
  joined_same (value (ok (ok a))) = refl
  joined_same (value (ok (err e))) = refl
  joined_same (value (err e)) = refl
  joined_same panicked = refl

  ended_same :
      (r : Run (Result MicrosandboxError (Unit {0})))
      → settle closed_or (finish (awaited r)) ≡ ended r
  ended_same (value (ok _)) = refl
  ended_same (value (err e)) = refl
  ended_same panicked = refl

  module _ {H V : Type 0} (guard : ForkGuarded (Unit {0})) where
    -- The pull session's result is never lost on the way: whatever the process, the backend check
    -- and the interrupts do, the call either raises with the join handle still there for the next
    -- call; or it has taken the handle and awaited its task, whose effect is kept, and it returns the
    -- sandbox, raises the task's error or goes on with its panic; or the handle was taken before, and
    -- it raises and changes nothing.
    pub pull_result-keeps :
        {A : Type 0} (await : H → V → Run (Result String (Result MicrosandboxError A)) × V)
        (w : World core) (s : Session H V)
        → let l = pull_result core cur env ruby guard await w s in
          Consumed await (err (base_error "pull session result already taken" [])) joined s l
          ⊎ Refused s l
    unfolding pull_result
    pull_result-keeps await w s = method-Consumed await joined_or joined joined_same guard w s

    -- A write sink is closed once: a close either raises with the sink still there to be closed
    -- again; or it has taken the sink and awaited its end of file, whose effect is kept, and it gives
    -- the core's success, error or panic; or the sink was taken before, and it succeeds and changes
    -- nothing. And a sink that was taken stays as it is, with the core's world, through any later
    -- close.
    pub close_sink-once :
        (await : H → V → Run (Result MicrosandboxError (Unit {0})) × V) (w : World core)
        (s : Session H V)
        → let l = close_sink core cur env ruby guard await w s in
          let closed : Session H V = record s { held = none } in
          (Consumed await (ok tt) ended s l ⊎ Refused s l)
          × ((close_sink core cur env ruby guard await w closed).session ≡ closed)
    unfolding close_sink
    close_sink-once await w s = (
      method-Consumed await closed_or ended ended_same guard w s,
      (elim (method-Consumed await closed_or ended ended_same guard w (record s { held = none })) [
        | inl d ↦ d.0
        | inr r ↦ r.1
      ]),
    )
