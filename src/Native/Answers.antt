-- ===== src/Native/Answers.antt =====
-- A native call that goes through: what it takes for a method to reach the core, and what it gives.
use microsandbox_rb.Common.{ℕ, ◌≡◌, ◌<◌, refl, true, Result, ok, ◌==◌, arith}
use microsandbox_rb.Error.{RubyError}
use microsandbox_rb.Runtime.Identity.{identity_eq, to_bits}
use microsandbox_rb.Runtime.Guard.{ForkGuarded, get_in}
use microsandbox_rb.Runtime.Nogvl.{
  Run, value, panicked, Outcome, Exit, returned, unwinding, nogvl, finish,
}
use microsandbox_rb.Runtime.Interrupts.{nogvl_starts}
use microsandbox_rb.Backend.Build.{Core}
use microsandbox_rb.Backend.State.{World}
use microsandbox_rb.Backend.Ops.{ensure_this_process_backend, adopt_backend, ensured}
use microsandbox_rb.Sessions.{block_on, block_on_ensured, settle}
use microsandbox_rb.Native.Call.{
  Site, Outer, State, lift, next, and_then, serve, ask, asked, asked_with, method_with,
}

module _ {core : Core} {Req : Type 0} {Reply : Req → Type 0} (site : Site core Reply) where
  -- The core's answer to the request, in a state where nothing else has changed.
  abbrev pub answer : (q : Req) → State site → Exit (Reply q) × State site
  answer q s = (finish (serve site q s.outer).0, record s { outer = (serve site q s.outer).1 })

  -- What a method leaves with, by what the core's work came to.
  abbrev pub given : {A Q : Type 0} → (A → Result RubyError Q) → Run A → Exit Q
  given f (value a) = returned (f a)
  given f panicked = unwinding

  given_next :
      {A Q : Type 0} (f : A → Result RubyError Q) (r : Run A) (s : State site)
      → next site (λ a. lift site (f a)) (finish r, s) ≡ (given f r, s)
  unfolding next
  given_next f (value a) s = refl
  given_next f panicked s = refl

  pub ensure_own :
      (w : World core)
      → w.owner ≡ to_bits site.cur
      → ensure_this_process_backend core site.cur site.env w ≡ (ok tt, w)
  unfolding ensure_this_process_backend adopt_backend ensured
  ensure_own w e =
      let same : (w.owner == to_bits site.cur) ≡ true = ground (arith, e) in rw same refl

  settle-finish : {A : Type 0} (r : Run A) → settle (λ a. ok a) (finish r) ≡ finish r
  settle-finish (value a) = refl
  settle-finish panicked = refl

  outcome_answers :
      (q : Req) (s : State site) (o : Outcome (Outer site) (Reply q))
      → o.exit ≡ finish (serve site q s.outer).0
      → o.state ≡ (serve site q s.outer).1
      → (settle (λ r. ok r) o.exit, record s { outer = o.state }) ≡ answer q s
  outcome_answers q s o x st = rw (x, st, settle-finish (serve site q s.outer).0) refl

  module _ (k : ℕ) (s : State site) (own : s.world.owner ≡ to_bits site.cur) (few : k < 64)
      (quiet : (i : ℕ) → site.ruby.check i ≡ ok tt) (go : site.ruby.starts k ≡ true) where
    ask_answers : (q : Req) → ask site q s ≡ answer q s
    unfolding ask block_on block_on_ensured
    ask_answers q = rw (ensure_own s.world own) (
        let o = nogvl_starts site.ruby (serve site q) k s.outer few quiet go in
        outcome_answers q s (nogvl site.ruby (serve site q) s.outer) o.0 o.1)

    -- In the process that made the handle and owns the backend, once the options pass and CRuby lets
    -- one of its 64 attempts start without an interrupt, a method asks the core for its request and
    -- gives what it makes of the answer; nothing else has changed.
    pub method_with_answers :
        {H A Q : Type 0} (g : ForkGuarded H) (p : Result RubyError A) (a : A) (q : H → A → Req)
        (f : (h : H) (b : A) → Reply (q h b) → Result RubyError Q)
        → identity_eq g.owner site.cur ≡ true
        → p ≡ ok a
        → method_with site g p q f s ≡ (
          given (f g.inner a) (serve site (q g.inner a) s.outer).0,
          record s { outer = (serve site (q g.inner a) s.outer).1 },
        )
    unfolding method_with asked_with asked and_then next get_in
    method_with_answers g p a q f mine passed =
        rw (mine, passed, ask_answers (q g.inner a))
          (given_next (f g.inner a) (serve site (q g.inner a) s.outer).0
            (record s { outer = (serve site (q g.inner a) s.outer).1 }))
