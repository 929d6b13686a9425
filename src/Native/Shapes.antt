-- ===== src/Native/Shapes.antt =====
-- What every native method keeps to: the guard comes first, the core is asked once at most, and only
-- in a process that owns its backend.
use microsandbox_rb.Common.{
  ◌≡◌, refl, sym, ap, inl, inr, arith, false, Result, ok, err, Result-cases, subst,
}
use microsandbox_rb.Common.Successes.{Ok}
use microsandbox_rb.Error.{RubyError, forked_handle}
use microsandbox_rb.Runtime.Identity.{identity_eq, to_bits}
use microsandbox_rb.Runtime.Guard.{ForkGuarded, get_in}
use microsandbox_rb.Runtime.Nogvl.{Exit, returned, unwinding, Outcome, nogvl}
use microsandbox_rb.Runtime.Interrupts.{Settled, nogvl-Sound}
use microsandbox_rb.Backend.Build.{Core}
use microsandbox_rb.Backend.State.{World}
use microsandbox_rb.Backend.Ops.{ensure_this_process_backend}
use microsandbox_rb.Backend.History.{ensure-Mine}
use microsandbox_rb.Sessions.{block_on_ensured, block_on, settle}
use microsandbox_rb.Native.Call.{
  Site, Outer, State, Call, lift, next, and_then, serve, left_of, ask, asked, asked_with, method,
  method_with,
}

module _ {core : Core} {Req : Type 0} {Reply : Req → Type 0} (site : Site core Reply) where
  -- A call on a handle of another process raises, and leaves everything as it was.
  abbrev pub Refuses : {H Q : Type 0} → ForkGuarded H → Call site Q → Type 0
  Refuses g m =
      (s : State site) → m s ≡ (returned (err (forked_handle g.class g.owner.pid site.cur.pid)), s)

  module _ {H Q : Type 0} (g : ForkGuarded H) (foreign : identity_eq g.owner site.cur ≡ false) where
    pub method-Refuses :
        (q : H → Req) (k : (h : H) → Reply (q h) → Result RubyError Q)
        → Refuses g (method site g q k)
    unfolding method and_then next get_in
    method-Refuses q k s = rw foreign refl

    pub method_with-Refuses :
        {A : Type 0} (p : Result RubyError A) (q : H → A → Req)
        (k : (h : H) (a : A) → Reply (q h a) → Result RubyError Q)
        → Refuses g (method_with site g p q k)
    unfolding method_with and_then next get_in
    method_with-Refuses p q k s = rw foreign refl

  -- A call raises with the core as it was, or it has asked the core once, for something that `P`
  -- allows, with the backend this process's.
  pub data Reaches (P : Req → Type 0) {Q : Type 0} (s : State site) (x : Exit Q × State site)
      : Type 0 where
    raised : (e : RubyError) → x.0 ≡ returned (err e) → x.1.outer ≡ s.outer → Reaches P s x
    reached :
        (q : Req)
        → P q
        → x.1.outer ≡ (serve site q s.outer).1
        → x.1.world.owner ≡ to_bits site.cur
        → Reaches P s x

  module _ (P : Req → Type 0) where
    outcome-Reaches :
        (q : Req) (w : World core) (s : State site) (o : Outcome (Outer site) (Reply q))
        → P q
        → w.owner ≡ to_bits site.cur
        → Settled (serve site q) s.outer o
        → Reaches P s (settle (λ r. ok r) o.exit, record { world = w; outer = o.state })
    outcome-Reaches q w s o h m (Settled.done r x st) = reached q h st m
    outcome-Reaches q w s o h m (Settled.refused e r x st) = raised e (ap (settle (λ r. ok r)) x) st

    ensured-Reaches :
        (q : Req) (s : State site) (r : Result RubyError (Unit {0}) × World core)
        → P q
        → (r.0 ≡ ok tt → r.1.owner ≡ to_bits site.cur)
        → Reaches P s (
            left_of site (
              block_on_ensured core site.cur site.env site.ruby
                (serve site q)
                (λ a. ok a)
                s.outer
                r))
    unfolding block_on_ensured
    ensured-Reaches q s (err e, w) h m = raised e refl refl
    ensured-Reaches q s (ok _, w) h m =
        outcome-Reaches q w s (nogvl site.ruby (serve site q) s.outer) h (m refl)
          (nogvl-Sound site.ruby (serve site q) s.outer).settled

    ask-Reaches : (q : Req) (s : State site) → P q → Reaches P s (ask site q s)
    unfolding ask block_on
    ask-Reaches q s h =
        ensured-Reaches q s (ensure_this_process_backend core site.cur site.env s.world) h
          (ensure-Mine core site.cur site.env s.world)

    -- What is made of the answer does not reach the core.
    shape-Reaches :
        {A Q : Type 0} (k : A → Result RubyError Q) (s : State site) (x : Exit A × State site)
        → Reaches P s x
        → Reaches P s (next site (λ a. lift site (k a)) x)
    unfolding next
    shape-Reaches k s (returned (ok a), t) (raised e x st) = absurd (cc)
    shape-Reaches k s (returned (err d), t) (raised e x st) = raised d refl st
    shape-Reaches k s (unwinding, t) (raised e x st) = absurd (cc)
    shape-Reaches k s (returned (ok a), t) (reached q h st m) = reached q h st m
    shape-Reaches k s (returned (err d), t) (reached q h st m) = reached q h st m
    shape-Reaches k s (unwinding, t) (reached q h st m) = reached q h st m

    get_in_inner : {H : Type 0} (g : ForkGuarded H) (h : H) → get_in g site.cur ≡ ok h → h ≡ g.inner
    unfolding get_in
    get_in_inner g h e = ground arith

    pub Ok-every : {A : Type 0} {R : A → Type 0} (p : Result RubyError A) → ((a : A) → R a) → Ok R p
    Ok-every (ok a) f = f a
    Ok-every (err e) f = tt

    module _ {Q : Type 0} (s : State site) where
      pub asked-Reaches :
          (q : Req) (k : Reply q → Result RubyError Q) → P q → Reaches P s (asked site q k s)
      unfolding asked and_then
      asked-Reaches q k h = shape-Reaches k s (ask site q s) (ask-Reaches q s h)

      pub asked_with-Reaches :
          {A : Type 0} (p : Result RubyError A) (q : A → Req)
          (k : (a : A) → Reply (q a) → Result RubyError Q)
          → Ok (λ a. P (q a)) p
          → Reaches P s (asked_with site p q k s)
      unfolding asked_with and_then next
      asked_with-Reaches (ok a) q k h = asked-Reaches (q a) (k a) h
      asked_with-Reaches (err e) q k h = raised e refl refl

      pub method-Reaches :
          {H : Type 0} (g : ForkGuarded H) (q : H → Req)
          (k : (h : H) → Reply (q h) → Result RubyError Q)
          → P (q g.inner)
          → Reaches P s (method site g q k s)
      unfolding method and_then next
      method-Reaches g q k p = elim (Result-cases (get_in g site.cur)) [
        | inl (h, e) ↦
            rw e (asked-Reaches (q h) (k h) (subst (λ i. P (q i)) (sym (get_in_inner g h e)) p))
        | inr (x, e) ↦ rw e (raised x refl refl)
      ]

      -- What the options have passed is known of the request.
      pub method_with-Reaches_checked :
          {H A : Type 0} (g : ForkGuarded H) (p : Result RubyError A) (q : H → A → Req)
          (k : (h : H) (a : A) → Reply (q h a) → Result RubyError Q)
          → Ok (λ a. P (q g.inner a)) p
          → Reaches P s (method_with site g p q k s)
      unfolding method_with and_then next
      method_with-Reaches_checked g p q k ph = elim (Result-cases (get_in g site.cur)) [
        | inl (h, e) ↦ rw e (
            asked_with-Reaches p (q h) (k h)
              (subst (λ i. Ok (λ a. P (q i a)) p) (sym (get_in_inner g h e)) ph))
        | inr (x, e) ↦ rw e (raised x refl refl)
      ]

      pub method_with-Reaches :
          {H A : Type 0} (g : ForkGuarded H) (p : Result RubyError A) (q : H → A → Req)
          (k : (h : H) (a : A) → Reply (q h a) → Result RubyError Q)
          → ((a : A) → P (q g.inner a))
          → Reaches P s (method_with site g p q k s)
      method_with-Reaches g p q k ph = method_with-Reaches_checked g p q k (Ok-every p ph)
