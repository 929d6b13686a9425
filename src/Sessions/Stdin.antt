-- ===== src/Sessions/Stdin.antt =====
-- `ExecHandle::take_stdin` of exec.rs: the sink of a command's standard input is handed out once.
use microsandbox_rb.Common.{
  ◌≡◌, refl, inl, inr, Bool, ◌||◌, false, true, Option, none, some, List, [], ◌∷◌, ◌++◌, Result, ok,
  err, if◌then◌else◌, Bool-cases, ap, sym,
}
use mathlib.Core.Option
use microsandbox_rb.Error.{RubyError, forked_handle}
use microsandbox_rb.Runtime.Identity.{ProcessIdentity, identity_eq, identity_eq_iff-to}
use microsandbox_rb.Runtime.Guard.{ForkGuarded, guarded, get_in}

-- Whether the process that `g` belongs to is among these.
abbrev pub any_owner : ForkGuarded (Unit {0}) → List ProcessIdentity → Bool
any_owner g [] = false
any_owner g (cur ∷ rest) = identity_eq g.owner cur || any_owner g rest

module _ {K : Type 0} (g : ForkGuarded (Unit {0})) where
  abbrev pub sink : ProcessIdentity → K → ForkGuarded K
  sink cur k = guarded cur "Microsandbox::ExecStdin" k

  -- The call in the process `cur`, with the mutex's content before and after it.
  unfoldable pub take_stdin :
      ProcessIdentity → Option K → Result RubyError (Option (ForkGuarded K)) × Option K
  unfolding get_in guarded
  take_stdin cur held = elim (get_in g cur) [
    | err e ↦ (err e, held)
    | ok _ ↦ (ok (Option.map (sink cur) held), none)
  ]

  abbrev handed : Result RubyError (Option (ForkGuarded K)) → List (ForkGuarded K)
  handed (err e) = []
  handed (ok none) = []
  handed (ok (some s)) = s ∷ []

  -- The sinks that calls in these processes hand out, in turn.
  unfoldable pub sinks : List ProcessIdentity → Option K → List (ForkGuarded K)
  sinks [] held = []
  sinks (cur ∷ rest) held = let r = take_stdin cur held in handed r.0 ++ sinks rest r.1

  take_own :
      (cur : ProcessIdentity) (held : Option K)
      → identity_eq g.owner cur ≡ true
      → take_stdin cur held ≡ (ok (Option.map (sink cur) held), none)
  unfolding take_stdin
  take_own cur held e = rw (e, take_stdin) refl

  take_other :
      (cur : ProcessIdentity) (held : Option K)
      → identity_eq g.owner cur ≡ false
      → take_stdin cur held ≡ (err (forked_handle g.class g.owner.pid cur.pid), held)
  unfolding take_stdin
  take_other cur held e = rw (e, take_stdin) refl

  sinks_gone : (curs : List ProcessIdentity) → sinks curs none ≡ []
  unfolding sinks
  sinks_gone [] = refl
  sinks_gone (cur ∷ rest) = elim (Bool-cases (identity_eq g.owner cur)) [
    | inl e ↦ rw (take_own cur none e) (sinks_gone rest)
    | inr e ↦ rw (take_other cur none e) (sinks_gone rest)
  ]

  -- However often and in whatever processes a command's standard input is asked for, its sink is
  -- handed out exactly once if the process that started the command asks, as that process's own
  -- handle, and else never.
  pub sinks-once :
      (curs : List ProcessIdentity) (k : K)
      → sinks curs (some k) ≡ (if any_owner g curs then sink g.owner k ∷ [] else [])
  unfolding sinks
  sinks-once [] k = refl
  sinks-once (cur ∷ rest) k = elim (Bool-cases (identity_eq g.owner cur)) [
    | inl e ↦
        let same : g.owner ≡ cur = identity_eq_iff-to g.owner cur e in
        rw (take_own cur (some k) e, e, sinks_gone rest) (ap (λ c. sink c k ∷ []) (sym same))
    | inr e ↦ rw (take_other cur (some k) e, e) (sinks-once rest k)
  ]
