-- ===== src/Runtime/Interrupts.antt =====
-- What `nogvl` promises to a caller that may be interrupted.
use microsandbox_rb.Common.{
  ℕ, zero, suc, ◌+◌, ◌≤◌, ◌<◌, ◌≡◌, refl, subst, Bool, true, false, List, [], ◌∷◌, ok, err, arith,
  Bool-cases, Result-cases, inl, inr,
}
use native.Mathlib.Nat.{add-zero}
use microsandbox_rb.Error.{RubyError}
use microsandbox_rb.Runtime.Nogvl.{
  Ruby, Event, checked, declined, ran, Run, returned, Outcome, nogvl, attempt, after, refuse,
  finish, further_attempts, run_callback,
}

-- The callback runs once at most, and nothing follows it.
abbrev pub RunsLast : List Event → Type 0
RunsLast [] = Unit {0}
RunsLast (ran ∷ es) = es ≡ []
RunsLast (checked ∷ es) = RunsLast es
RunsLast (declined ∷ es) = RunsLast es

abbrev pub has_run : List Event → Bool
has_run [] = false
has_run (ran ∷ es) = true
has_run (checked ∷ es) = has_run es
has_run (declined ∷ es) = has_run es

-- How often the callback was offered to CRuby.
abbrev pub offers : List Event → ℕ
offers [] = 0
offers (checked ∷ es) = offers es
offers (declined ∷ es) = suc (offers es)
offers (ran ∷ es) = suc (offers es)

-- Either it ran, and its result and state are handed on, or it did not, and the error leaves the
-- state alone.
module _ {S R : Type 0} (f : S → Run R × S) where
  pub data Settled (s : S) (o : Outcome S R) : Type 0 where
    done : has_run o.trace ≡ true → o.exit ≡ finish (f s).0 → o.state ≡ (f s).1 → Settled s o
    refused :
        (e : RubyError)
        → has_run o.trace ≡ false
        → o.exit ≡ returned (err e)
        → o.state ≡ s
        → Settled s o

  pub record Sound (s : S) (bound : ℕ) (o : Outcome S R) : Type 0 where
    pub settled : Settled s o
    pub last : RunsLast o.trace
    pub few : offers o.trace ≤ bound

module _ {S R : Type 0} (ruby : Ruby) (f : S → Run R × S) where
  run_callback-Sound : (b : ℕ) (s : S) → Sound f s (suc b) (run_callback ruby f s)
  unfolding run_callback
  run_callback-Sound b s = record { settled = done refl refl refl; last = refl; few = omega arith }

  refuse-Sound : (b : ℕ) (s : S) (e : RubyError) → Sound f s b (refuse ruby f s e)
  refuse-Sound b s e = record { settled = refused e refl refl refl; last = tt; few = omega arith }

  checked-Sound :
      (b : ℕ) (s : S) (o : Outcome S R) → Sound f s b o → Sound f s b (after ruby f checked o)
  checked-Sound b s o h = record { settled = keep h.settled; last = h.last; few = h.few }
    where
      keep : Settled f s o → Settled f s (after ruby f checked o)
      keep (done r x t) = done r x t
      keep (refused e r x t) = refused e r x t

  declined-Sound :
      (b : ℕ) (s : S) (o : Outcome S R)
      → Sound f s b o
      → Sound f s (suc b) (after ruby f declined (after ruby f checked o))
  declined-Sound b s o h = record {
    settled = keep h.settled;
    last = h.last;
    few = omega (arith, h.few);
  }
    where
      keep : Settled f s o → Settled f s (after ruby f declined (after ruby f checked o))
      keep (done r x t) = done r x t
      keep (refused e r x t) = refused e r x t

  attempt-Sound : (left n : ℕ) (s : S) → Sound f s (suc left) (attempt ruby f left n s)
  unfolding attempt
  attempt-Sound zero n s = elim (Bool-cases (ruby.starts n)) [
    | inl go ↦ rw go (run_callback-Sound 0 s)
    | inr no_go ↦ rw no_go (elim (Result-cases (ruby.check (suc n))) [
      | inl (_, e) ↦ rw e (declined-Sound 0 s _ (refuse-Sound 0 s _))
      | inr (x, e) ↦ rw e (declined-Sound 0 s _ (refuse-Sound 0 s x))
    ])
  ]
  attempt-Sound (suc left) n s = elim (Bool-cases (ruby.starts n)) [
    | inl go ↦ rw go (run_callback-Sound (suc left) s)
    | inr no_go ↦ rw no_go (elim (Result-cases (ruby.check (suc n))) [
      | inl (_, e) ↦ rw e (declined-Sound (suc left) s _ (attempt-Sound left (suc n) s))
      | inr (x, e) ↦ rw e (declined-Sound (suc left) s _ (refuse-Sound (suc left) s x))
    ])
  ]

  -- However CRuby schedules interrupts, a call ends after at most 64 offers. Either the work ran,
  -- once, as the last thing that happened, and its result (or panic) and its effect are handed on;
  -- or it did not run, the call is an error, and the state is what it was.
  pub nogvl-Sound : (s : S) → Sound f s 64 (nogvl ruby f s)
  unfolding nogvl
  nogvl-Sound s = elim (Result-cases (ruby.check 0)) [
    | inl (_, e) ↦ rw e (checked-Sound 64 s _ (attempt-Sound further_attempts 0 s))
    | inr (x, e) ↦ rw e (checked-Sound 64 s _ (refuse-Sound 64 s x))
  ]

  run_callback_lem :
      (s : S)
      → ((run_callback ruby f s).exit ≡ finish (f s).0) × ((run_callback ruby f s).state ≡ (f s).1)
  unfolding run_callback
  run_callback_lem s = (refl, refl)

  attempt_starts :
      (k left n : ℕ) (s : S)
      → k ≤ left
      → ((i : ℕ) → ruby.check i ≡ ok tt)
      → ruby.starts (n + k) ≡ true
      → ((attempt ruby f left n s).exit ≡ finish (f s).0)
        × ((attempt ruby f left n s).state ≡ (f s).1)
  unfolding attempt
  attempt_starts zero zero n s h quiet go = rw (rw add-zero at go) (run_callback_lem s)
  attempt_starts zero (suc left) n s h quiet go = rw (rw add-zero at go) (run_callback_lem s)
  attempt_starts (suc k) zero n s h quiet go = absurd (omega arith)
  attempt_starts (suc k) (suc left) n s h quiet go = elim (Bool-cases (ruby.starts n)) [
    | inl now ↦ rw now (run_callback_lem s)
    | inr later ↦
        rw (later, quiet (suc n))
          (attempt_starts k left (suc n) s (omega arith) quiet
            (subst (λ m. ruby.starts m ≡ true) (omega arith) go))
  ]

  -- When no interrupt is raised and CRuby lets one of the 64 attempts start, the work runs and its
  -- result and effect are handed on.
  pub nogvl_starts :
      (k : ℕ) (s : S)
      → k < 64
      → ((i : ℕ) → ruby.check i ≡ ok tt)
      → ruby.starts k ≡ true
      → ((nogvl ruby f s).exit ≡ finish (f s).0) × ((nogvl ruby f s).state ≡ (f s).1)
  unfolding nogvl
  nogvl_starts k s h quiet go = rw (quiet 0) (
      attempt_starts k further_attempts 0 s (omega arith) quiet
        (subst (λ m. ruby.starts m ≡ true) (omega arith) go))
