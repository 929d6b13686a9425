-- ===== src/Backend/History.antt =====
-- A line of processes, each forked from the one before, that use the backend in any order.
use microsandbox_rb.Common.{
  ℕ, ◌<◌, ◌≡◌, refl, sym, ◌∙◌, ◌≢◌, none, List, [], ◌∷◌, Result, ok, err, All, arith,
}
use microsandbox_rb.Error.{RubyError}
use microsandbox_rb.Runtime.Identity.{ProcessIdentity, to_bits, to_bits-injective, fork, u32_mod}
use microsandbox_rb.Backend.Build.{Core, Selection}
use microsandbox_rb.Backend.State.{World, loaded}
use microsandbox_rb.Backend.Ops.{
  ensure_this_process_backend, ensured, set_default_backend, push_default_backend,
  pop_default_backend, default_backend, default_backend_kind, kind_ensured, take_over,
}
use microsandbox_rb.Backend.Ownership.{Inv, IsReal, DropIsOwn, adopt_cases}
use microsandbox_rb.Backend.Preservation.{
  ensure-Inv, set_default_backend-Inv, push_default_backend-Inv, pop_default_backend-Inv, real_ne,
  resolved-own,
}

pub data Action : Type 0 where
  selects pushes : Selection → Action
  pops : ℕ → Action
  -- A native call that reaches the backend, and a fork whose child, with this pid, we follow.
  uses : Action
  forks : ℕ → Action

module _ (core : Core) where
  pub record System : Type 0 where
    pub cur : ProcessIdentity
    pub world : World core

  unfoldable pub use_backend : ProcessIdentity → core.Env → World core → World core
  use_backend cur env w = (default_backend_kind core cur env w).1

  unfoldable pub step : core.Env → Action → System → System
  unfolding use_backend fork
  step env (selects s) t = record t { world = (set_default_backend core t.cur env s t.world).1 }
  step env (pushes s) t = record t { world = (push_default_backend core t.cur env s t.world).1 }
  step env (pops token) t = record t {
    world = (pop_default_backend core t.cur env token t.world).1;
  }
  step env uses t = record t { world = use_backend t.cur env t.world }
  step env (forks pid) t = record t { cur = fork pid t.cur }

  unfoldable pub run : List (core.Env × Action) → System → System
  unfolding step
  run [] t = t
  run ((env, a) ∷ rest) t = run rest (step env a t)

  -- The system gives a child a pid that is a 32-bit word and not 0.
  abbrev pub IsPossible : Action → Type 0
  IsPossible (forks pid) = (pid < u32_mod) × (pid ≢ 0)
  IsPossible _ = Unit {0}

  pub record Sound (t : System) : Type 0 where
    pub real : IsReal core t.cur
    pub inv : Inv core t.world

  -- A takeover that succeeds leaves the backend this process's.
  pub ensure-Mine :
      (cur : ProcessIdentity) (env : core.Env) (w : World core)
      → (ensure_this_process_backend core cur env w).0 ≡ ok tt
      → (ensure_this_process_backend core cur env w).1.owner ≡ to_bits cur
  unfolding ensure_this_process_backend ensured take_over
  ensure-Mine cur env w =
      adopt_cases core cur env
        (λ a. (ensured core cur env a).0 ≡ ok tt → (ensured core cur env a).1.owner ≡ to_bits cur)
        none w (λ m _. m) (λ _ _. refl) (λ x _ e. absurd (cc)) (λ c _ _ _ _. refl)

  default_backend-Inv :
      (cur : ProcessIdentity) (env : core.Env) (w : World core)
      → IsReal core cur
      → w.owner ≡ to_bits cur
      → Inv core w
      → Inv core (default_backend core cur env w).1
  unfolding default_backend
  default_backend-Inv cur env w real m h = record {
    untouched = λ e. absurd (real_ne core cur env real (sym m ∙ e));
    slot_owned = rw m (resolved-own core cur env real w (m, h));
    scopes_owned = h.scopes_owned;
    drops_own = h.drops_own;
  }

  kind_ensured-Inv :
      (cur : ProcessIdentity) (env : core.Env) (a : Result RubyError (Unit {0}) × World core)
      → IsReal core cur
      → (a.0 ≡ ok tt → a.1.owner ≡ to_bits cur)
      → Inv core a.1
      → Inv core (kind_ensured core cur env a).1
  unfolding kind_ensured
  kind_ensured-Inv cur env (ok u, w) real m h = default_backend-Inv cur env w real (m refl) h
  kind_ensured-Inv cur env (err e, w) real m h = h

  use_backend-Inv :
      (cur : ProcessIdentity) (env : core.Env) (w : World core)
      → IsReal core cur
      → Inv core w
      → Inv core (use_backend cur env w)
  unfolding use_backend default_backend_kind
  use_backend-Inv cur env w real h =
      kind_ensured-Inv cur env _ real (ensure-Mine cur env w) (ensure-Inv core cur env real w h)

  fork-IsReal : (pid : ℕ) (p : ProcessIdentity) → IsPossible (forks pid) → IsReal core (fork pid p)
  unfolding fork
  fork-IsReal pid p h = (record { pid_fits = h.0; generation_fits = omega arith }, h.1)

  step-Sound :
      (env : core.Env) (a : Action) (t : System) → IsPossible a → Sound t → Sound (step env a t)
  unfolding step
  step-Sound env (selects s) t p h = record {
    real = h.real;
    inv = set_default_backend-Inv core t.cur env h.real s t.world h.inv;
  }
  step-Sound env (pushes s) t p h = record {
    real = h.real;
    inv = push_default_backend-Inv core t.cur env h.real s t.world h.inv;
  }
  step-Sound env (pops token) t p h = record {
    real = h.real;
    inv = pop_default_backend-Inv core t.cur env h.real token t.world h.inv;
  }
  step-Sound env uses t p h = record {
    real = h.real;
    inv = use_backend-Inv t.cur env t.world h.real h.inv;
  }
  step-Sound env (forks pid) t p h = record { real = fork-IsReal pid t.cur p; inv = h.inv }

  loaded-Inv : Inv core (loaded core)
  unfolding loaded
  loaded-Inv = record {
    untouched = λ _. (refl, refl);
    slot_owned = tt;
    scopes_owned = tt;
    drops_own = tt;
  }

  abbrev pub start : ProcessIdentity → System
  start p = record { cur = p; world = loaded core }

  abbrev pub Possible : List (core.Env × Action) → Type 0
  Possible = All λ ea. IsPossible ea.1

  pub run-Sound :
      (hist : List (core.Env × Action)) (t : System) → Possible hist → Sound t → Sound (run hist t)
  unfolding run
  run-Sound [] t p h = h
  run-Sound ((env, a) ∷ rest) t p h = run-Sound rest (step env a t) p.1 (step-Sound env a t p.0 h)

  -- Through any history of selections, scopes, uses and forks, whatever fails along the way, a
  -- backend is only ever dropped by the process that built it.
  pub run-DropIsOwn :
      (p : ProcessIdentity) (hist : List (core.Env × Action))
      → IsReal core p
      → Possible hist
      → All (DropIsOwn core) (run hist (start p)).world.dropped
  run-DropIsOwn p hist real possible =
      (run-Sound hist (start p) possible (record { real = real; inv = loaded-Inv })).inv.drops_own

  -- After any history, a native call whose backend check succeeds runs on a backend that the
  -- calling process built itself.
  pub default_backend-run :
      (p : ProcessIdentity) (hist : List (core.Env × Action)) (env : core.Env)
      → IsReal core p
      → Possible hist
      → let t = run hist (start p) in
        let r = ensure_this_process_backend core t.cur env t.world in
        r.0 ≡ ok tt → (default_backend core t.cur env r.1).0.builder ≡ t.cur
  unfolding default_backend
  default_backend-run p hist env real possible e =
      let s = run-Sound hist (start p) possible (record { real = real; inv = loaded-Inv }) in
      let own =
        resolved-own core _ env s.real _
          (ensure-Mine _ env _ e, ensure-Inv core _ env s.real _ s.inv) in
      to_bits-injective _ _ own.1 s.real.0 own.0
