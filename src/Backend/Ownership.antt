-- ===== src/Backend/Ownership.antt =====
-- Who may drop a backend: the invariant that every operation keeps, in whatever process it runs.
use microsandbox_rb.Common.{
  ℕ, ◌≡◌, refl, sym, subst, ◌≢◌, inl, inr, Option, none, some, List, [], ◌∷◌, ◌==◌, Result, ok, err,
  All, arith, Bool-cases, Result-cases,
}
use microsandbox_rb.Error.{MicrosandboxError}
use microsandbox_rb.Runtime.Identity.{ProcessIdentity, IsValid, to_bits, to_bits-injective}
use microsandbox_rb.Backend.Build.{Core, Selection, build}
use microsandbox_rb.Backend.State.{
  World, Backend, Scope, Drop, take_saved, log, find_scope, remove_scope,
}
use microsandbox_rb.Backend.Ops.{adopt_backend, take_over, chosen, inherited}

module _ (core : Core) where
  -- A backend that is kept was built by the process with this packed identity.
  abbrev pub Owned : ℕ → Option (Backend core) → Type 0
  Owned o none = Unit {0}
  Owned o (some b) = (to_bits b.builder ≡ o) × IsValid b.builder

  -- A scope that still has its backend was opened by the process that built it.
  abbrev pub Opened : ℕ → ProcessIdentity → Option (Backend core) → Type 0
  Opened o p none = Unit {0}
  Opened o p (some b) = (to_bits b.builder ≡ o) × IsValid b.builder × (p ≡ b.builder)

  abbrev pub ScopeOwned : ℕ → ℕ × Scope core → Type 0
  ScopeOwned o (t, s) = Opened o s.owner s.previous

  abbrev pub DropIsOwn : Drop core → Type 0
  DropIsOwn d = d.by ≡ d.backend.builder

  pub record Inv (w : World core) : Type 0 where
    pub untouched : w.owner ≡ 0 → (w.slot ≡ none) × (w.scopes ≡ [])
    pub slot_owned : Owned w.owner w.slot
    pub scopes_owned : All (ScopeOwned w.owner) w.scopes
    pub drops_own : All DropIsOwn w.dropped

  abbrev pub IsReal : ProcessIdentity → Type 0
  IsReal p = IsValid p × (p.pid ≢ 0)

  pub take_saved-All :
      (p : ProcessIdentity) (o : ℕ) (ss : List (ℕ × Scope core))
      → All (ScopeOwned o) (take_saved core p ss)
  unfolding take_saved
  take_saved-All p o [] = tt
  take_saved-All p o ((t, s) ∷ ss) = (tt, take_saved-All p o ss)

  pub remove_scope-All :
      (o token : ℕ) (ss : List (ℕ × Scope core))
      → All (ScopeOwned o) ss
      → All (ScopeOwned o) (remove_scope core token ss)
  unfolding remove_scope
  remove_scope-All o token [] h = tt
  remove_scope-All o token ((t, s) ∷ ss) h = elim (Bool-cases (t == token)) [
    | inl e ↦ rw e (remove_scope-All o token ss h.1)
    | inr e ↦ rw e (h.0, remove_scope-All o token ss h.1)
  ]

  pub find_scope-Opened :
      (o token : ℕ) (ss : List (ℕ × Scope core)) (s : Scope core)
      → All (ScopeOwned o) ss
      → find_scope core token ss ≡ some s
      → Opened o s.owner s.previous
  unfolding find_scope
  find_scope-Opened o token [] s h e = absurd (cc)
  find_scope-Opened o token ((t, x) ∷ ss) s h e = elim (Bool-cases (t == token)) [
    | inl hit ↦
        let same : x ≡ s = cc (rw hit at e) in
        subst (λ (y : Scope core). Opened o y.owner y.previous) same h.0
    | inr miss ↦ find_scope-Opened o token ss s h.1 (rw miss at e)
  ]

  pub remove_scope-nil : (token : ℕ) → remove_scope core token [] ≡ []
  unfolding remove_scope
  remove_scope-nil token = refl

  pub found_none : (token : ℕ) (s : Scope core) → find_scope core token [] ≡ some s → ⊥
  unfolding find_scope
  found_none token s e = cc

  pub Opened-Owned :
      (o : ℕ) (p : ProcessIdentity) (b : Option (Backend core)) → Opened o p b → Owned o b
  Opened-Owned o p none h = tt
  Opened-Owned o p (some b) h = (h.0, h.1)

  pub log-own :
      (cur : ProcessIdentity) (b : Option (Backend core)) (ds : List (Drop core))
      → IsValid cur
      → Owned (to_bits cur) b
      → All DropIsOwn ds
      → All DropIsOwn (log core cur b ds)
  log-own cur none ds v h ds_own = ds_own
  log-own cur (some b) ds v h ds_own = (sym (to_bits-injective b.builder cur h.1 v h.0), ds_own)

  -- The four ways through `adopt_backend`.
  pub adopt_cases {ν} :
      (cur : ProcessIdentity) (env : core.Env)
      (P : Result MicrosandboxError (Option Selection) × World core → Type ν) (r : Option Selection)
      (w : World core)
      → (w.owner ≡ to_bits cur → P (ok none, w))
      → (w.owner ≡ 0 → P (ok none, record w { owner = to_bits cur }))
      → ((x : MicrosandboxError) → build core env (chosen core cur env r w) ≡ err x → P (err x, w))
      → ((c : core.Config)
          → build core env (chosen core cur env r w) ≡ ok c
          → w.owner ≢ 0
          → w.owner ≢ to_bits cur
          → P (ok (inherited core cur env r w), take_over core cur env r c w))
      → P (adopt_backend core cur env r w)
  unfolding adopt_backend
  adopt_cases cur env P r w owned first failed took = elim (Bool-cases (w.owner == to_bits cur)) [
    | inl e ↦ rw e (owned (ground arith))
    | inr e ↦ rw e (elim (Bool-cases (w.owner == 0)) [
      | inl z ↦ rw z (first (ground arith))
      | inr z ↦ rw z (elim (Result-cases (build core env (chosen core cur env r w))) [
        | inl (c, b) ↦ rw b (took c b (ground arith) (ground arith))
        | inr (x, b) ↦ rw b (failed x b)
      ])
    ])
  ]
