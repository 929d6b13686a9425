-- ===== src/Backend/Forked.antt =====
-- The first call of a forked child: what it takes over, and what a failure leaves behind.
use microsandbox_rb.Common.{
  Result, ℕ, ◌≡◌, refl, sym, ap, subst, ◌≢◌, inl, inr, Option, none, some, List, [], ◌∷◌, ok, err,
  arith, Bool-cases, Result-cases, Option-cases,
}
use microsandbox_rb.Error.{MicrosandboxError, RubyError, to_ruby}
use microsandbox_rb.Runtime.Identity.{ProcessIdentity, identity_eq, to_bits}
use microsandbox_rb.Backend.Build.{Core, Selection, build}
use microsandbox_rb.Backend.State.{
  World, Backend, Scope, take_saved, find_scope, remove_scope, set_slot,
}
use microsandbox_rb.Backend.Ops.{
  adopt_backend, take_over, set_default_backend, set_adopted, pop_default_backend, close_scope,
  pop_adopted, restore, rebuild, built, chosen, inherited,
}
use microsandbox_rb.Backend.Ownership.{adopt_cases}
use microsandbox_rb.Backend.OpenScopes.{find_scope-remove_self}

module _ (core : Core) (cur : ProcessIdentity) (env : core.Env) where
  -- The recorded owner is another process: the one that forked this child, or an ancestor.
  abbrev pub IsInherited : World core → Type 0
  IsInherited w = (w.owner ≢ 0) × (w.owner ≢ to_bits cur)

  adopt_took :
      (r : Option Selection) (w : World core) (c : core.Config)
      → IsInherited w
      → build core env (chosen core cur env r w) ≡ ok c
      → adopt_backend core cur env r w
        ≡ (ok (inherited core cur env r w), take_over core cur env r c w)
  adopt_took r w c h e =
      adopt_cases core cur env
        (λ a. a ≡ (ok (inherited core cur env r w), take_over core cur env r c w)) r w
        (λ m. absurd (h.1 m)) (λ z. absurd (h.0 z)) (λ x b. absurd (cc))
        (λ d b _ _.
          let same : d ≡ c = cc in
          ap (λ y. (ok (inherited core cur env r w), take_over core cur env r y w)) same)

  adopt_failed :
      (r : Option Selection) (w : World core) (x : MicrosandboxError)
      → IsInherited w
      → build core env (chosen core cur env r w) ≡ err x
      → adopt_backend core cur env r w ≡ (err x, w)
  adopt_failed r w x h e =
      adopt_cases core cur env (λ a. a ≡ (err x, w)) r w (λ m. absurd (h.1 m)) (λ z. absurd (h.0 z))
        (λ y b. let same : y ≡ x = cc in ap (λ z. (err z, w)) same) (λ d b _ _. absurd (cc))

  -- What a child's successful first call installs: a backend of its own, on record as its own, with
  -- nothing dropped.
  pub record TakenOver (s : Selection) (c : core.Config) (before after : World core) : Type 0 where
    pub slot : after.slot ≡ some (built core cur env c)
    pub selection : after.selection ≡ s
    pub owner : after.owner ≡ to_bits cur
    pub dropped : after.dropped ≡ before.dropped

  -- What a child's first selection leaves, by what its own selection builds to.
  abbrev pub SelectsFrom :
      Selection
      → World core
      → Result RubyError (Unit {0}) × World core
      → Result MicrosandboxError core.Config
      → Type 0
  SelectsFrom s w after (ok c) = (after.0 ≡ ok tt) × TakenOver s c w after.1
  SelectsFrom s w after (err x) = after ≡ (err (to_ruby x), w)

  -- What a child's first pop leaves, by what the scope's saved selection builds to.
  abbrev pub RestoresFrom :
      Selection
      → World core
      → Result RubyError (Unit {0}) × World core
      → Result MicrosandboxError core.Config
      → Type 0
  RestoresFrom s w after (ok c) = (after.0 ≡ ok tt) × TakenOver s c w after.1
  RestoresFrom s w after (err x) =
      (after.0 ≡ err (to_ruby x))
      × (after.1.slot ≡ w.slot)
      × (after.1.selection ≡ w.selection)
      × (after.1.owner ≡ w.owner)
      × (after.1.dropped ≡ w.dropped)

  set_branches :
      (s : Selection) (w : World core)
      → IsInherited w
      → let after = set_default_backend core cur env s w in
        ((c : core.Config) → build core env s ≡ ok c → (after.0 ≡ ok tt) × TakenOver s c w after.1)
        × ((x : MicrosandboxError) → build core env s ≡ err x → after ≡ (err (to_ruby x), w))
  unfolding set_default_backend set_adopted take_over
  set_branches s w h = (
    (λ c e.
        subst
          (λ a.
            let after = set_adopted core cur env s a in (after.0 ≡ ok tt) × TakenOver s c w after.1)
          (sym (adopt_took (some s) w c h e))
          (refl, record { slot = refl; selection = refl; owner = refl; dropped = refl })),
    (λ x e. ap (set_adopted core cur env s) (adopt_failed (some s) w x h e)),
  )

  -- A forked child whose first call selects a backend gets it, whether or not the inherited
  -- selection still resolves there: the call succeeds exactly when its own selection builds, and
  -- then the child owns what is installed; when it fails, the state is untouched.
  pub set_default_backend_inherited :
      (s : Selection) (w : World core)
      → IsInherited w
      → let after = set_default_backend core cur env s w in SelectsFrom s w after (build core env s)
  set_default_backend_inherited s w h = elim (Result-cases (build core env s)) [
    | inl (c, e) ↦ rw e ((set_branches s w h).0 c e)
    | inr (x, e) ↦ rw e ((set_branches s w h).1 x e)
  ]

  pop_branches :
      (token : ℕ) (scope : Scope core) (w : World core)
      → IsInherited w
      → find_scope core token w.scopes ≡ some scope
      → let after = pop_default_backend core cur env token w in
        ((c : core.Config)
          → build core env scope.selection ≡ ok c
          → (after.0 ≡ ok tt) × TakenOver scope.selection c w after.1)
        × ((x : MicrosandboxError)
            → build core env scope.selection ≡ err x
            → (after.0 ≡ err (to_ruby x))
              × (after.1.slot ≡ w.slot)
              × (after.1.selection ≡ w.selection)
              × (after.1.owner ≡ w.owner)
              × (after.1.dropped ≡ w.dropped))
  unfolding pop_default_backend close_scope pop_adopted take_over
  pop_branches token scope w h f =
      rw (f, pop_default_backend)
        (
          (λ c e.
              subst
                (λ a.
                  let after = pop_adopted core cur env scope a in
                  (after.0 ≡ ok tt) × TakenOver scope.selection c w after.1)
                (sym (adopt_took (some scope.selection) without c h e))
                (refl, record { slot = refl; selection = refl; owner = refl; dropped = refl })),
          (λ x e.
              subst
                (λ a.
                  let after = pop_adopted core cur env scope a in
                  (after.0 ≡ err (to_ruby x))
                  × (after.1.slot ≡ w.slot)
                  × (after.1.selection ≡ w.selection)
                  × (after.1.owner ≡ w.owner)
                  × (after.1.dropped ≡ w.dropped))
                (sym (adopt_failed (some scope.selection) without x h e))
                (refl, refl, refl, refl, refl)),
        )
    where
      without : World core
      without = record w { scopes = remove_scope core token w.scopes }

  -- A forked child that leaves its parent's `with_backend` block as its first call takes over with
  -- what the scope restores, whatever the scope's temporary selection would build to; nothing is
  -- dropped. When that cannot be built, the call fails, the record still shows the old owner, so
  -- that the next call tries again, and the temporary selection stays.
  pub pop_default_backend_inherited :
      (token : ℕ) (scope : Scope core) (w : World core)
      → IsInherited w
      → find_scope core token w.scopes ≡ some scope
      → let after = pop_default_backend core cur env token w in
        RestoresFrom scope.selection w after (build core env scope.selection)
  pop_default_backend_inherited token scope w h f =
      elim (Result-cases (build core env scope.selection)) [
        | inl (c, e) ↦ rw e ((pop_branches token scope w h f).0 c e)
        | inr (x, e) ↦ rw e ((pop_branches token scope w h f).1 x e)
      ]

  find_scope-take_saved :
      (token : ℕ) (ss : List (ℕ × Scope core))
      → find_scope core token ss ≡ none
      → find_scope core token (take_saved core cur ss) ≡ none
  unfolding find_scope take_saved
  find_scope-take_saved token [] e = refl
  find_scope-take_saved token ((t, s) ∷ ss) e = ground (arith, find_scope-take_saved token ss)

  abbrev Closed : ℕ → World core → Type 0
  Closed token w = find_scope core token w.scopes ≡ none

  rebuild-Closed :
      (token : ℕ) (s : Scope core) (w : World core)
      → Closed token w
      → Closed token (rebuild core cur env s w).1
  unfolding rebuild
  rebuild-Closed token s w h = elim (Result-cases (build core env s.selection)) [
    | inl (c, e) ↦ rw (e, rebuild) h
    | inr (x, e) ↦ rw (e, rebuild) h
  ]

  restore-Closed :
      (token : ℕ) (s : Scope core) (b : Option (Backend core)) (w : World core)
      → Closed token w
      → Closed token (restore core cur env s b w).1
  unfolding restore set_slot
  restore-Closed token s none w h = rebuild-Closed token s w h
  restore-Closed token s (some b) w h = elim (Bool-cases (identity_eq s.owner cur)) [
    | inl e ↦ rw e h
    | inr e ↦ rw e (rebuild-Closed token s w h)
  ]

  -- A pop consumes its token whether or not it succeeds, in the process that opened the scope as in
  -- any other: afterwards the token names no scope.
  pub pop_default_backend-consumes :
      (token : ℕ) (w : World core)
      → find_scope core token (pop_default_backend core cur env token w).1.scopes ≡ none
  unfolding pop_default_backend close_scope pop_adopted take_over
  pop_default_backend-consumes token w = elim (Option-cases (find_scope core token w.scopes)) [
    | inl e ↦ rw (e, pop_default_backend) e
    | inr (s, e) ↦
        let without : World core = record w { scopes = remove_scope core token w.scopes } in
        let gone = find_scope-remove_self core token w.scopes in
        rw (e, pop_default_backend)
          (adopt_cases core cur env (λ a. Closed token (pop_adopted core cur env s a).1)
            (some s.selection) without (λ _. restore-Closed token s s.previous without gone)
            (λ _. restore-Closed token s s.previous (record without { owner = to_bits cur }) gone)
            (λ _ _. gone) (λ _ _ _ _. find_scope-take_saved token without.scopes gone))
  ]
