-- ===== src/Backend/OpenScopes.antt =====
-- The state inside an open `with_backend` scope, in the process that opened it (backend.rs).
use microsandbox_rb.Common.{
  ℕ, suc, ◌+◌, ◌%◌, ◌<◌, ◌≤◌, ◌≡◌, refl, sym, ap, ◌∙◌, subst, ◌≢◌, inl, inr, Option, none, some,
  List, [], ◌∷◌, ==_iff, ok, All, arith, length, Bool-cases, Result-cases, Option-cases,
}
use native.Mathlib.Nat.{add-zero}
use microsandbox_rb.Runtime.Identity.{
  ProcessIdentity, identity_eq, identity_eq_refl, to_bits, u32_mod,
}
use microsandbox_rb.Backend.Build.{Core, Selection, build}
use microsandbox_rb.Backend.State.{World, Backend, Scope, set_slot, find_scope, remove_scope}
use microsandbox_rb.Backend.Ops.{
  adopt_backend, ensure_this_process_backend, ensured, set_default_backend, select, set_adopted,
  open_scope, push_here, push_default_backend, push_adopted, rebuild, restore, close_scope,
  pop_adopted, pop_default_backend, default_backend, kind_ensured, default_backend_kind,
}

module _ (core : Core) where
  pub find_scope-remove_scope :
      (token t : ℕ) (ss : List (ℕ × Scope core))
      → t ≢ token
      → find_scope core token (remove_scope core t ss) ≡ find_scope core token ss
  unfolding find_scope remove_scope
  find_scope-remove_scope token t [] ne = refl
  find_scope-remove_scope token t ((u, s) ∷ ss) ne =
      ground (arith, find_scope-remove_scope token t ss ne)

  pub find_scope-remove_self :
      (token : ℕ) (ss : List (ℕ × Scope core))
      → find_scope core token (remove_scope core token ss) ≡ none
  unfolding find_scope remove_scope
  find_scope-remove_self token [] = refl
  find_scope-remove_self token ((u, s) ∷ ss) = ground (arith, find_scope-remove_self token ss)

  module _ (cur : ProcessIdentity) where
    adopt_owned :
        (env : core.Env) (r : Option Selection) (w : World core)
        → w.owner ≡ to_bits cur
        → adopt_backend core cur env r w ≡ (ok none, w)
    unfolding adopt_backend
    adopt_owned env r w m = rw ((==_iff w.owner (to_bits cur)).1 m)

    pub set_owned :
        (env : core.Env) (s : Selection) (w : World core)
        → w.owner ≡ to_bits cur
        → set_default_backend core cur env s w ≡ select core cur env s w
    unfolding set_default_backend set_adopted
    set_owned env s w m = ap (set_adopted core cur env s) (adopt_owned env (some s) w m)

    pub push_owned :
        (env : core.Env) (s : Selection) (w : World core)
        → w.owner ≡ to_bits cur
        → push_default_backend core cur env s w ≡ push_here core cur env s w
    unfolding push_default_backend push_adopted
    push_owned env s w m = ap (push_adopted core cur env s) (adopt_owned env (some s) w m)

    close_owned :
        (env : core.Env) (s : Scope core) (w : World core)
        → w.owner ≡ to_bits cur
        → close_scope core cur env s w ≡ restore core cur env s s.previous w
    unfolding close_scope pop_adopted
    close_owned env s w m = ap (pop_adopted core cur env s) (adopt_owned env (some s.selection) w m)

    kind_owned :
        (env : core.Env) (w : World core)
        → w.owner ≡ to_bits cur
        → default_backend_kind core cur env w ≡ kind_ensured core cur env (ok tt, w)
    unfolding default_backend_kind ensure_this_process_backend ensured
    kind_owned env w m =
        ap (λ a. kind_ensured core cur env (ensured core cur env a)) (adopt_owned env none w m)

    -- What this process may do inside a scope: everything but leave it, or fork and go on there.
    pub data Inside : Type 0 where
      selects pushes : Selection → Inside
      pops : ℕ → Inside
      uses : Inside

    unfoldable pub act : core.Env → Inside → World core → World core
    act env (selects s) w = (set_default_backend core cur env s w).1
    act env (pushes s) w = (push_default_backend core cur env s w).1
    act env (pops t) w = (pop_default_backend core cur env t w).1
    act env uses w = (default_backend_kind core cur env w).1

    unfoldable pub body : List (core.Env × Inside) → World core → World core
    unfolding act
    body [] w = w
    body ((env, a) ∷ rest) w = body rest (act env a w)

    abbrev pub Spares : ℕ → Inside → Type 0
    Spares token (pops t) = t ≢ token
    Spares token _ = Unit {0}

    module _ (token : ℕ) (scope : Scope core) where
      -- The scope is still open, and at most `n` tokens were given out since.
      pub record Held (n : ℕ) (w : World core) : Type 0 where
        pub mine : w.owner ≡ to_bits cur
        pub found : find_scope core token w.scopes ≡ some scope
        pub given : (j : ℕ) × (j ≤ n) × (w.next_scope ≡ (token + 1 + j) % u32_mod)

      Held-more : (n : ℕ) (w : World core) → Held n w → Held (suc n) w
      Held-more n w h = record {
        mine = h.mine;
        found = h.found;
        given = (h.given.0, omega (arith, h.given.1), h.given.2);
      }

      -- The fields that `Held` reads, unchanged.
      Held-same :
          (n : ℕ) (w w' : World core)
          → w'.owner ≡ w.owner
          → w'.scopes ≡ w.scopes
          → w'.next_scope ≡ w.next_scope
          → Held n w
          → Held (suc n) w'
      Held-same n w w' eo es en h = record {
        mine = eo ∙ h.mine;
        found = ap (find_scope core token) es ∙ h.found;
        given = (h.given.0, omega (arith, h.given.1), en ∙ h.given.2);
      }

      open_scope-Held :
          (env : core.Env) (s : Scope core) (n : ℕ) (w : World core)
          → token < u32_mod
          → suc n < u32_mod
          → Held n w
          → Held (suc n) (open_scope core cur env s w).1
      unfolding open_scope find_scope
      open_scope-Held env s n w lt k h = record {
        mine = h.mine;
        found =
            ground
              (arith, fresh, find_scope-remove_scope token w.next_scope w.scopes fresh, h.found);
        given = (suc h.given.0, omega (arith, h.given.1), omega (arith, h.given.2));
      }
        where
          fresh : w.next_scope ≢ token
          fresh e = omega (arith, h.given.1, h.given.2)

      select-Held :
          (env : core.Env) (s : Selection) (n : ℕ) (w : World core)
          → Held n w
          → Held (suc n) (select core cur env s w).1
      unfolding select set_slot
      select-Held env s n w h = elim (Result-cases (build core env s)) [
        | inl (c, e) ↦ rw (e, select) (Held-same n w _ refl refl refl h)
        | inr (x, e) ↦ rw (e, select) (Held-more n w h)
      ]

      push_here-Held :
          (env : core.Env) (s : Selection) (n : ℕ) (w : World core)
          → token < u32_mod
          → suc n < u32_mod
          → Held n w
          → Held (suc n) (push_here core cur env s w).1
      unfolding push_here
      push_here-Held env s n w lt k h = elim (Result-cases (build core env s)) [
        | inl (c, e) ↦
            rw (e, push_here)
              (open_scope-Held env _ n _ lt k
                (record { mine = h.mine; found = h.found; given = h.given }))
        | inr (x, e) ↦ rw (e, push_here) (Held-more n w h)
      ]

      rebuild-Held :
          (env : core.Env) (s : Scope core) (n : ℕ) (w : World core)
          → Held n w
          → Held (suc n) (rebuild core cur env s w).1
      unfolding rebuild
      rebuild-Held env s n w h = elim (Result-cases (build core env s.selection)) [
        | inl (c, e) ↦ rw (e, rebuild) (Held-same n w _ refl refl refl h)
        | inr (x, e) ↦ rw (e, rebuild) (Held-same n w _ refl refl refl h)
      ]

      restore-Held :
          (env : core.Env) (s : Scope core) (b : Option (Backend core)) (n : ℕ) (w : World core)
          → Held n w
          → Held (suc n) (restore core cur env s b w).1
      unfolding restore set_slot
      restore-Held env s none n w h = rebuild-Held env s n w h
      restore-Held env s (some b) n w h = elim (Bool-cases (identity_eq s.owner cur)) [
        | inl e ↦ rw e (Held-same n w _ refl refl refl h)
        | inr e ↦ rw e (rebuild-Held env s n w h)
      ]

      pop-Held :
          (env : core.Env) (t : ℕ) (n : ℕ) (w : World core)
          → t ≢ token
          → Held n w
          → Held (suc n) (pop_default_backend core cur env t w).1
      unfolding pop_default_backend close_scope pop_adopted
      pop-Held env t n w ne h = elim (Option-cases (find_scope core t w.scopes)) [
        | inl e ↦ rw (e, pop_default_backend) (Held-more n w h)
        | inr (s, e) ↦
            let without = record w { scopes = remove_scope core t w.scopes } in
            rw (e, pop_default_backend)
              (subst (λ x. Held (suc n) x.1) (sym (close_owned env s without h.mine))
                (restore-Held env s s.previous n without (record {
                  mine = h.mine;
                  found = find_scope-remove_scope token t w.scopes ne ∙ h.found;
                  given = h.given;
                })))
      ]

      act-Held :
          (env : core.Env) (a : Inside) (n : ℕ) (w : World core)
          → token < u32_mod
          → suc n < u32_mod
          → Spares token a
          → Held n w
          → Held (suc n) (act env a w)
      unfolding act kind_ensured default_backend
      act-Held env (selects s) n w lt k sp h =
          subst (λ x. Held (suc n) x.1) (sym (set_owned env s w h.mine)) (select-Held env s n w h)
      act-Held env (pushes s) n w lt k sp h =
          subst (λ x. Held (suc n) x.1) (sym (push_owned env s w h.mine))
            (push_here-Held env s n w lt k h)
      act-Held env (pops t) n w lt k sp h = pop-Held env t n w sp h
      act-Held env uses n w lt k sp h =
          subst (λ x. Held (suc n) x.1) (sym (kind_owned env w h.mine))
            (Held-same n w _ refl refl refl h)

      pub body-Held :
          (acts : List (core.Env × Inside)) (n : ℕ) (w : World core)
          → token < u32_mod
          → n + length acts < u32_mod
          → All (λ ea. Spares token ea.1) acts
          → Held n w
          → Held (n + length acts) (body acts w)
      unfolding body
      body-Held [] n w lt k sp h = rw add-zero h
      body-Held ((env, a) ∷ rest) n w lt k sp h =
          subst (λ m. Held m (body rest (act env a w))) (omega arith)
            (body-Held rest (suc n) (act env a w) lt (omega arith) sp.1
              (act-Held env a n w lt (omega arith) sp.0 h))

      restore_self :
          (env : core.Env) (b : Backend core) (w : World core)
          → scope.owner ≡ cur
          → restore core cur env scope (some b) w
            ≡ (ok tt, record (set_slot core cur b w) { selection = scope.selection })
      unfolding restore
      restore_self env b w e = rw (e, identity_eq_refl)

      -- The scope's own pop puts back what it saved.
      pub pop-Held_self :
          (env : core.Env) (b : Backend core) (n : ℕ) (w : World core)
          → scope.owner ≡ cur
          → scope.previous ≡ some b
          → Held n w
          → pop_default_backend core cur env token w ≡ (
            ok tt,
            record (set_slot core cur b w) {
              selection = scope.selection;
              scopes = remove_scope core token w.scopes;
            },
          )
      unfolding pop_default_backend set_slot
      pop-Held_self env b n w eo ep h =
          let without = record w { scopes = remove_scope core token w.scopes } in
          rw (h.found, pop_default_backend)
            (close_owned env scope without h.mine
              ∙ ap (λ p. restore core cur env scope p without) ep
              ∙ restore_self env b without eo)
