-- ===== src/Backend/Preservation.antt =====
-- The operations against the invariant on who may drop a backend (backend.rs).
use microsandbox_rb.Common.{
  ℕ, ◌≡◌, refl, sym, ◌∙◌, subst, ◌≢◌, inl, inr, Option, none, some, List, All, Bool-cases,
  Result-cases, Option-cases,
}
use microsandbox_rb.Runtime.Identity.{
  ProcessIdentity, IsValid, identity_eq, to_bits, to_bits-injective, to_bits-pos,
}
use microsandbox_rb.Backend.Build.{Core, Selection, build}
use microsandbox_rb.Backend.State.{
  World, Backend, Scope, Drop, set_slot, resolved, find_scope, remove_scope,
}
use microsandbox_rb.Backend.Ops.{
  take_over, ensure_this_process_backend, set_default_backend, select, open_scope, push_here,
  push_default_backend, rebuild, restore, close_scope, pop_default_backend, displaced, built,
  set_adopted, push_adopted, pop_adopted, ensured,
}
use microsandbox_rb.Backend.Ownership.{
  DropIsOwn, take_saved-All, remove_scope-All, find_scope-Opened, Opened-Owned, log-own,
  adopt_cases, Inv, Owned, Opened, IsReal, remove_scope-nil, found_none,
}

module _ (core : Core) where
  module _ (cur : ProcessIdentity) (env : core.Env) (real : IsReal core cur) where
    take_over-Inv :
        (r : Option Selection) (config : core.Config) (w : World core)
        → Inv core w
        → Inv core (take_over core cur env r config w)
    unfolding take_over
    take_over-Inv r config w h = record {
      untouched = λ e. absurd (to_bits-pos cur real.0 real.1 e);
      slot_owned = (refl, real.0);
      scopes_owned = take_saved-All core cur (to_bits cur) w.scopes;
      drops_own = h.drops_own;
    }

    -- After a takeover, or in a process that has owned its backend since, the record says so.
    abbrev pub Mine : World core → Type 0
    Mine w = (w.owner ≡ to_bits cur) × Inv core w

    pub real_ne : to_bits cur ≢ 0
    real_ne = to_bits-pos cur real.0 real.1

    leak-Inv :
        (ds : List (Drop core)) (w : World core) → Inv core w → Inv core (record w { leaked = ds })
    leak-Inv ds w h = record {
      untouched = h.untouched;
      slot_owned = h.slot_owned;
      scopes_owned = h.scopes_owned;
      drops_own = h.drops_own;
    }

    fresh_slot-Inv :
        (c : core.Config) (s : Selection) (ds : List (Drop core)) (w : World core)
        → Mine w
        → Inv core (record w { slot = some (built core cur env c); selection = s; leaked = ds })
    fresh_slot-Inv c s ds w (m, h) = record {
      untouched = λ e. absurd (real_ne (sym m ∙ e));
      slot_owned = (sym m, real.0);
      scopes_owned = h.scopes_owned;
      drops_own = h.drops_own;
    }

    set_slot-Inv :
        (b : Backend core) (w : World core) (s : Selection)
        → (to_bits b.builder ≡ to_bits cur) × IsValid b.builder
        → Mine w
        → Inv core (record (set_slot core cur b w) { selection = s })
    unfolding set_slot
    set_slot-Inv b w s hb (m, h) = record {
      untouched = λ e. absurd (to_bits-pos cur real.0 real.1 (sym m ∙ e));
      slot_owned = rw m hb;
      scopes_owned = h.scopes_owned;
      drops_own = log-own core cur w.slot w.dropped real.0 (rw m at h.slot_owned) h.drops_own;
    }

    pub resolved-own :
        (w : World core) → Mine w → Owned core (to_bits cur) (some (resolved core cur env w))
    unfolding resolved
    resolved-own w (m, h) = elim (Option-cases w.slot) [
      | inl e ↦ rw e (refl, real.0)
      | inr (b, e) ↦ rw (e, ← m) (rw e at h.slot_owned)
    ]

    select-Inv : (s : Selection) (w : World core) → Mine w → Inv core (select core cur env s w).1
    unfolding select
    select-Inv s w h = elim (Result-cases (build core env s)) [
      | inl (c, e) ↦ rw (e, select) (set_slot-Inv _ w s (refl, real.0) h)
      | inr (x, e) ↦ rw (e, select) h.1
    ]

    displaced-own :
        (o : Option (Scope core))
        → ((old : Scope core) → o ≡ some old → Owned core (to_bits cur) old.previous)
        → (ds : List (Drop core)) → All (DropIsOwn core) ds
        → All (DropIsOwn core) (displaced core cur env o ds)
    displaced-own none f ds h = h
    displaced-own (some old) f ds h = log-own core cur old.previous ds real.0 (f old refl) h

    open_scope-Inv :
        (s : Scope core) (w : World core)
        → Opened core (to_bits cur) s.owner s.previous
        → Mine w
        → Inv core (open_scope core cur env s w).1
    unfolding open_scope
    open_scope-Inv s w hs (m, h) = record {
      untouched = λ e. absurd (real_ne (sym m ∙ e));
      slot_owned = h.slot_owned;
      scopes_owned = (
        subst (λ o. Opened core o s.owner s.previous) (sym m) hs,
        remove_scope-All core w.owner w.next_scope w.scopes h.scopes_owned,
      );
      drops_own =
          displaced-own (find_scope core w.next_scope w.scopes)
            (λ old e.
              Opened-Owned core _ old.owner old.previous (
                rw m at
                  (find_scope-Opened core w.owner w.next_scope w.scopes old h.scopes_owned e)))
            w.dropped h.drops_own;
    }

    push_here-Inv :
        (s : Selection) (w : World core) → Mine w → Inv core (push_here core cur env s w).1
    unfolding push_here
    push_here-Inv s w h = elim (Result-cases (build core env s)) [
      | inl (c, e) ↦
          rw (e, push_here)
            (open_scope-Inv _ (record w { slot = some (built core cur env c); selection = s })
              (let (b, v) = resolved-own w h in (b, v, sym (to_bits-injective _ cur v real.0 b)))
              (h.0, fresh_slot-Inv c s w.leaked w h))
      | inr (x, e) ↦ rw (e, push_here) h.1
    ]

    rebuild-Inv : (s : Scope core) (w : World core) → Mine w → Inv core (rebuild core cur env s w).1
    unfolding rebuild
    rebuild-Inv s w h = elim (Result-cases (build core env s.selection)) [
      | inl (c, e) ↦ rw (e, rebuild) (fresh_slot-Inv c s.selection _ w h)
      | inr (x, e) ↦ rw (e, rebuild) (leak-Inv _ w h.1)
    ]

    restore-Inv :
        (s : Scope core) (b : Option (Backend core)) (w : World core)
        → Opened core (to_bits cur) s.owner b
        → Mine w
        → Inv core (restore core cur env s b w).1
    unfolding restore
    restore-Inv s none w hs h = rebuild-Inv s w h
    restore-Inv s (some b) w hs h = elim (Bool-cases (identity_eq s.owner cur)) [
      | inl e ↦ rw e (set_slot-Inv b w s.selection (hs.0, hs.1) h)
      | inr e ↦ rw e (rebuild-Inv s w h)
    ]

    first-Inv :
        (w : World core) → w.owner ≡ 0 → Inv core w → Inv core (record w { owner = to_bits cur })
    first-Inv w z h = record {
      untouched = λ x. absurd (real_ne x);
      slot_owned = rw (h.untouched z).0 tt;
      scopes_owned = rw (h.untouched z).1 tt;
      drops_own = h.drops_own;
    }

    pub ensure-Inv :
        (w : World core) → Inv core w → Inv core (ensure_this_process_backend core cur env w).1
    unfolding ensure_this_process_backend ensured
    ensure-Inv w h =
        adopt_cases core cur env (λ a. Inv core (ensured core cur env a).1) none w (λ _. h)
          (λ z. first-Inv w z h) (λ x _. h) (λ c _ _ _. take_over-Inv none c w h)

    pub set_default_backend-Inv :
        (s : Selection) (w : World core)
        → Inv core w
        → Inv core (set_default_backend core cur env s w).1
    unfolding set_default_backend set_adopted
    set_default_backend-Inv s w h =
        adopt_cases core cur env (λ a. Inv core (set_adopted core cur env s a).1) (some s) w
          (λ m. select-Inv s w (m, h)) (λ z. select-Inv s _ (refl, first-Inv w z h)) (λ x _. h)
          (λ c _ _ _. take_over-Inv (some s) c w h)

    pub push_default_backend-Inv :
        (s : Selection) (w : World core)
        → Inv core w
        → Inv core (push_default_backend core cur env s w).1
    unfolding push_default_backend push_adopted take_over
    push_default_backend-Inv s w h =
        adopt_cases core cur env (λ a. Inv core (push_adopted core cur env s a).1) (some s) w
          (λ m. push_here-Inv s w (m, h)) (λ z. push_here-Inv s _ (refl, first-Inv w z h))
          (λ x _. h) (λ c _ _ _. open_scope-Inv _ _ tt (refl, take_over-Inv (some s) c w h))

    close_scope-Inv :
        (s : Scope core) (w : World core)
        → w.owner ≢ 0
        → Opened core w.owner s.owner s.previous
        → Inv core w
        → Inv core (close_scope core cur env s w).1
    unfolding close_scope pop_adopted take_over
    close_scope-Inv s w ne hs h =
        adopt_cases core cur env (λ a. Inv core (pop_adopted core cur env s a).1) (some s.selection)
          w
          (λ m.
            restore-Inv s s.previous w (subst (λ o. Opened core o s.owner s.previous) m hs) (m, h))
          (λ z. absurd (ne z)) (λ x _. leak-Inv _ w h)
          (λ c _ _ _. leak-Inv _ _ (take_over-Inv (some s.selection) c w h))

    removed-Inv :
        (token : ℕ) (w : World core)
        → Inv core w
        → Inv core (record w { scopes = remove_scope core token w.scopes })
    removed-Inv token w h = record {
      untouched = λ z. ((h.untouched z).0, rw (h.untouched z).1 (remove_scope-nil core token));
      slot_owned = h.slot_owned;
      scopes_owned = remove_scope-All core w.owner token w.scopes h.scopes_owned;
      drops_own = h.drops_own;
    }

    pub pop_default_backend-Inv :
        (token : ℕ) (w : World core)
        → Inv core w
        → Inv core (pop_default_backend core cur env token w).1
    unfolding pop_default_backend
    pop_default_backend-Inv token w h = elim (Option-cases (find_scope core token w.scopes)) [
      | inl e ↦ rw (e, pop_default_backend) h
      | inr (s, e) ↦
          rw (e, pop_default_backend)
            (close_scope-Inv s _ (λ z. found_none core token s (rw (h.untouched z).1 at e))
              (find_scope-Opened core w.owner token w.scopes s h.scopes_owned e)
              (removed-Inv token w h))
    ]
