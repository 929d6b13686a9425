-- ===== src/Backend/Scopes.antt =====
-- What a `with_backend` scope restores (backend.rs).
use microsandbox_rb.Common.{
  ℕ, ◌+◌, ◌<◌, ◌≡◌, refl, sym, ◌∙◌, subst, none, some, List, ==_iff, Result, ok, All, arith, length,
}
use microsandbox_rb.Error.{RubyError}
use microsandbox_rb.Runtime.Identity.{ProcessIdentity, to_bits, u32_mod}
use microsandbox_rb.Backend.Build.{Core, Selection, build}
use microsandbox_rb.Backend.State.{
  World, Backend, Scope, set_slot, resolved, find_scope, remove_scope,
}
use microsandbox_rb.Backend.Ops.{
  open_scope, push_here, push_default_backend, pop_default_backend, built,
}
use microsandbox_rb.Backend.OpenScopes.{
  Inside, body, Spares, Held, body-Held, pop-Held_self, find_scope-remove_self, push_owned,
}

module _ (core : Core) (cur : ProcessIdentity) where
  push_here_ok :
      (env : core.Env) (s : Selection) (c : core.Config) (w : World core)
      → build core env s ≡ ok c
      → push_here core cur env s w
        ≡ open_scope core cur env
            (record {
              owner = cur;
              previous = some (resolved core cur env w);
              selection = w.selection;
            })
            (record w { slot = some (built core cur env c); selection = s })
  unfolding push_here
  push_here_ok env s c w e = rw (e, push_here)

  opened_Held :
      (env : core.Env) (sc : Scope core) (w : World core)
      → w.owner ≡ to_bits cur
      → w.next_scope < u32_mod
      → Held core cur w.next_scope sc 0 (open_scope core cur env sc w).1
  unfolding open_scope find_scope
  opened_Held env sc w m lt = record {
    mine = m;
    found = rw ((==_iff w.next_scope w.next_scope).1 refl);
    given = (0, omega arith, omega arith);
  }

  set_slot-slot : (b : Backend core) (v : World core) → (set_slot core cur b v).slot ≡ some b
  unfolding set_slot
  set_slot-slot b v = refl

  opened_token :
      (env : core.Env) (sc : Scope core) (w : World core)
      → (open_scope core cur env sc w).0 ≡ ok w.next_scope
  unfolding open_scope
  opened_token env sc w = refl

  -- In a process that owns its backend, a `with_backend` scope whose selection builds hands out
  -- its token, and its pop succeeds and puts back the very backend that was the default before
  -- the push and the selection that went with it. Between them the process may have selected
  -- other backends, used them, and opened and closed other scopes, in any order and number (below
  -- the 2^32 tokens), whether or not those calls succeeded.
  pub pop-body-push :
      (env env' : core.Env) (s : Selection) (c : core.Config) (w : World core)
      (acts : List (core.Env × Inside core cur))
      → w.owner ≡ to_bits cur
      → w.next_scope < u32_mod
      → length acts + 1 < u32_mod
      → build core env s ≡ ok c
      → All (λ ea. Spares core cur w.next_scope ea.1) acts
      → let pushed = push_default_backend core cur env s w in
        let popped = pop_default_backend core cur env' w.next_scope (body core cur acts pushed.1) in
        (pushed.0 ≡ ok w.next_scope)
        × ((popped.0 ≡ ok tt)
            × (popped.1.slot ≡ some (resolved core cur env w))
            × (popped.1.selection ≡ w.selection)
            × (find_scope core w.next_scope popped.1.scopes ≡ none))
  pop-body-push env env' s c w acts m lt k e sp =
      subst Restored (sym (push_owned core cur env s w m ∙ push_here_ok env s c w e)) (
        opened_token env scope swapped,
        subst Back (sym closed)
            (back (body core cur acts (open_scope core cur env scope swapped).1)),
      )
    where
      Back : Result RubyError (Unit {0}) × World core → Type 0
      Back x =
          (x.0 ≡ ok tt)
          × (x.1.slot ≡ some (resolved core cur env w))
          × (x.1.selection ≡ w.selection)
          × (find_scope core w.next_scope x.1.scopes ≡ none)

      Restored : Result RubyError ℕ × World core → Type 0
      Restored x =
          (x.0 ≡ ok w.next_scope)
          × Back (pop_default_backend core cur env' w.next_scope (body core cur acts x.1))

      scope : Scope core
      scope = record {
        owner = cur;
        previous = some (resolved core cur env w);
        selection = w.selection;
      }

      swapped : World core
      swapped = record w { slot = some (built core cur env c); selection = s }

      restored : World core → World core
      restored v = record (set_slot core cur (resolved core cur env w) v) {
        selection = w.selection;
        scopes = remove_scope core w.next_scope v.scopes;
      }

      closed :
          pop_default_backend core cur env' w.next_scope
            (body core cur acts (open_scope core cur env scope swapped).1)
          ≡ (ok tt, restored (body core cur acts (open_scope core cur env scope swapped).1))
      closed =
          pop-Held_self core cur w.next_scope scope env' (resolved core cur env w) (0 + length acts)
            _ refl refl
            (body-Held core cur w.next_scope scope acts 0 _ lt (omega arith) sp
              (opened_Held env scope swapped m lt))

      back : (v : World core) → Back (ok tt, restored v)
      back v = (refl, set_slot-slot _ v, refl, find_scope-remove_self core w.next_scope v.scopes)
