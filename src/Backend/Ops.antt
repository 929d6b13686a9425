-- ===== src/Backend/Ops.antt =====
-- The operations. Each runs with the GVL held and calls nothing that releases it, so it is one
-- step; `cur` is the process that calls, `env` its surroundings. The four arguments of a selecting
-- call are the `explicit` selection that they make.
use microsandbox_rb.Common.{
  ℕ, ◌+◌, ◌%◌, String, Option, none, some, List, [], ◌∷◌, ◌==◌, if◌then◌else◌, Result, ok, err,
}
use microsandbox_rb.Error.{RubyError, MicrosandboxError, Operation, to_ruby, base_error}
use microsandbox_rb.Runtime.Identity.{ProcessIdentity, identity_eq, to_bits, u32_mod}
use microsandbox_rb.Backend.Build.{Core, Selection, build}
use microsandbox_rb.Backend.State.{
  World, Backend, Scope, Drop, set_slot, resolved, take_saved, saved, log, forget, find_scope,
  remove_scope,
}

module _ (core : Core) (cur : ProcessIdentity) (env : core.Env) where
  abbrev pub built : core.Config → Backend core
  built config = record { builder = cur; config = config }

  -- `replacement.build()` or `SELECTION.build()`
  abbrev pub chosen : Option Selection → World core → Selection
  chosen none w = w.selection
  chosen (some s) w = s

  -- The swap, the leaks and the new records of a takeover.
  unfoldable pub take_over : Option Selection → core.Config → World core → World core
  unfolding resolved saved take_saved
  take_over replacement config w = record w {
    slot = some (built config);
    selection = chosen replacement w;
    owner = to_bits cur;
    scopes = take_saved core cur w.scopes;
    leaked =
        saved core cur w.scopes (record { by = cur; backend = resolved core cur env w } ∷ w.leaked);
  }

  abbrev pub inherited : Option Selection → World core → Option Selection
  inherited none w = none
  inherited (some _) w = some w.selection

  unfoldable pub adopt_backend :
      Option Selection → World core → Result MicrosandboxError (Option Selection) × World core
  unfolding take_over
  adopt_backend replacement w =
      if w.owner == to_bits cur
      then (ok none, w)
      else if w.owner == 0
      then (ok none, record w { owner = to_bits cur })
      else elim (build core env (chosen replacement w)) [
        | err e ↦ (err e, w)
        | ok config ↦ (ok (inherited replacement w), take_over replacement config w)
      ]

  unfoldable pub ensured :
      Result MicrosandboxError (Option Selection) × World core
      → Result RubyError (Unit {0}) × World core
  ensured (ok _, w) = (ok tt, w)
  ensured (err e, w) = (err (to_ruby e), w)

  unfoldable pub ensure_this_process_backend : World core → Result RubyError (Unit {0}) × World core
  unfolding adopt_backend ensured
  ensure_this_process_backend w = ensured (adopt_backend none w)

  -- The rest of `set_default_backend` in a process that owns its backend.
  unfoldable pub select : Selection → World core → Result RubyError (Unit {0}) × World core
  unfolding set_slot
  select selection w = elim (build core env selection) [
    | err e ↦ (err (to_ruby e), w)
    | ok config ↦ (ok tt, record (set_slot core cur (built config) w) { selection = selection })
  ]

  unfoldable pub set_adopted :
      Selection
      → Result MicrosandboxError (Option Selection) × World core
      → Result RubyError (Unit {0}) × World core
  unfolding select
  set_adopted selection (err e, w) = (err (to_ruby e), w)
  set_adopted selection (ok (some _), w) = (ok tt, w)
  set_adopted selection (ok none, w) = select selection w

  unfoldable pub set_default_backend :
      Selection → World core → Result RubyError (Unit {0}) × World core
  unfolding adopt_backend set_adopted
  set_default_backend selection w = set_adopted selection (adopt_backend (some selection) w)

  -- A scope that `insert` displaces is dropped, with the backend that it saved.
  abbrev pub displaced : Option (Scope core) → List (Drop core) → List (Drop core)
  displaced none ds = ds
  displaced (some old) ds = log core cur old.previous ds

  -- `fetch_add` on the token counter and `insert`.
  unfoldable pub open_scope : Scope core → World core → Result RubyError ℕ × World core
  unfolding find_scope remove_scope
  open_scope scope w =
      let token = w.next_scope in
      (
        ok token,
        record w {
          next_scope = (token + 1) % u32_mod;
          scopes = (token, scope) ∷ remove_scope core token w.scopes;
          dropped = displaced (find_scope core token w.scopes) w.dropped;
        },
      )

  unfoldable pub push_here : Selection → World core → Result RubyError ℕ × World core
  unfolding resolved open_scope
  push_here selection w = elim (build core env selection) [
    | err e ↦ (err (to_ruby e), w)
    | ok config ↦
        open_scope
          (record {
            owner = cur;
            previous = some (resolved core cur env w);
            selection = w.selection;
          })
          (record w { slot = some (built config); selection = selection })
  ]

  unfoldable pub push_adopted :
      Selection
      → Result MicrosandboxError (Option Selection) × World core
      → Result RubyError ℕ × World core
  unfolding push_here open_scope
  push_adopted selection (err e, w) = (err (to_ruby e), w)
  push_adopted selection (ok (some before), w) =
      open_scope (record { owner = cur; previous = none; selection = before }) w
  push_adopted selection (ok none, w) = push_here selection w

  unfoldable pub push_default_backend : Selection → World core → Result RubyError ℕ × World core
  unfolding adopt_backend push_adopted
  push_default_backend selection w = push_adopted selection (adopt_backend (some selection) w)

  -- A backend built anew from how the saved one had been chosen; the one that it replaces is
  -- forgotten.
  unfoldable pub rebuild : Scope core → World core → Result RubyError (Unit {0}) × World core
  unfolding resolved
  rebuild scope w =
      let w' = forget core cur scope.previous w in
      elim (build core env scope.selection) [
        | err e ↦ (err (to_ruby e), w')
        | ok config ↦ (
          ok tt,
          record w' {
            slot = some (built config);
            selection = scope.selection;
            leaked = record { by = cur; backend = resolved core cur env w' } ∷ w'.leaked;
          },
        )
      ]

  -- The last part of `pop_default_backend`, in a process that owns its backend.
  unfoldable pub restore :
      Scope core → Option (Backend core) → World core → Result RubyError (Unit {0}) × World core
  unfolding rebuild set_slot
  restore scope none w = rebuild scope w
  restore scope (some previous) w =
      if identity_eq scope.owner cur
      then (ok tt, record (set_slot core cur previous w) { selection = scope.selection })
      else rebuild scope w

  unfoldable pub pop_adopted :
      Scope core
      → Result MicrosandboxError (Option Selection) × World core
      → Result RubyError (Unit {0}) × World core
  unfolding restore
  pop_adopted scope (ok (some _), w) = (ok tt, forget core cur scope.previous w)
  pop_adopted scope (ok none, w) = restore scope scope.previous w
  pop_adopted scope (err e, w) = (err (to_ruby e), forget core cur scope.previous w)

  unfoldable pub close_scope : Scope core → World core → Result RubyError (Unit {0}) × World core
  unfolding adopt_backend pop_adopted
  close_scope scope w = pop_adopted scope (adopt_backend (some scope.selection) w)

  unfoldable pub pop_default_backend : ℕ → World core → Result RubyError (Unit {0}) × World core
  unfolding close_scope find_scope remove_scope
  pop_default_backend token w = elim (find_scope core token w.scopes) [
    | none ↦ (err (base_error "unknown backend scope token" []), w)
    | some scope ↦ close_scope scope (record w { scopes = remove_scope core token w.scopes })
  ]

  -- `microsandbox::default_backend()`: resolves the slot in this process if nothing has.
  unfoldable pub default_backend : World core → Backend core × World core
  unfolding resolved
  default_backend w = let b = resolved core cur env w in (b, record w { slot = some b })

  unfoldable pub kind_ensured :
      Result RubyError (Unit {0}) × World core → Result RubyError String × World core
  unfolding default_backend
  kind_ensured (err e, w) = (err e, w)
  kind_ensured (ok _, w) =
      let (b, w') = default_backend w in
      (ok (if core.is_local b.config then "local" else "cloud"), w')

  unfoldable pub default_backend_kind : World core → Result RubyError String × World core
  unfolding ensure_this_process_backend kind_ensured
  default_backend_kind w = kind_ensured (ensure_this_process_backend w)

  -- `local_backend`: as inside a `block_on`, which has made the backend this process's.
  unfoldable pub local_backend :
      Operation → World core → Result MicrosandboxError (Backend core) × World core
  unfolding default_backend
  local_backend op w =
      let (b, w') = default_backend w in
      ((if core.is_local b.config then ok b else err (core.local_only op)), w')
