-- ===== src/Backend/State.antt =====
-- The state that a fork copies: the core's slot for the default backend, this module's record of
-- how it was chosen and by whom it is owned, and the open scopes. A backend that is dropped or
-- leaked (`mem::forget`) is written to a log with the process that does it.
use microsandbox_rb.Common.{ℕ, Option, none, some, List, [], ◌∷◌, ◌==◌, if◌then◌else◌}
use microsandbox_rb.Runtime.Identity.{ProcessIdentity}
use microsandbox_rb.Backend.Build.{Core, Selection, ladder}

module _ (core : Core) where
  -- `Arc<dyn Backend>` with the process whose threads and connections it holds.
  pub record Backend : Type 0 where
    pub builder : ProcessIdentity
    pub config : core.Config

  pub record Scope : Type 0 where
    pub owner : ProcessIdentity
    pub previous : Option Backend
    pub selection : Selection

  pub record Drop : Type 0 where
    pub by : ProcessIdentity
    pub backend : Backend

  pub record World : Type 0 where
    -- The core's default backend; `none` until something resolves it.
    pub slot : Option Backend
    -- `SELECTION`, `BACKEND_OWNER` (packed, 0 for none), `NEXT_BACKEND_SCOPE`, `BACKEND_SCOPES`.
    pub selection : Selection
    pub owner : ℕ
    pub next_scope : ℕ
    pub scopes : List (ℕ × Scope)
    pub dropped : List Drop
    pub leaked : List Drop

  -- The statics as the extension is loaded.
  unfoldable pub loaded : World
  loaded = record {
    slot = none;
    selection = ladder;
    owner = 0;
    next_scope = 1;
    scopes = [];
    dropped = [];
    leaked = [];
  }

  module _ (cur : ProcessIdentity) where
    abbrev pub entry : Backend → Drop
    entry b = record { by = cur; backend = b }

    -- An `Option` that goes out of scope, and one that is forgotten.
    abbrev pub log : Option Backend → List Drop → List Drop
    log none ds = ds
    log (some b) ds = entry b ∷ ds

    abbrev pub forget : Option Backend → World → World
    forget b w = record w { leaked = log b w.leaked }

    -- `microsandbox::set_default_backend`: the backend that it replaces is dropped.
    unfoldable pub set_slot : Backend → World → World
    set_slot b w = record w { slot = some b; dropped = log w.slot w.dropped }

    -- What `default_backend` and `swap_default_backend` find in the slot: an unresolved one is
    -- resolved in this process.
    unfoldable pub resolved : core.Env → World → Backend
    resolved env w = elim w.slot [
      | some b ↦ b
      | none ↦ record { builder = cur; config = core.first_use env }
    ]

    -- `for scope in scopes.values_mut() { forget(scope.previous.take()) }`
    unfoldable pub take_saved : List (ℕ × Scope) → List (ℕ × Scope)
    take_saved [] = []
    take_saved ((t, s) ∷ rest) = (t, record s { previous = none }) ∷ take_saved rest

    unfoldable pub saved : List (ℕ × Scope) → List Drop → List Drop
    saved [] ds = ds
    saved ((t, s) ∷ rest) ds = log s.previous (saved rest ds)

  -- `HashMap::remove` and `HashMap::insert` of the registry.
  unfoldable pub find_scope : ℕ → List (ℕ × Scope) → Option Scope
  find_scope token [] = none
  find_scope token ((t, s) ∷ rest) = if t == token then some s else find_scope token rest

  unfoldable pub remove_scope : ℕ → List (ℕ × Scope) → List (ℕ × Scope)
  remove_scope token [] = []
  remove_scope token ((t, s) ∷ rest) =
      if t == token then remove_scope token rest else (t, s) ∷ remove_scope token rest
