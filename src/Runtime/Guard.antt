-- ===== src/Runtime/Guard.antt =====
-- `ForkGuarded<T>`: a payload bound to the process that made it, and `fork_identity_guard` of lib.rs.
use microsandbox_rb.Common.{
  ℕ, ◌+◌, ◌<◌, ◌≡◌, refl, String, List, [], ◌∷◌, Result, ok, err, length, arith, if◌then◌else◌,
}
use microsandbox_rb.Error.{RubyError, forked_handle}
use microsandbox_rb.Runtime.Identity.{
  ProcessIdentity, from_parts, identity_eq, identity_eq_refl, descend, descend-ne, u32_mod,
}

pub record ForkGuarded {ℓ} (T : Type ℓ) : Type ℓ where
  pub owner : ProcessIdentity
  pub class : String
  pub inner : T

module _ {ℓ} {T : Type ℓ} where
  unfoldable pub owned_by : ProcessIdentity → String → T → ForkGuarded T
  owned_by owner class inner = record { owner = owner; class = class; inner = inner }

  -- `ForkGuarded::new`, in the process `cur`.
  unfoldable pub guarded : ProcessIdentity → String → T → ForkGuarded T
  guarded cur class inner = record { owner = cur; class = class; inner = inner }

  -- `get_in`; `get` is this at the process that calls.
  unfoldable pub get_in : ForkGuarded T → ProcessIdentity → Result RubyError T
  get_in g cur =
      if identity_eq g.owner cur
      then ok g.inner
      else err (forked_handle g.class g.owner.pid cur.pid)

  abbrev pub peek : ForkGuarded T → T
  peek g = g.inner

  -- `Drop`: the payloads whose destructor runs, in the process `cur`.
  unfoldable pub drop : ForkGuarded T → ProcessIdentity → List T
  drop g cur = if identity_eq g.owner cur then g.inner ∷ [] else []

  -- The destructor of a payload runs in exactly the processes that may use it, and there once; in
  -- the others it is leaked.
  pub drop-get_in :
      (g : ForkGuarded T) (cur : ProcessIdentity)
      → drop g cur ≡ elim (get_in g cur) [ ok payload ↦ payload ∷ [] | err _ ↦ [] ]
  unfolding drop get_in
  drop-get_in g cur = ground arith

  -- A handle works in the process that made it. In every descendant, by fewer than 2^32 forks and
  -- with whatever pids, it is refused with a `ForkedHandleError`, dropping it there destroys
  -- nothing, and its plain data stays readable.
  pub get_in-descend :
      (p : ProcessIdentity) (class : String) (payload : T) (pid : ℕ) (pids : List ℕ)
      → p.generation < u32_mod
      → length pids + 1 < u32_mod
      → (get_in (guarded p class payload) p ≡ ok payload)
        × (get_in (guarded p class payload) (descend (pid ∷ pids) p)
            ≡ err (forked_handle class p.pid (descend (pid ∷ pids) p).pid))
        × (drop (guarded p class payload) (descend (pid ∷ pids) p) ≡ [])
        × (peek (guarded p class payload) ≡ payload)
  unfolding get_in drop guarded
  get_in-descend p class payload pid pids h k =
      (rw identity_eq_refl, rw (descend-ne pid pids p h k), rw (descend-ne pid pids p h k), refl)

-- `fork_identity_guard`: the check of a guard with no payload.
unfoldable pub fork_identity_guard : ℕ → ℕ → ℕ → ℕ → Result RubyError (Unit {0})
unfolding get_in owned_by
fork_identity_guard born_pid born_gen cur_pid cur_gen =
    get_in (owned_by (from_parts born_pid born_gen) "Microsandbox::VolumeFs" tt)
      (from_parts cur_pid cur_gen)
