-- ===== src/Options/CreateLaws.antt =====
-- A create call on a local backend, from the backend's choice to the calls of the core's builder.
use microsandbox_rb.Common.{
  ◌≡◌, ap, subst, sym, ◌∙◌, String, true, some, List, Result, ok, err, All,
}
use microsandbox_rb.Common.Successes.{Ok}
use microsandbox_rb.Error.{RubyError}
use microsandbox_rb.Runtime.Identity.{ProcessIdentity}
use microsandbox_rb.Backend.Build.{Core}
use microsandbox_rb.Backend.State.{World, Backend, resolved}
use microsandbox_rb.Backend.Ops.{ensure_this_process_backend, default_backend}
use microsandbox_rb.Options.Outside.{Outside}
use microsandbox_rb.Options.HostPath.{is_absolute}
use microsandbox_rb.Options.Policy.{Policies}
use microsandbox_rb.Options.Calls.{Call}
use microsandbox_rb.Options.Builder.{builder_calls}
use microsandbox_rb.Options.Create.{paths_ensured, builder_read, builder_ensured, build_builder}
use microsandbox_rb.Options.PinnedPaths.{PinnedCall}
use microsandbox_rb.Options.PinnedBuilder.{builder_calls-Pinned}

module _ (core : Core) (cur : ProcessIdentity) (env : core.Env) (o : Outside)
    (policies : Policies o)
    -- `std::path::absolute` returns absolute paths.
    (absolute-IsAbsolute : (p q : String) → o.absolute p ≡ ok q → is_absolute q ≡ true) where
  -- The process's backend is local.
  abbrev pub IsLocal : World core → Type 0
  IsLocal w = (b : Backend core) × (w.slot ≡ some b) × (core.is_local b.config ≡ true)

  abbrev Good : Result RubyError (List (Call o)) × World core → Type 0
  Good r = IsLocal r.1 → Ok (All (PinnedCall o)) r.0

  read-Good :
      (opts : o.Hash) (r : Result RubyError (Unit {0}) × World core)
      → Good (builder_read core cur env o policies opts (paths_ensured core cur env r))
  unfolding builder_read paths_ensured default_backend
  read-Good opts (err e, w) l = tt
  read-Good opts (ok _, w) (b, e, l) =
      let same : resolved core cur env w ≡ b = cc in
      subst (λ x. Ok (All (PinnedCall o)) (builder_calls o policies (record { local = x }) opts))
        (sym l ∙ ap (λ (y : Backend core). core.is_local y.config) (sym same))
        (builder_calls-Pinned o absolute-IsAbsolute policies opts)

  -- Given that `std::path::absolute` returns absolute paths: when a create call leaves the process
  -- on a local backend, its builder either fails, or the image, the snapshot, the bind and disk
  -- mounts, the sources of copying patches, the root disk image and the TLS files that it is handed
  -- carry no host path that is relative, unless it is empty. An image that is handed over as a text is none that the core reads
  -- as a relative path; a snapshot handed over as a name has no `/` and begins with neither `.` nor
  -- `~`. The host socket of a vsock route is not pinned.
  pub build_builder-Pinned :
      (opts : o.Hash) (w : World core)
      → let after = build_builder core cur env o policies opts w in
        IsLocal after.1 → Ok (All (PinnedCall o)) after.0
  unfolding build_builder
  build_builder-Pinned opts w = ensured (ensure_this_process_backend core cur env w)
    where
      ensured :
          (r : Result RubyError (Unit {0}) × World core)
          → Good (builder_ensured core cur env o policies opts r)
      ensured (err e, w) l = tt
      ensured (ok _, w) l =
          read-Good opts
            (ensure_this_process_backend core cur env (default_backend core cur env w).1) l
