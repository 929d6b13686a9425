-- ===== src/Native/Sandbox/Creating.antt =====
-- A create call from end to end: the backend's choice, the reading of the options and the request.
use microsandbox_rb.Common.{◌≡◌, refl, subst, ◌∙◌, true, String, List, Result, ok, err, All, ap}
use microsandbox_rb.Common.Successes.{Ok}
use microsandbox_rb.Error.{RubyError}
use microsandbox_rb.Runtime.Identity.{to_bits}
use microsandbox_rb.Runtime.Nogvl.{Exit, returned, unwinding}
use microsandbox_rb.Backend.Build.{Core}
use microsandbox_rb.Backend.State.{World}
use microsandbox_rb.Backend.Ops.{ensure_this_process_backend, default_backend}
use microsandbox_rb.Backend.History.{ensure-Mine}
use microsandbox_rb.Options.Outside.{Outside}
use microsandbox_rb.Options.HostPath.{is_absolute}
use microsandbox_rb.Options.Policy.{Policies}
use microsandbox_rb.Options.Calls.{Call as BuilderCall}
use microsandbox_rb.Options.PinnedPaths.{PinnedCall}
use microsandbox_rb.Options.Create.{
  paths_ensured, for_default_backend, builder_read, builder_ensured, build_builder,
}
use microsandbox_rb.Options.CreateLaws.{IsLocal, build_builder-Pinned}
use microsandbox_rb.Sessions.{block_on, block_on_ensured}
use microsandbox_rb.Native.Call.{Site, State, Call, lift, serve, next, and_then, ask, asked, shaped}
use microsandbox_rb.Native.Objects.{Objects}
use microsandbox_rb.Native.Shapes.{Reaches, asked-Reaches, Ok-every}
use microsandbox_rb.Native.Answers.{ensure_own}
use microsandbox_rb.Native.Sandbox.Requests.{SandboxRequest, SandboxReply}
use microsandbox_rb.Native.Sandbox.Class.{Answer, create, from_sandbox}

module _ {core : Core} {Req : Type 0} {Reply : Req → Type 0} (site : Site core Reply) where
  next-world :
      {A Q : Type 0} (k : A → Result RubyError Q) (x : Exit A × State site)
      → (next site (λ a. lift site (k a)) x).1.world ≡ x.1.world
  unfolding next
  next-world k (returned (ok a), s) = refl
  next-world k (returned (err e), s) = refl
  next-world k (unwinding, s) = refl

  -- In a process that owns its backend, a request leaves the backend alone.
  asked-world :
      {Q : Type 0} (q : Req) (k : Reply q → Result RubyError Q) (s : State site)
      → s.world.owner ≡ to_bits site.cur
      → (asked site q k s).1.world ≡ s.world
  unfolding asked and_then ask block_on block_on_ensured
  asked-world q k s own = next-world k (ask site q s) ∙ rw (ensure_own site s.world own) refl

  Reaches-outer :
      (P : Req → Type 0) {Q : Type 0} (s u : State site) (x : Exit Q × State site)
      → u.outer ≡ s.outer
      → Reaches site P u x
      → Reaches site P s x
  Reaches-outer P s u x e (Reaches.raised d r st) = Reaches.raised d r (st ∙ e)
  Reaches-outer P s u x e (Reaches.reached q h st m) =
      Reaches.reached q h (st ∙ ap (λ v. (serve site q v).1) e) m

module _ {core : Core} (o : Outside) (t : Objects) (site : Site core (SandboxReply o t))
    (policies : Policies o)
    -- `std::path::absolute` returns absolute paths.
    (absolute-IsAbsolute : (p q : String) → o.absolute p ≡ ok q → is_absolute q ≡ true) where
  -- A request to create the named sandbox, with pinned calls of the builder.
  abbrev pub Creates : String → SandboxRequest o t → Type 0
  Creates name q = elim q [
    | SandboxRequest.create n calls ↦ (n ≡ name) × All (PinnedCall o) calls
    | _ ↦ ⊥
  ]

  abbrev Owned : Result RubyError (List (BuilderCall o)) × World core → Type 0
  Owned r = Ok (λ calls. r.1.owner ≡ to_bits site.cur) r.0

  read-Owned :
      (opts : o.Hash) (r : Result RubyError (Unit {0}) × World core)
      → (r.0 ≡ ok tt → r.1.owner ≡ to_bits site.cur)
      → Owned (
          builder_read core site.cur site.env o policies opts
            (paths_ensured core site.cur site.env r))
  unfolding builder_read paths_ensured default_backend
  read-Owned opts (err e, w) m = tt
  read-Owned opts (ok _, w) m = Ok-every site (λ (q : SandboxRequest o t). Unit) _ (λ _. m refl)

  ensured-Owned :
      (opts : o.Hash) (r : Result RubyError (Unit {0}) × World core)
      → Owned (builder_ensured core site.cur site.env o policies opts r)
  unfolding builder_ensured for_default_backend
  ensured-Owned opts (err e, w) = tt
  ensured-Owned opts (ok _, w) =
      read-Owned opts
        (ensure_this_process_backend core site.cur site.env
          (default_backend core site.cur site.env w).1)
        (ensure-Mine core site.cur site.env _)

  build_builder-Owned :
      (opts : o.Hash) (w : World core)
      → Owned (build_builder core site.cur site.env o policies opts w)
  unfolding build_builder
  build_builder-Owned opts w =
      ensured-Owned opts (ensure_this_process_backend core site.cur site.env w)

  abbrev pub IsOnLocal : World core → Type 0
  IsOnLocal = IsLocal core site.cur site.env o policies absolute-IsAbsolute

  abbrev request :
      String → Result RubyError (List (BuilderCall o)) × World core → Call site (Answer o t site)
  request name r s =
      next site
        (λ calls. asked site (SandboxRequest.create name calls) (shaped (from_sandbox o t site)))
        (returned r.0, record s { world = r.1 })

  request-Pinned :
      (name : String) (r : Result RubyError (List (BuilderCall o)) × World core) (s : State site)
      → Owned r
      → (IsOnLocal r.1 → Ok (All (PinnedCall o)) r.0)
      → IsOnLocal (request name r s).1.world
      → Reaches site (Creates name) s (request name r s)
  unfolding next
  request-Pinned name (err e, w) s own pinned l = Reaches.raised e refl refl
  request-Pinned name (ok calls, w) s own pinned l =
      let u : State site = record s { world = w } in
      let q = SandboxRequest.create name calls in
      Reaches-outer site (Creates name) s u _ refl (
        asked-Reaches site (Creates name) u q _
          (refl, pinned (subst IsOnLocal (asked-world site q _ u own) l)))

  -- Given that `std::path::absolute` returns absolute paths: when `Sandbox.create` leaves the process
  -- on a local backend, it either raises with the core as it was, or it has asked the core once, in a
  -- process that owns its backend, to create a sandbox of that name, and the image, the snapshot, the
  -- bind and disk mounts, the sources of copying patches, the root disk image and the TLS files of
  -- that request carry no host path that is relative, unless it is empty. The host socket of a vsock route is not pinned.
  pub create-Pinned :
      (name : String) (opts : o.Hash) (s : State site)
      → IsOnLocal (create o t site policies name opts s).1.world
      → Reaches site (Creates name) s (create o t site policies name opts s)
  unfolding create and_then
  create-Pinned name opts s =
      request-Pinned name (build_builder core site.cur site.env o policies opts s.world) s
        (build_builder-Owned opts s.world)
        (build_builder-Pinned core site.cur site.env o policies absolute-IsAbsolute opts s.world)
