-- ===== src/Native/Snapshots.antt =====
-- The functions of the class `Snapshot` (snapshot.rs).
use microsandbox_rb.Common.{
  ℕ, String, Bool, Option, none, some, List, [], ◌∷◌, ◌++◌, map, Result, ok, err, ◌>>=◌,
  if◌then◌else◌,
}
use microsandbox_rb.Error.{RubyError, MicrosandboxError, base_error}
use microsandbox_rb.Backend.Build.{Core}
use microsandbox_rb.Backend.State.{Backend, World}
use microsandbox_rb.Backend.Ops.{ensure_this_process_backend, default_backend}
use microsandbox_rb.Options.Outside.{Outside}
use microsandbox_rb.Options.Conv.{
  opt, opt_or, opt_string, opt_bool, opt_string_map, set, flag, required,
}
use microsandbox_rb.Values.Hashes.{nil, nat}
use microsandbox_rb.Values.Results.{hash_array}
use microsandbox_rb.Values.Stores.{
  Snapshot, SnapshotHandle, SnapshotVerifyReport, snapshot_to_hash, snapshot_handle_to_hash,
  verify_report_to_hash,
}
use microsandbox_rb.Native.Call.{Site, Call, lift, and_then, on_world, shaped, asked, asked_with}
use microsandbox_rb.Native.Objects.{Objects, Given, plain}

-- The calls of the core's snapshot builder.
pub data SnapshotCall : Type 0 where
  from_sandbox dest_dir : String → SnapshotCall
  label : String × String → SnapshotCall
  force record_integrity resumable : SnapshotCall

pub record SaveOpts : Type 0 where
  pub with_parents : Bool
  pub with_image : Bool
  pub plain_tar : Bool

module _ (o : Outside) where
  unfoldable pub create_calls : o.Hash → Result RubyError (List SnapshotCall)
  unfolding opt opt_or set flag
  create_calls opts = do
    src ←
        required o opts "from_sandbox"
          (base_error "snapshot create needs from_sandbox: (the source sandbox name)" [])
    dir ← opt_string o opts "dest_dir"
    labels ← opt_string_map o opts "labels"
    f ← opt_bool o opts "force"
    i ← opt_bool o opts "record_integrity"
    r ← opt_bool o opts "resumable"
    ok (
        from_sandbox src
        ∷ (set dir dest_dir
            ++ (map label labels
                ++ (flag f force ++ (flag i record_integrity ++ flag r resumable)))))

  unfoldable pub save_opts : o.Hash → Result RubyError SaveOpts
  unfolding opt_or
  save_opts opts = do
    p ← opt_bool o opts "with_parents"
    i ← opt_bool o opts "with_image"
    t ← opt_bool o opts "plain_tar"
    ok (record { with_parents = p; with_image = i; plain_tar = t })

  -- `open_and_verify` is `Snapshot::open` and then `verify`, in one call.
  pub data SnapshotRequest : Type 0 where
    create : String → List SnapshotCall → SnapshotRequest
    open_artifact list_dir reindex get_by_name open_and_verify : String → SnapshotRequest
    list : SnapshotRequest
    remove : String → Bool → SnapshotRequest
    save : String → String → SaveOpts → SnapshotRequest
    load : String → Option String → SnapshotRequest

  abbrev pub SnapshotReply : SnapshotRequest → Type 0
  SnapshotReply (create _ _) = Result MicrosandboxError (Snapshot o)
  SnapshotReply (open_artifact _) = Result MicrosandboxError (Snapshot o)
  SnapshotReply (list_dir _) = Result MicrosandboxError (List (Snapshot o))
  SnapshotReply (reindex _) = Result MicrosandboxError ℕ
  SnapshotReply (get_by_name _) = Result MicrosandboxError (SnapshotHandle o)
  SnapshotReply (open_and_verify _) = Result MicrosandboxError (SnapshotVerifyReport o)
  SnapshotReply list = Result MicrosandboxError (List (SnapshotHandle o))
  SnapshotReply (remove _ _) = Result MicrosandboxError (Unit {0})
  SnapshotReply (save _ _ _) = Result MicrosandboxError (Unit {0})
  SnapshotReply (load _ _) = Result MicrosandboxError (SnapshotHandle o)

module _ {core : Core} (o : Outside) (t : Objects) (site : Site core (SnapshotReply o)) where
  abbrev pub Answer : Type 0
  Answer = Given core o t

  abbrev full : Snapshot o → Answer
  full s = plain (snapshot_to_hash o s)

  abbrev indexed : SnapshotHandle o → Answer
  indexed h = plain (snapshot_handle_to_hash o h)

  unfoldable pub create_snapshot : String → o.Hash → Call site Answer
  create_snapshot name opts =
      asked_with site (create_calls o opts) (SnapshotRequest.create name) (λ _. shaped full)

  unfoldable pub open_snapshot : String → Call site Answer
  open_snapshot name = asked site (SnapshotRequest.open_artifact name) (shaped full)

  unfoldable pub list_snapshot_dir : String → Call site Answer
  list_snapshot_dir dir =
      asked site (SnapshotRequest.list_dir dir)
        (shaped (λ ss. plain (hash_array o (snapshot_to_hash o) ss)))

  -- The directory of the local backend, `snapshots_dir` being the core's, or `.` on another.
  unfoldable pub dir_ensured :
      (Backend core → String)
      → Result RubyError (Unit {0}) × World core
      → Result RubyError String × World core
  unfolding default_backend
  dir_ensured snapshots_dir (err e, w) = (err e, w)
  dir_ensured snapshots_dir (ok _, w) =
      let (b, w') = default_backend core site.cur site.env w in
      (ok (if core.is_local b.config then snapshots_dir b else "."), w')

  abbrev dir_or_default : (Backend core → String) → Option String → Call site String
  dir_or_default snapshots_dir (some d) = lift site (ok d)
  dir_or_default snapshots_dir none =
      on_world site
        (λ w. dir_ensured snapshots_dir (ensure_this_process_backend core site.cur site.env w))

  unfoldable pub reindex_snapshots : (Backend core → String) → Option String → Call site Answer
  reindex_snapshots snapshots_dir dir =
      and_then site (dir_or_default snapshots_dir dir)
        (λ d. asked site (SnapshotRequest.reindex d) (shaped (λ n. plain (nat o n))))

  unfoldable pub get_snapshot : String → Call site Answer
  get_snapshot name = asked site (SnapshotRequest.get_by_name name) (shaped indexed)

  unfoldable pub list_snapshots : Call site Answer
  list_snapshots =
      asked site SnapshotRequest.list
        (shaped (λ hs. plain (hash_array o (snapshot_handle_to_hash o) hs)))

  unfoldable pub remove_snapshot : String → Bool → Call site Answer
  remove_snapshot name forced =
      asked site (SnapshotRequest.remove name forced) (shaped (λ _. plain nil))

  unfoldable pub verify_snapshot : String → Call site Answer
  verify_snapshot name =
      asked site (SnapshotRequest.open_and_verify name)
        (shaped (λ r. plain (verify_report_to_hash o r)))

  unfoldable pub save_snapshot : String → String → o.Hash → Call site Answer
  save_snapshot name out opts =
      asked_with site (save_opts o opts) (SnapshotRequest.save name out)
        (λ _. shaped (λ _. plain nil))

  unfoldable pub load_snapshot : String → Option String → Call site Answer
  load_snapshot archive dest = asked site (SnapshotRequest.load archive dest) (shaped indexed)
