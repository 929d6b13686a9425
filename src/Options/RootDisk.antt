-- ===== src/Options/RootDisk.antt =====
-- The root disk of sandbox.rs.
use microsandbox_rb.Common.{
  ℕ, String, ◌||◌, Option, none, some, List, [], ◌∷◌, ◌++◌, Result, ok, err, ◌>>=◌, if◌then◌else◌,
  traverse, map_err,
}
use microsandbox_rb.Common.Text.{◌=?◌}
use microsandbox_rb.Error.{RubyError, base_error}
use microsandbox_rb.Options.Outside.{Outside}
use microsandbox_rb.Options.Conv.{opt, opt_string, opt_u32, required, set}
use microsandbox_rb.Options.HostPath.{HostPaths, pin}

pub data FlatClone : Type 0 where
  auto copy reflink : FlatClone

unfoldable pub flat_clone_from_str : String → Result RubyError FlatClone
flat_clone_from_str s =
    if s =? "auto"
    then ok auto
    else if s =? "copy"
    then ok copy
    else if s =? "reflink"
    then ok reflink
    else err
        (base_error "unknown root_disk clone strategy {:?} (expected auto/copy/reflink)" (s ∷ []))

pub data RootDiskKind : Type 0 where
  managed tmpfs flat : RootDiskKind
  disk : String → RootDiskKind

module _ (o : Outside) where
  unfoldable pub disk_format_from_str : String → Result RubyError o.DiskImageFormat
  disk_format_from_str s =
      map_err (λ _. base_error "unknown disk format {:?} (expected qcow2/raw/vmdk)" (s ∷ []))
        (o.disk_image_format s)

  pub data RootDiskCall : Type 0 where
    tmpfs_disk flat_disk : RootDiskCall
    disk_image fstype : String → RootDiskCall
    size : ℕ → RootDiskCall
    format : o.DiskImageFormat → RootDiskCall
    clone_strategy : FlatClone → RootDiskCall

  pub record RootDiskSpec : Type 0 where
    pub kind : RootDiskKind
    pub size_mib : Option ℕ
    pub image_format : Option o.DiskImageFormat
    pub inner_fstype : Option String
    pub clone : Option FlatClone

  unfoldable pub kind_calls : RootDiskKind → List RootDiskCall
  kind_calls managed = []
  kind_calls tmpfs = tmpfs_disk ∷ []
  kind_calls (disk path) = disk_image path ∷ []
  kind_calls flat = flat_disk ∷ []

  unfoldable pub apply_root_disk : RootDiskSpec → List RootDiskCall
  unfolding kind_calls set
  apply_root_disk s =
      kind_calls s.kind
      ++ set s.size_mib size
      ++ set s.image_format format
      ++ set s.inner_fstype fstype
      ++ set s.clone clone_strategy

  module _ (paths : HostPaths) where
    unfoldable pub pinned_disk : o.Hash → Result RubyError RootDiskKind
    unfolding opt pin
    pinned_disk h = do
      path ← required o h "path" (base_error "root_disk disk kind requires path:" [])
      p ← pin o paths path "root disk image path"
      ok (disk p)

    unfoldable pub root_disk_kind : Option String → o.Hash → Result RubyError RootDiskKind
    unfolding pinned_disk
    root_disk_kind none h = ok managed
    root_disk_kind (some kind) h =
        if kind =? "managed"
        then ok managed
        else if kind =? "tmpfs"
        then ok tmpfs
        else if kind =? "disk" || kind =? "disk-image" || kind =? "disk_image"
        then pinned_disk h
        else if kind =? "flat"
        then ok flat
        else err (
            base_error "unknown root_disk kind {:?} (expected managed/tmpfs/disk/flat)" (kind ∷ []))

    unfoldable pub root_disk_hash : o.Hash → Result RubyError RootDiskSpec
    unfolding opt root_disk_kind disk_format_from_str flat_clone_from_str
    root_disk_hash h = do
      kind ← opt_string o h "kind"
      k ← root_disk_kind kind h
      f ← opt_string o h "format"
      format_ ← traverse disk_format_from_str f
      c ← opt_string o h "clone"
      clone ← traverse flat_clone_from_str c
      mib ← opt_u32 o h "size_mib"
      ft ← opt_string o h "fstype"
      ok (record {
        kind = k;
        size_mib = mib;
        image_format = format_;
        inner_fstype = ft;
        clone = clone;
      })

    unfoldable pub parse_root_disk : o.Value → Result RubyError RootDiskSpec
    unfolding root_disk_hash
    parse_root_disk v = elim (o.to_u32 v) [
      | ok mib ↦ ok (record {
        kind = managed;
        size_mib = some mib;
        image_format = none;
        inner_fstype = none;
        clone = none;
      })
      | err _ ↦ do
        h ←
            map_err
              (λ _.
                base_error
                  "root_disk: expects an Integer (managed size in MiB) or a Hash (use Microsandbox::RootDisk.managed/tmpfs/disk/flat)"
                  [])
              (o.to_hash v)
        root_disk_hash h
    ]
