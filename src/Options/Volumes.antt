-- ===== src/Options/Volumes.antt =====
-- The volume mounts of `build_builder` in sandbox.rs.
use microsandbox_rb.Common.{
  ℕ, String, Bool, ◌||◌, Option, none, some, List, [], ◌∷◌, ◌++◌, Result, ok, err, ◌>>=◌,
  if◌then◌else◌, traverse, each,
}
use microsandbox_rb.Common.Text.{◌=?◌}
use microsandbox_rb.Error.{RubyError, base_error}
use microsandbox_rb.Options.Outside.{Outside}
use microsandbox_rb.Options.Conv.{
  opt, opt_or, opt_string, opt_bool, opt_u32, opt_flag, opt_hash_vec, to_hashes, required, set,
  flag,
}
use microsandbox_rb.Options.HostPath.{HostPaths, pin}
use microsandbox_rb.Options.Enums.{
  StatVirtualization, stat_virtualization_from_str, HostPermissions, host_permissions_from_str,
}
use microsandbox_rb.Options.RootDisk.{disk_format_from_str}

-- The calls of the core's mount builder; the first of them says what backs the mount.
pub data MountCall (o : Outside) : Type 0 where
  bind disk named : String → MountCall o
  tmpfs : MountCall o
  size quota : ℕ → MountCall o
  format : o.DiskImageFormat → MountCall o
  fstype : String → MountCall o
  readonly noexec nosuid nodev : MountCall o
  stat_virtualization : StatVirtualization → MountCall o
  host_permissions : HostPermissions → MountCall o
  owner : ℕ → ℕ → MountCall o
  follow_root_symlinks : Bool → MountCall o

pub data MountBacking : Type 0 where
  bind_to disk_at named_as : String → MountBacking
  tmpfs_only : MountBacking

module _ (o : Outside) where
  unfoldable pub backing_call : MountBacking → MountCall o
  backing_call (named_as name) = named name
  backing_call tmpfs_only = tmpfs
  backing_call (disk_at host) = disk host
  backing_call (bind_to host) = bind host

  unfoldable pub owner_call : Option ℕ → Option ℕ → List (MountCall o)
  owner_call (some uid) (some gid) = owner uid gid ∷ []
  owner_call _ none = []
  owner_call none (some _) = []

  -- The settings of a mount after what backs it.
  pub record MountOptions : Type 0 where
    pub size_mib : Option ℕ
    pub quota_mib : Option ℕ
    pub image_format : Option o.DiskImageFormat
    pub inner_fstype : Option String
    pub is_readonly : Bool
    pub is_noexec : Bool
    pub is_nosuid : Bool
    pub is_nodev : Bool
    pub stat : Option StatVirtualization
    pub perms : Option HostPermissions
    pub uid : Option ℕ
    pub gid : Option ℕ
    pub follow : Option Bool

  unfoldable pub option_calls : MountOptions → List (MountCall o)
  unfolding set flag owner_call
  option_calls s =
      set s.size_mib size
      ++ set s.quota_mib quota
      ++ set s.image_format format
      ++ set s.inner_fstype fstype
      ++ flag s.is_readonly readonly
      ++ flag s.is_noexec noexec
      ++ flag s.is_nosuid nosuid
      ++ flag s.is_nodev nodev
      ++ set s.stat stat_virtualization
      ++ set s.perms host_permissions
      ++ owner_call s.uid s.gid
      ++ set s.follow follow_root_symlinks

  module _ (paths : HostPaths) where
    -- `bind`, `disk` and `named` need a source.
    unfoldable pub mount_backing : String → Option String → Result RubyError MountBacking
    unfolding pin
    mount_backing kind (some source) =
        if kind =? "bind"
        then pin o paths source "bind mount host path" >>= (λ p. ok (bind_to p))
        else if kind =? "disk"
        then pin o paths source "disk mount host path" >>= (λ p. ok (disk_at p))
        else if kind =? "named"
        then ok (named_as source)
        else if kind =? "tmpfs"
        then ok tmpfs_only
        else err (
            base_error "unknown volume mount kind {:?} (expected bind/named/tmpfs/disk)"
              (kind ∷ []))
    mount_backing kind none =
        if kind =? "bind" || kind =? "named" || kind =? "disk"
        then err (base_error "volume mount kind {:?} requires a source" (kind ∷ []))
        else if kind =? "tmpfs"
        then ok tmpfs_only
        else err (
            base_error "unknown volume mount kind {:?} (expected bind/named/tmpfs/disk)"
              (kind ∷ []))

    unfoldable pub parse_volume : o.Hash → Result RubyError (String × List (MountCall o))
    unfolding opt opt_or set flag disk_format_from_str stat_virtualization_from_str
        host_permissions_from_str backing_call option_calls mount_backing
    parse_volume m = do
      guest ← required o m "guest" (base_error "volume mount is missing :guest" [])
      kind ← required o m "kind" (base_error "volume mount is missing :kind" [])
      source ← opt_string o m "source"
      size_mib ← opt_u32 o m "size_mib"
      quota_mib ← opt_u32 o m "quota_mib"
      ft ← opt_string o m "fstype"
      ro ← opt_bool o m "readonly"
      ne ← opt_bool o m "noexec"
      ns ← opt_bool o m "nosuid"
      nd ← opt_bool o m "nodev"
      fm ← opt_string o m "format"
      fmt ← traverse (disk_format_from_str o) fm
      sv ← opt_string o m "stat_virtualization"
      stat ← traverse stat_virtualization_from_str sv
      hp ← opt_string o m "host_permissions"
      perms ← traverse host_permissions_from_str hp
      uid ← opt_u32 o m "override_uid"
      gid ← opt_u32 o m "override_gid"
      follow ← opt_flag o m "follow_root_symlinks"
      backing ← mount_backing kind source
      let s : MountOptions = record {
        size_mib = size_mib;
        quota_mib = quota_mib;
        image_format = fmt;
        inner_fstype = ft;
        is_readonly = ro;
        is_noexec = ne;
        is_nosuid = ns;
        is_nodev = nd;
        stat = stat;
        perms = perms;
        uid = uid;
        gid = gid;
        follow = follow;
      } in
          ok (guest, backing_call backing ∷ option_calls s)

    unfoldable pub parse_volumes : o.Hash → Result RubyError (List (String × List (MountCall o)))
    unfolding opt_or each to_hashes parse_volume
    parse_volumes opts = do ms ← opt_hash_vec o opts "volumes"; each parse_volume ms
