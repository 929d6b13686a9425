-- ===== src/Options/PinnedMounts.antt =====
-- Host paths in volume mounts and patches (sandbox.rs).
use microsandbox_rb.Common.{
  ℕ, ◌≡◌, inl, inr, String, Bool, true, false, ◌||◌, Option, none, some, List, ◌++◌, ok, All,
  All-append, Bool-cases,
}
use microsandbox_rb.Common.Successes.{Ok, skip, bind-Ok, each-Ok}
use microsandbox_rb.Common.Text.{◌=?◌}
use microsandbox_rb.Options.Outside.{Outside}
use microsandbox_rb.Options.Conv.{set, flag}
use microsandbox_rb.Options.HostPath.{pin, is_absolute}
use microsandbox_rb.Options.Pinned.{on_local, IsPinned, pin-IsPinned}
use microsandbox_rb.Options.Patches.{
  Patch, copy_file, copy_dir, parse_copy, parse_kind, parse_patch, parse_patches,
}
use microsandbox_rb.Options.Volumes.{
  MountCall, MountOptions, option_calls, bind, disk, MountBacking, bind_to, disk_at, backing_call,
  owner_call, mount_backing, parse_volume, parse_volumes,
}

pub set-All {ℓ κ ν} :
    {A : Type ℓ} {C : Type κ} (P : C → Type ν) (call : A → C)
    → ((a : A) → P (call a))
    → (v : Option A) → All P (set v call)
unfolding set
set-All P call h none = tt
set-All P call h (some a) = (h a, tt)

pub flag-All {ℓ ν} : {C : Type ℓ} (P : C → Type ν) (c : C) → P c → (b : Bool) → All P (flag b c)
unfolding flag
flag-All P c h true = (h, tt)
flag-All P c h false = tt

pub join {ℓ κ} :
    {A : Type ℓ} (P : A → Type κ) (xs ys : List A) → All P xs → All P ys → All P (xs ++ ys)
join P xs ys hx hy = All-append P xs ys hx hy

module _ (o : Outside) where
  abbrev pub PinnedMount : MountCall o → Type 0
  PinnedMount (bind p) = IsPinned p
  PinnedMount (disk p) = IsPinned p
  PinnedMount _ = Unit

  abbrev pub PinnedPatch : Patch o → Type 0
  PinnedPatch (copy_file src _ _ _) = IsPinned src
  PinnedPatch (copy_dir src _ _) = IsPinned src
  PinnedPatch _ = Unit

  abbrev pub PinnedBacking : MountBacking → Type 0
  PinnedBacking (bind_to p) = IsPinned p
  PinnedBacking (disk_at p) = IsPinned p
  PinnedBacking _ = Unit

  backing_call-Pinned : (b : MountBacking) → PinnedBacking b → PinnedMount (backing_call o b)
  unfolding backing_call
  backing_call-Pinned (bind_to p) h = h
  backing_call-Pinned (disk_at p) h = h
  backing_call-Pinned (MountBacking.named_as p) h = tt
  backing_call-Pinned MountBacking.tmpfs_only h = tt

  owner_call-Pinned : (u g : Option ℕ) → All PinnedMount (owner_call o u g)
  unfolding owner_call
  owner_call-Pinned (some u) (some g) = (tt, tt)
  owner_call-Pinned none none = tt
  owner_call-Pinned (some u) none = tt
  owner_call-Pinned none (some g) = tt

  abbrev pub PinnedVolume : String × List (MountCall o) → Type 0
  PinnedVolume (guest, calls) = All PinnedMount calls

  option_calls-Pinned : (s : MountOptions o) → All PinnedMount (option_calls o s)
  unfolding option_calls
  option_calls-Pinned s =
      join PinnedMount _ _
        (join PinnedMount _ _
          (join PinnedMount _ _
            (join PinnedMount _ _
              (join PinnedMount _ _
                (join PinnedMount _ _
                  (join PinnedMount _ _
                    (join PinnedMount _ _
                      (join PinnedMount _ _
                        (join PinnedMount _ _
                          (join PinnedMount _ _
                            (set-All PinnedMount MountCall.size (λ a. tt) s.size_mib)
                            (set-All PinnedMount MountCall.quota (λ a. tt) s.quota_mib))
                          (set-All PinnedMount MountCall.format (λ a. tt) s.image_format))
                        (set-All PinnedMount MountCall.fstype (λ a. tt) s.inner_fstype))
                      (flag-All PinnedMount MountCall.readonly tt s.is_readonly))
                    (flag-All PinnedMount MountCall.noexec tt s.is_noexec))
                  (flag-All PinnedMount MountCall.nosuid tt s.is_nosuid))
                (flag-All PinnedMount MountCall.nodev tt s.is_nodev))
              (set-All PinnedMount MountCall.stat_virtualization (λ a. tt) s.stat))
            (set-All PinnedMount MountCall.host_permissions (λ a. tt) s.perms))
          (owner_call-Pinned s.uid s.gid))
        (set-All PinnedMount MountCall.follow_root_symlinks (λ a. tt) s.follow)

  module _
      -- `std::path::absolute` returns absolute paths.
      (absolute-IsAbsolute : (p q : String) → o.absolute p ≡ ok q → is_absolute q ≡ true) where
    pinned : (raw label : String) → Ok IsPinned (pin o on_local raw label)
    pinned = pin-IsPinned o absolute-IsAbsolute

    mount_backing-Pinned :
        (kind : String) (source : Option String)
        → Ok PinnedBacking (mount_backing o on_local kind source)
    unfolding mount_backing
    mount_backing-Pinned kind none =
        elim (Bool-cases (kind =? "bind" || kind =? "named" || kind =? "disk")) [
          | inl e ↦ rw e tt
          | inr e ↦ rw e (elim (Bool-cases (kind =? "tmpfs")) [ inl t ↦ rw t tt | inr t ↦ rw t tt ])
        ]
    mount_backing-Pinned kind (some s) = elim (Bool-cases (kind =? "bind")) [
      | inl e ↦ rw e (
          bind-Ok PinnedBacking IsPinned (pin o on_local s "bind mount host path") _
            (pinned s "bind mount host path") (λ p h. h))
      | inr e ↦ rw e (elim (Bool-cases (kind =? "disk")) [
        | inl d ↦ rw d (
            bind-Ok PinnedBacking IsPinned (pin o on_local s "disk mount host path") _
              (pinned s "disk mount host path") (λ p h. h))
        | inr d ↦ rw d (elim (Bool-cases (kind =? "named")) [
          | inl n ↦ rw n tt
          | inr n ↦ rw n (elim (Bool-cases (kind =? "tmpfs")) [ inl t ↦ rw t tt | inr t ↦ rw t tt ])
        ])
      ])
    ]

    parse_volume-Pinned : (m : o.Hash) → Ok PinnedVolume (parse_volume o on_local m)
    unfolding parse_volume
    parse_volume-Pinned m = skip _ _ _ (λ guest. skip _ _ _ (λ kind. skip _ _ _ (λ source.
        skip _ _ _ (λ size. skip _ _ _ (λ quota. skip _ _ _ (λ ft. skip _ _ _ (λ ro.
          skip _ _ _ (λ ne. skip _ _ _ (λ ns. skip _ _ _ (λ nd. skip _ _ _ (λ fm. skip _ _ _ (λ fmt.
            skip _ _ _ (λ sv. skip _ _ _ (λ stat. skip _ _ _ (λ hp. skip _ _ _ (λ perms.
              skip _ _ _ (λ uid. skip _ _ _ (λ gid. skip _ _ _ (λ follow.
                bind-Ok _ PinnedBacking (mount_backing o on_local kind source) _
                  (mount_backing-Pinned kind source)
                  (λ b h. (backing_call-Pinned b h, option_calls-Pinned _)))))))))))))))))))))

    -- On the local backend, the host path of every bind and disk mount is absolute or empty.
    pub parse_volumes-Pinned :
        (opts : o.Hash) → Ok (All PinnedVolume) (parse_volumes o on_local opts)
    unfolding parse_volumes
    parse_volumes-Pinned opts =
        skip _ _ _ (λ ms. each-Ok PinnedVolume (parse_volume o on_local) parse_volume-Pinned ms)

    parse_copy-Pinned : (h : o.Hash) → Ok (λ ends. IsPinned ends.0) (parse_copy o on_local h)
    unfolding parse_copy
    parse_copy-Pinned h = skip _ _ _ (λ raw.
        bind-Ok _ IsPinned (pin o on_local raw "patch source path") _
          (pinned raw "patch source path") (λ src p. skip _ _ _ (λ dst. p)))

    parse_kind-Pinned :
        (kind : String) (h : o.Hash) (mode : Option ℕ) (replace : Bool)
        → Ok PinnedPatch (parse_kind o on_local kind h mode replace)
    unfolding parse_kind
    parse_kind-Pinned kind h mode replace = elim (Bool-cases (kind =? "text")) [
      | inl e ↦ rw e (skip _ _ _ (λ p. skip _ _ _ (λ c. tt)))
      | inr e ↦ rw e (elim (Bool-cases (kind =? "file")) [
        | inl e ↦ rw e (skip _ _ _ (λ p. skip _ _ _ (λ c. tt)))
        | inr e ↦ rw e (elim (Bool-cases (kind =? "append")) [
          | inl e ↦ rw e (skip _ _ _ (λ p. skip _ _ _ (λ c. tt)))
          | inr e ↦ rw e (elim (Bool-cases (kind =? "copy_file")) [
            | inl e ↦
                rw e (bind-Ok _ _ (parse_copy o on_local h) _ (parse_copy-Pinned h) (λ ends p. p))
            | inr e ↦ rw e (elim (Bool-cases (kind =? "copy_dir")) [
              | inl e ↦
                  rw e (bind-Ok _ _ (parse_copy o on_local h) _ (parse_copy-Pinned h) (λ ends p. p))
              | inr e ↦ rw e (elim (Bool-cases (kind =? "symlink")) [
                | inl e ↦ rw e (skip _ _ _ (λ p. skip _ _ _ (λ c. tt)))
                | inr e ↦ rw e (elim (Bool-cases (kind =? "mkdir")) [
                  | inl e ↦ rw e (skip _ _ _ (λ p. tt))
                  | inr e ↦ rw e (elim (Bool-cases (kind =? "remove")) [
                    | inl e ↦ rw e (skip _ _ _ (λ p. tt))
                    | inr e ↦ rw e tt
                  ])
                ])
              ])
            ])
          ])
        ])
      ])
    ]

    -- On the local backend, the source of every copying patch is absolute or empty.
    pub parse_patches-Pinned :
        (opts : o.Hash) → Ok (All PinnedPatch) (parse_patches o on_local opts)
    unfolding parse_patches parse_patch
    parse_patches-Pinned opts = skip _ _ _ (λ hs.
        each-Ok PinnedPatch (parse_patch o on_local)
          (λ h. skip _ _ _ (λ kind.
            skip _ _ _ (λ mode. skip _ _ _ (λ replace. parse_kind-Pinned kind h mode replace))))
          hs)
