-- ===== src/Options/PinnedBuilder.antt =====
-- Host paths in what `build_builder` hands to the core.
use microsandbox_rb.Common.{
  ◌≡◌, inl, inr, String, true, ◌||◌, Option, none, some, List, ok, All, Bool-cases, traverse,
}
use microsandbox_rb.Common.Successes.{Ok, IfSome, skip, bind-Ok, traverse-Ok, All-map, All-map-All}
use microsandbox_rb.Common.Text.{◌=?◌}
use microsandbox_rb.Options.Outside.{Outside}
use microsandbox_rb.Options.HostPath.{Image, pin, pin_image, pin_snapshot, is_absolute}
use microsandbox_rb.Options.Pinned.{
  on_local, IsPinned, IsPinnedSnapshot, IsPinnedImage, pin-IsPinned, pin_image-IsPinned,
  pin_snapshot-IsPinned,
}
use microsandbox_rb.Options.PinnedMounts.{
  set-All, join, PinnedVolume, PinnedPatch, parse_volumes-Pinned, parse_patches-Pinned,
}
use microsandbox_rb.Options.PinnedPaths.{
  PinnedCall, set-IfSome, advanced_calls-Pinned, root_disk_calls-Pinned,
}
use microsandbox_rb.Options.Policy.{Policies}
use microsandbox_rb.Options.Patches.{parse_patches}
use microsandbox_rb.Options.Volumes.{parse_volumes}
use microsandbox_rb.Options.Calls as Calls
use microsandbox_rb.Options.Calls.{Call, PlainCall, NetworkCall, TlsCall}
use microsandbox_rb.Options.Builder.{
  root_disk_calls, image_call, image_of, image_calls, source_calls, lift, builder_calls,
}
use microsandbox_rb.Options.NetworkBuilder.{
  advanced_calls, network_mode, policy_call, network_calls, limiter_call, rate_calls,
  violation_calls,
}

module _ (o : Outside) where
  network_mode-Pinned :
      (core : Policies o) (net : String) → Ok (PinnedCall o) (network_mode o core net)
  unfolding network_mode
  network_mode-Pinned core net =
      elim (Bool-cases
        (net =? "none" || net =? "disabled" || net =? "disable" || net =? "airgapped")) [
          | inl e ↦ rw e tt
          | inr e ↦ rw e (elim (Bool-cases (net =? "all" || net =? "allow_all")) [
            | inl a ↦ rw a (tt, tt)
            | inr a ↦ rw a tt
          ])
        ]

  network_calls-Pinned :
      (core : Policies o) (opts : o.Hash) → Ok (All (PinnedCall o)) (network_calls o core opts)
  unfolding network_calls
  network_calls-Pinned core opts = skip _ _ _ (λ net.
      bind-Ok _ (IfSome (PinnedCall o)) (traverse (network_mode o core) net) _
        (traverse-Ok (PinnedCall o) (network_mode o core) (network_mode-Pinned core) net)
        (λ mode h. skip _ _ _ (λ names. skip _ _ _ (λ profiles. skip _ _ _ (λ policy.
          join (PinnedCall o) _ _
            (join (PinnedCall o) _ _ (set-IfSome (PinnedCall o) (PinnedCall o) _ (λ c x. x) mode h)
              (All-map (PinnedCall o) (policy_call o core) (λ p. (tt, tt)) profiles))
            (set-All (PinnedCall o) (policy_call o core) (λ p. (tt, tt)) policy))))))

  rate_calls-Pinned : (opts : o.Hash) → Ok (All (PinnedCall o)) (rate_calls o opts)
  unfolding rate_calls limiter_call
  rate_calls-Pinned opts =
      skip _ _ _ (λ h. skip _ _ _ (λ spec. set-All (PinnedCall o) _ (λ s. (tt, tt)) spec))

  violation_calls-Pinned : (opts : o.Hash) → Ok (All (PinnedCall o)) (violation_calls o opts)
  unfolding violation_calls
  violation_calls-Pinned opts =
      skip _ _ _ (λ v. skip _ _ _ (λ spec. set-All (PinnedCall o) _ (λ s. (tt, tt)) spec))

  lift-Pinned : (cs : List (PlainCall o)) → All (PinnedCall o) (lift o cs)
  lift-Pinned cs = All-map (PinnedCall o) Calls.plain (λ c. tt) cs

  module _
      -- `std::path::absolute` returns absolute paths.
      (absolute-IsAbsolute : (p q : String) → o.absolute p ≡ ok q → is_absolute q ≡ true) where
    image_call-Pinned : (i : Image) → IsPinnedImage o i → All (PinnedCall o) (image_call o i)
    unfolding image_call
    image_call-Pinned (Image.text t) h = (h, tt)
    image_call-Pinned (Image.path p) h = (h, tt)

    image_calls-Pinned :
        (v : Option String) (opts : o.Hash)
        → Ok (All (PinnedCall o)) (image_calls o on_local v opts)
    unfolding image_calls image_of
    image_calls-Pinned none opts = tt
    image_calls-Pinned (some v) opts = skip _ _ _ (λ fstype. image v fstype)
      where
        image :
            (v : String) (fstype : Option String)
            → Ok (All (PinnedCall o)) (image_of o on_local v fstype)
        image v none =
            bind-Ok _ _ (pin_image o on_local v) _ (pin_image-IsPinned o absolute-IsAbsolute v)
              (λ i h. image_call-Pinned i h)
        image v (some fstype) =
            bind-Ok _ IsPinned (pin o on_local v "root disk image path") _
              (pin-IsPinned o absolute-IsAbsolute v _) (λ p h. (h, tt))

    source_calls-Pinned : (opts : o.Hash) → Ok (All (PinnedCall o)) (source_calls o on_local opts)
    unfolding source_calls
    source_calls-Pinned opts = skip _ _ _ (λ v.
        bind-Ok _ (All (PinnedCall o)) (image_calls o on_local v opts) _ (image_calls-Pinned v opts)
          (λ image h. skip _ _ _ (λ s.
            bind-Ok _ (IfSome IsPinnedSnapshot) (traverse (pin_snapshot o on_local) s) _
              (traverse-Ok IsPinnedSnapshot (pin_snapshot o on_local)
                (pin_snapshot-IsPinned o absolute-IsAbsolute) s)
              (λ snapshot q. join (PinnedCall o) _ _ h (
                set-IfSome IsPinnedSnapshot (PinnedCall o) Calls.from_snapshot (λ a x. x) snapshot
                  q)))))

    -- Given that `std::path::absolute` returns absolute paths: on the local backend, a create call
    -- either fails, or the image and snapshot paths, the bind and disk mounts, the sources of copying
    -- patches, the root disk image and the TLS files that it hands the core are all absolute, or empty
    -- for the core to reject; an image that goes as a text is none that the core reads as a relative
    -- path, and a snapshot that goes as a name has no `/` and begins with neither `.` nor `~`.
    pub builder_calls-Pinned :
        (core : Policies o) (opts : o.Hash)
        → Ok (All (PinnedCall o)) (builder_calls o core on_local opts)
    unfolding builder_calls
    builder_calls-Pinned core opts =
        let P = PinnedCall o in
        bind-Ok _ (All P) (source_calls o on_local opts) _ (source_calls-Pinned opts) (λ source h1.
          skip _ _ _ (λ guest.
            bind-Ok _ (All (PinnedVolume o)) (parse_volumes o on_local opts) _
              (parse_volumes-Pinned o absolute-IsAbsolute opts)
              (λ volumes h2.
                bind-Ok _ (All (PinnedPatch o)) (parse_patches o on_local opts) _
                  (parse_patches-Pinned o absolute-IsAbsolute opts)
                  (λ patches h3.
                    bind-Ok _ (All P) (network_calls o core opts) _ (network_calls-Pinned core opts)
                      (λ net h4. skip _ _ _ (λ logs.
                        bind-Ok _ (All P) (root_disk_calls o on_local opts) _
                          (root_disk_calls-Pinned o absolute-IsAbsolute opts)
                          (λ disk h5. skip _ _ _ (λ limits.
                            bind-Ok _ (All P) (violation_calls o opts) _
                              (violation_calls-Pinned opts)
                              (λ violation h6.
                                bind-Ok _ (All P) (advanced_calls o on_local opts) _
                                  (advanced_calls-Pinned o absolute-IsAbsolute opts)
                                  (λ advanced h7.
                                    bind-Ok _ (All P) (rate_calls o opts) _ (rate_calls-Pinned opts)
                                      (λ rate h8. skip _ _ _ (λ rest.
                                        join P _ _
                                          (join P _ _
                                            (join P _ _
                                              (join P _ _
                                                (join P _ _
                                                  (join P _ _
                                                    (join P _ _
                                                      (join P _ _
                                                        (join P _ _
                                                          (join P _ _
                                                            (join P _ _ h1 (lift-Pinned guest))
                                                            (All-map-All (PinnedVolume o) P
                                                            Calls.volume (λ v x. x) volumes h2))
                                                          (All-map-All (PinnedPatch o) P
                                                            Calls.add_patch (λ v x. x) patches h3))
                                                        h4)
                                                      (lift-Pinned logs))
                                                    h5)
                                                  (lift-Pinned limits))
                                                h6)
                                              h7)
                                            h8)
                                          (lift-Pinned rest)))))))))))))
