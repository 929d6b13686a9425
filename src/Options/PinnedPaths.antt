-- ===== src/Options/PinnedPaths.antt =====
-- Host paths in the TLS files and the root disk (sandbox.rs), and in a call of the builder.
use microsandbox_rb.Common.{
  ◌≡◌, inl, inr, String, true, ◌||◌, Option, none, some, List, [], ◌∷◌, ok, All, Bool-cases,
  Result-cases, traverse,
}
use microsandbox_rb.Common.Successes.{Ok, IfSome, skip, bind-Ok, traverse-Ok, All-map}
use microsandbox_rb.Common.Text.{◌=?◌}
use microsandbox_rb.Options.Outside.{Outside}
use microsandbox_rb.Options.Conv.{set}
use microsandbox_rb.Options.HostPath.{pin, is_absolute}
use microsandbox_rb.Options.Pinned.{
  on_local, IsPinned, IsPinnedSnapshot, IsPinnedText, pin-IsPinned,
}
use microsandbox_rb.Options.PinnedMounts.{set-All, join, PinnedVolume, PinnedPatch}
use microsandbox_rb.Options.Connection.{TlsSpec, parse_tls, pin_key}
use microsandbox_rb.Options.RootDisk.{
  RootDiskKind, disk, managed, tmpfs, flat, RootDiskSpec, RootDiskCall, disk_image, kind_calls,
  apply_root_disk, pinned_disk, root_disk_kind, root_disk_hash, parse_root_disk,
}
use microsandbox_rb.Options.Calls as Calls
use microsandbox_rb.Options.Calls.{Call, PlainCall, NetworkCall, TlsCall}
use microsandbox_rb.Options.Builder.{root_disk_calls}
use microsandbox_rb.Options.NetworkBuilder.{
  tls_calls, Advanced, settings_calls, when_any, advanced_calls,
}

abbrev pub PinnedTlsCall : TlsCall → Type 0
PinnedTlsCall (Calls.upstream_ca_cert p) = IsPinned p
PinnedTlsCall (Calls.intercept_ca_cert p) = IsPinned p
PinnedTlsCall (Calls.intercept_ca_key p) = IsPinned p
PinnedTlsCall _ = Unit

pub set-IfSome {ℓ κ ν μ} :
    {A : Type ℓ} {C : Type κ} (Q : A → Type μ) (P : C → Type ν) (call : A → C)
    → ((a : A) → Q a → P (call a))
    → (v : Option A) → IfSome Q v
    → All P (set v call)
unfolding set
set-IfSome Q P call h none q = tt
set-IfSome Q P call h (some a) q = (h a q, tt)

module _ (o : Outside) where
  abbrev pub PinnedNetwork : NetworkCall o → Type 0
  PinnedNetwork (Calls.tls cs) = All PinnedTlsCall cs
  PinnedNetwork _ = Unit

  abbrev pub PinnedDisk : RootDiskCall o → Type 0
  PinnedDisk (disk_image p) = IsPinned p
  PinnedDisk _ = Unit

  -- What a call of the builder hands over as a host path is absolute or empty, and an image's text
  -- names no relative local path. The plain calls carry no host path but that of a vsock route.
  abbrev pub PinnedCall : Call o → Type 0
  PinnedCall (Calls.plain c) = Unit
  PinnedCall (Calls.image_with p fstype) = IsPinned p
  PinnedCall (Calls.image_text t) = IsPinnedText o t
  PinnedCall (Calls.image_path p) = IsPinned p
  PinnedCall (Calls.from_snapshot s) = IsPinnedSnapshot s
  PinnedCall (Calls.volume v) = PinnedVolume o v
  PinnedCall (Calls.add_patch p) = PinnedPatch o p
  PinnedCall (Calls.network cs) = All PinnedNetwork cs
  PinnedCall (Calls.root_disk_with cs) = All PinnedDisk cs

  abbrev PinnedTls : TlsSpec o → Type 0
  PinnedTls t =
      IfSome IsPinned t.upstream_ca_cert
      × IfSome IsPinned t.intercept_ca_cert
      × IfSome IsPinned t.intercept_ca_key

  tls_calls-Pinned : (t : TlsSpec o) → PinnedTls t → All PinnedTlsCall (tls_calls o t)
  unfolding tls_calls
  tls_calls-Pinned t (u, c, k) =
      join PinnedTlsCall _ _
        (join PinnedTlsCall _ _
          (join PinnedTlsCall _ _
            (join PinnedTlsCall _ _
              (join PinnedTlsCall _ _
                (join PinnedTlsCall _ _ (All-map PinnedTlsCall Calls.bypass (λ a. tt) t.bypass)
                  (set-All PinnedTlsCall Calls.verify_upstream (λ a. tt) t.verify_upstream))
                (set-All PinnedTlsCall Calls.intercepted_ports (λ a. tt) t.intercepted_ports))
              (set-All PinnedTlsCall Calls.block_quic (λ a. tt) t.block_quic))
            (set-IfSome IsPinned PinnedTlsCall Calls.upstream_ca_cert (λ a h. h) t.upstream_ca_cert
              u))
          (set-IfSome IsPinned PinnedTlsCall Calls.intercept_ca_cert (λ a h. h) t.intercept_ca_cert
            c))
        (set-IfSome IsPinned PinnedTlsCall Calls.intercept_ca_key (λ a h. h) t.intercept_ca_key k)

  settings_calls-Pinned :
      (s : Advanced o) → IfSome PinnedTls s.tls → All PinnedNetwork (settings_calls o s)
  unfolding settings_calls
  settings_calls-Pinned s h =
      join PinnedNetwork _ _
        (join PinnedNetwork _ _
          (join PinnedNetwork _ _
            (join PinnedNetwork _ _
              (join PinnedNetwork _ _
                (join PinnedNetwork _ _ (set-All PinnedNetwork _ (λ a. tt) s.dns)
                  (set-IfSome PinnedTls PinnedNetwork _ tls_calls-Pinned s.tls h))
                (set-All PinnedNetwork Calls.ipv4_pool (λ a. tt) s.ipv4_pool))
              (set-All PinnedNetwork Calls.ipv6_pool (λ a. tt) s.ipv6_pool))
            (set-All PinnedNetwork Calls.max_connections (λ a. tt) s.max_connections))
          (set-All PinnedNetwork Calls.trust_host_cas (λ a. tt) s.trust_host_cas))
        (set-All PinnedNetwork Calls.strict (λ a. tt) s.strict)

  when_any-Pinned :
      (cs : List (NetworkCall o)) → All PinnedNetwork cs → All PinnedCall (when_any o cs)
  unfolding when_any
  when_any-Pinned [] h = tt
  when_any-Pinned (c ∷ cs) h = (h, tt)

  abbrev PinnedKind : RootDiskKind → Type 0
  PinnedKind (disk p) = IsPinned p
  PinnedKind _ = Unit

  kind_calls-Pinned : (k : RootDiskKind) → PinnedKind k → All PinnedDisk (kind_calls o k)
  unfolding kind_calls
  kind_calls-Pinned managed h = tt
  kind_calls-Pinned tmpfs h = (tt, tt)
  kind_calls-Pinned (disk p) h = (h, tt)
  kind_calls-Pinned flat h = (tt, tt)

  apply_root_disk-Pinned :
      (s : RootDiskSpec o) → PinnedKind s.kind → All PinnedDisk (apply_root_disk o s)
  unfolding apply_root_disk
  apply_root_disk-Pinned s h =
      join PinnedDisk _ _
        (join PinnedDisk _ _
          (join PinnedDisk _ _
            (join PinnedDisk _ _ (kind_calls-Pinned s.kind h)
              (set-All PinnedDisk RootDiskCall.size (λ a. tt) s.size_mib))
            (set-All PinnedDisk RootDiskCall.format (λ a. tt) s.image_format))
          (set-All PinnedDisk RootDiskCall.fstype (λ a. tt) s.inner_fstype))
        (set-All PinnedDisk RootDiskCall.clone_strategy (λ a. tt) s.clone)

  module _
      -- `std::path::absolute` returns absolute paths.
      (absolute-IsAbsolute : (p q : String) → o.absolute p ≡ ok q → is_absolute q ≡ true) where
    pinned : (raw label : String) → Ok IsPinned (pin o on_local raw label)
    pinned = pin-IsPinned o absolute-IsAbsolute

    pin_key-Pinned :
        (t : o.Hash) (key label : String) → Ok (IfSome IsPinned) (pin_key o on_local t key label)
    unfolding pin_key
    pin_key-Pinned t key label =
        skip _ _ _
          (λ raw. traverse-Ok IsPinned (λ p. pin o on_local p label) (λ p. pinned p label) raw)

    parse_tls-Pinned : (t : o.Hash) → Ok PinnedTls (parse_tls o on_local t)
    unfolding parse_tls
    parse_tls-Pinned t = skip _ _ _ (λ bypass. skip _ _ _ (λ verify. skip _ _ _ (λ ports.
        skip _ _ _ (λ quic.
          bind-Ok _ (IfSome IsPinned)
            (pin_key o on_local t "upstream_ca_cert" "upstream CA certificate path") _
            (pin_key-Pinned t _ _)
            (λ u hu.
              bind-Ok _ (IfSome IsPinned)
                (pin_key o on_local t "intercept_ca_cert" "interception CA certificate path") _
                (pin_key-Pinned t _ _)
                (λ c hc.
                  bind-Ok _ (IfSome IsPinned)
                    (pin_key o on_local t "intercept_ca_key" "interception CA key path") _
                    (pin_key-Pinned t _ _) (λ k hk. (hu, hc, hk))))))))

    pub advanced_calls-Pinned :
        (opts : o.Hash) → Ok (All PinnedCall) (advanced_calls o on_local opts)
    unfolding advanced_calls
    advanced_calls-Pinned opts = skip _ _ _ (λ d. skip _ _ _ (λ dns. skip _ _ _ (λ t.
        bind-Ok _ (IfSome PinnedTls) (traverse (parse_tls o on_local) t) _
          (traverse-Ok PinnedTls (parse_tls o on_local) parse_tls-Pinned t)
          (λ tls h. skip _ _ _ (λ p. skip _ _ _ (λ ipv4. skip _ _ _ (λ q. skip _ _ _ (λ ipv6.
            skip _ _ _ (λ connections. skip _ _ _ (λ trust.
              skip _ _ _ (λ strict. when_any-Pinned _ (settings_calls-Pinned _ h))))))))))))

    root_disk_kind-Pinned :
        (kind : Option String) (h : o.Hash) → Ok PinnedKind (root_disk_kind o on_local kind h)
    unfolding root_disk_kind pinned_disk
    root_disk_kind-Pinned none h = tt
    root_disk_kind-Pinned (some kind) h = elim (Bool-cases (kind =? "managed")) [
      | inl e ↦ rw e tt
      | inr e ↦ rw e (elim (Bool-cases (kind =? "tmpfs")) [
        | inl t ↦ rw t tt
        | inr t ↦
            rw t
              (elim (Bool-cases (kind =? "disk" || kind =? "disk-image" || kind =? "disk_image")) [
                | inl d ↦ rw d (
                    skip _ _ _ (λ path.
                      bind-Ok _ IsPinned (pin o on_local path "root disk image path") _
                        (pinned path _) (λ p x. x)))
                | inr d ↦
                    rw d (elim (Bool-cases (kind =? "flat")) [ inl f ↦ rw f tt | inr f ↦ rw f tt ])
              ])
      ])
    ]

    parse_root_disk-Pinned :
        (v : o.Value) → Ok (λ s. PinnedKind s.kind) (parse_root_disk o on_local v)
    unfolding parse_root_disk root_disk_hash
    parse_root_disk-Pinned v = elim (Result-cases (o.to_u32 v)) [
      | inl (n, e) ↦ rw (e, parse_root_disk) tt
      | inr (x, e) ↦
          rw (e, parse_root_disk)
            (skip _ _ _ (λ h. skip _ _ _ (λ kind.
              bind-Ok _ PinnedKind (root_disk_kind o on_local kind h) _
                (root_disk_kind-Pinned kind h)
                (λ k hk. skip _ _ _ (λ f. skip _ _ _ (λ fmt.
                  skip _ _ _
                    (λ c. skip _ _ _ (λ clone. skip _ _ _ (λ mib. skip _ _ _ (λ ft. hk))))))))))
    ]

    pub root_disk_calls-Pinned :
        (opts : o.Hash) → Ok (All PinnedCall) (root_disk_calls o on_local opts)
    unfolding root_disk_calls
    root_disk_calls-Pinned opts = skip _ _ _ (λ v.
        bind-Ok _ (IfSome (λ s. PinnedKind s.kind)) (traverse (parse_root_disk o on_local) v) _
          (traverse-Ok (λ s. PinnedKind s.kind) (parse_root_disk o on_local) parse_root_disk-Pinned
            v)
          (λ spec h.
            set-IfSome (λ s. PinnedKind s.kind) PinnedCall _ apply_root_disk-Pinned spec h))
