-- ===== src/Options/Pinned.antt =====
-- Host paths with the local backend (host_path.rs).
use microsandbox_rb.Common.{
  ℕ, ◌≡◌, ◌≢◌, refl, ◌⊎◌, inl, inr, String, Bool, true, false, not, ◌||◌, none, some, List, [], ◌∷◌,
  ok, All, Bool-cases, Option-cases, Result-cases, ◌==◌, arith,
}
use microsandbox_rb.Common.Successes.{Ok, bind-Ok}
use microsandbox_rb.Common.Text.{codes}
use microsandbox_rb.Options.Outside.{Outside}
use microsandbox_rb.Options.HostPath.{
  HostPaths, Image, pin, pin_image, pin_snapshot, is_relative_local, is_absolute, is_empty,
  is_path_like, into_string, contains, starts_with,
}

abbrev pub IsPinned : String → Type 0
IsPinned p = (is_empty (codes p) ≡ true) ⊎ (is_absolute p ≡ true)

-- The local backend.
abbrev pub on_local : HostPaths
on_local = record { local = true }

abbrev pub NotFirst : ℕ → List ℕ → Type 0
NotFirst c [] = Unit
NotFirst c (d ∷ ds) = d ≢ c

-- A snapshot's name or digest: it has no `/`, and begins with neither `.` nor `~`.
abbrev pub IsName : String → Type 0
IsName s = All (λ c. c ≢ b'/') (codes s) × NotFirst b'.' (codes s) × NotFirst b'~' (codes s)

-- A snapshot value is a name or a digest, or else a pinned path.
abbrev pub IsPinnedSnapshot : String → Type 0
IsPinnedSnapshot s = IsName s ⊎ IsPinned s

-- What the core takes for a local path in an image's text, if anything, is absolute.
abbrev pub IsPinnedText : Outside → String → Type 0
IsPinnedText o t = elim (o.local_rootfs t) [ none ↦ Unit | some p ↦ is_absolute p ≡ true ]

abbrev pub IsPinnedImage : Outside → Image → Type 0
IsPinnedImage o (Image.text t) = IsPinnedText o t
IsPinnedImage o (Image.path p) = IsPinned p

not-false : (a : Bool) → not a ≡ false → a ≡ true
not-false true h = refl
not-false false h = absurd (cc)

or_false : (a b : Bool) → (a || b) ≡ false → (a ≡ false) × (b ≡ false)
or_false true b h = absurd (cc)
or_false false b h = (refl, h)

contains-All : (c : ℕ) (cs : List ℕ) → contains c cs ≡ false → All (λ d. d ≢ c) cs
unfolding contains
contains-All c [] h = tt
contains-All c (d ∷ ds) h =
    let (here, later) = or_false (d == c) (contains c ds) h in
    (ground (arith, here), contains-All c ds later)

starts_with-NotFirst : (c : ℕ) (cs : List ℕ) → starts_with c cs ≡ false → NotFirst c cs
unfolding starts_with
starts_with-NotFirst c [] h = tt
starts_with-NotFirst c (d ∷ ds) h = ground (arith, h)

is_path_like-IsName :
    (o : Outside) (s : String) → is_path_like o on_local (codes s) ≡ false → IsName s
unfolding is_path_like
is_path_like-IsName o s h =
    let cs = codes s in
    let (start, tilde) =
      or_false (contains b'/' cs || starts_with b'.' cs) (starts_with b'~' cs) h in
    let (slash, dot) = or_false (contains b'/' cs) (starts_with b'.' cs) start in
    (
      contains-All b'/' (codes s) slash,
      starts_with-NotFirst b'.' (codes s) dot,
      starts_with-NotFirst b'~' (codes s) tilde,
    )

module _ (o : Outside)
    -- `std::path::absolute` returns absolute paths.
    (absolute-IsAbsolute : (p q : String) → o.absolute p ≡ ok q → is_absolute q ≡ true) where
  -- On the local backend, `pin` returns an absolute path, or the empty text, or an error.
  pub pin-IsPinned : (raw label : String) → Ok IsPinned (pin o on_local raw label)
  unfolding pin
  pin-IsPinned raw label = (elim (Bool-cases (is_empty (codes raw))) [
    | inl e ↦ rw e (inl e)
    | inr e ↦ rw e (elim (Bool-cases (is_absolute raw)) [
      | inl a ↦ rw a (inr a)
      | inr a ↦ rw a (elim (Result-cases (o.absolute raw)) [
        | inl (q, h) ↦ rw h (inr (absolute-IsAbsolute raw q h))
        | inr (x, h) ↦ rw h tt
      ])
    ])
  ])

  is_relative_local-IsPinnedText :
      (raw : String) → is_relative_local o on_local raw ≡ false → IsPinnedText o raw
  unfolding is_relative_local
  is_relative_local-IsPinnedText raw h = elim (Option-cases (o.local_rootfs raw)) [
    | inl e ↦ rw (e, IsPinnedText) tt
    | inr (p, e) ↦ rw (e, IsPinnedText) (not-false (is_absolute p) (rw (e, is_relative_local) at h))
  ]

  pub pin_image-IsPinned : (raw : String) → Ok (IsPinnedImage o) (pin_image o on_local raw)
  unfolding pin_image
  pin_image-IsPinned raw = (elim (Bool-cases (is_relative_local o on_local raw)) [
    | inl e ↦ rw e (
        bind-Ok _ IsPinned (pin o on_local raw "rootfs path") _ (pin-IsPinned raw "rootfs path")
          (λ q h. h))
    | inr e ↦ rw e (is_relative_local-IsPinnedText raw e)
  ])

  pub pin_snapshot-IsPinned : (raw : String) → Ok IsPinnedSnapshot (pin_snapshot o on_local raw)
  unfolding pin_snapshot into_string
  pin_snapshot-IsPinned raw = (elim (Bool-cases (is_path_like o on_local (codes raw))) [
    | inl e ↦ rw e (
        bind-Ok _ IsPinned (pin o on_local raw "snapshot path") _ (pin-IsPinned raw "snapshot path")
          (λ q h. elim (Bool-cases (o.is_utf8 q)) [ inl u ↦ rw u (inr h) | inr u ↦ rw u tt ]))
    | inr e ↦ rw e (inl (is_path_like-IsName o raw e))
  ])
