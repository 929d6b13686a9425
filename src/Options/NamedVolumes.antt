-- ===== src/Options/NamedVolumes.antt =====
-- ext/microsandbox/src/volume.rs: the options of a named volume, and the check of paths inside one.
use microsandbox_rb.Common.{
  ℕ, inl, inr, String, Bool, false, ◌&&◌, ◌||◌, Option, none, some, List, [], ◌∷◌, ◌++◌, map,
  Result, ok, err, ◌>>=◌, if◌then◌else◌, ◌==◌, Bool-cases, All, All-append,
}
use microsandbox_rb.Common.Successes.{Ok, skip, bind-Ok, All-map}
use microsandbox_rb.Common.Text.{◌=?◌, codes}
use microsandbox_rb.Error.{RubyError, base_error, sandbox_fs_ops, to_ruby}
use microsandbox_rb.Options.Outside.{Outside}
use microsandbox_rb.Options.Conv.{opt, opt_or, opt_string, opt_u32, opt_string_map, set}

-- The calls of the core's volume builder.
pub data VolumeCall : Type 0 where
  directory disk : VolumeCall
  size quota : ℕ → VolumeCall
  label : String × String → VolumeCall

-- The first calls: what kind of volume it is.
unfoldable pub volume_kind_calls : String → Option ℕ → Result RubyError (List VolumeCall)
volume_kind_calls kind size_mib =
    if kind =? "dir"
    then elim size_mib [
      | none ↦ ok (directory ∷ [])
      | some _ ↦ err (base_error "size_mib is only supported with kind: \"disk\"" [])
    ]
    else if kind =? "disk"
    then elim size_mib [
      | none ↦ err (base_error "size_mib is required with kind: \"disk\"" [])
      | some n ↦ ok (disk ∷ size n ∷ [])
    ]
    else err (base_error "unknown volume kind: {:?}" (kind ∷ []))

abbrev pub kind_or_dir : Option String → String
kind_or_dir none = "dir"
kind_or_dir (some k) = k

-- `create` up to the call of the core.
unfoldable pub create_calls : (o : Outside) → o.Hash → Result RubyError (List VolumeCall)
unfolding opt opt_or set volume_kind_calls
create_calls o opts = do
  kind ← opt_string o opts "kind"
  size_mib ← opt_u32 o opts "size_mib"
  first ← volume_kind_calls (kind_or_dir kind) size_mib
  quota_mib ← opt_u32 o opts "quota_mib"
  labels ← opt_string_map o opts "labels"
  ok (first ++ (set quota_mib quota ++ map label labels))

-- `Path::components` has a `ParentDir` for each segment that is `..`.
unfoldable pub is_parent : List ℕ → Bool
is_parent [] = false
is_parent (c ∷ []) = false
is_parent (c ∷ d ∷ []) = c == b'.' && d == b'.'
is_parent (c ∷ d ∷ e ∷ rest) = false

-- The segments, the characters of the current one in reverse order.
unfoldable pub any_parent : List ℕ → List ℕ → Bool
unfolding is_parent
any_parent segment [] = is_parent segment
any_parent segment (c ∷ cs) =
    let next = any_parent [] cs in
    let more = any_parent (c ∷ segment) cs in if c == b'/' then is_parent segment || next else more

unfoldable pub contained : String → Result RubyError String
unfolding any_parent to_ruby
contained path =
    if any_parent [] (codes path)
    then err (
        to_ruby (
          sandbox_fs_ops
            "path traversal outside volume root (`..` segments are not allowed in volume paths)"))
    else ok path

-- A call that sets neither the kind nor the size.
abbrev pub IsDetail : VolumeCall → Type 0
IsDetail directory = ⊥
IsDetail disk = ⊥
IsDetail (size _) = ⊥
IsDetail (quota _) = Unit
IsDetail (label _) = Unit

-- A directory and no size at all, or a disk and then one size.
abbrev pub HasKind : List VolumeCall → Type 0
HasKind (directory ∷ rest) = All IsDetail rest
HasKind (disk ∷ size n ∷ rest) = All IsDetail rest
HasKind _ = ⊥

volume_kind_calls-HasKind :
    (kind : String) (n : Option ℕ)
    → Ok
        (λ first. (rest : List VolumeCall) → All IsDetail rest → HasKind (first ++ rest))
        (volume_kind_calls kind n)
unfolding volume_kind_calls
volume_kind_calls-HasKind kind none = elim (Bool-cases (kind =? "dir")) [
  | inl e ↦ rw e (λ rest h. h)
  | inr e ↦ rw e (elim (Bool-cases (kind =? "disk")) [ inl d ↦ rw d tt | inr d ↦ rw d tt ])
]
volume_kind_calls-HasKind kind (some n) = elim (Bool-cases (kind =? "dir")) [
  | inl e ↦ rw e tt
  | inr e ↦
      rw e (elim (Bool-cases (kind =? "disk")) [ inl d ↦ rw d (λ rest h. h) | inr d ↦ rw d tt ])
]

set-IsDetail : (v : Option ℕ) → All IsDetail (set v quota)
unfolding set
set-IsDetail none = tt
set-IsDetail (some n) = (tt, tt)

-- Creating a named volume fails, or asks the core first for a directory and never for a size, or
-- first for a disk, then for its size, and for no other size; nothing else sets the kind.
pub create_calls-HasKind : (o : Outside) (opts : o.Hash) → Ok HasKind (create_calls o opts)
unfolding create_calls
create_calls-HasKind o opts = skip _ _ _ (λ kind. skip _ _ _ (λ n.
    bind-Ok _ (λ first. (rest : List VolumeCall) → All IsDetail rest → HasKind (first ++ rest))
      (volume_kind_calls (kind_or_dir kind) n) _ (volume_kind_calls-HasKind (kind_or_dir kind) n)
      (λ first h. skip _ _ _ (λ q. skip _ _ _ (λ labels. h _ (
        All-append IsDetail (set q quota) (map label labels) (set-IsDetail q)
          (All-map IsDetail label (λ l. tt) labels)))))))
