-- ===== src/Options/HostPath.antt =====
-- ext/microsandbox/src/host_path.rs: relative host paths become absolute before the core keeps them.
-- A path is its text.
use microsandbox_rb.Common.{
  ℕ, String, Bool, true, false, not, ◌||◌, none, some, List, [], ◌∷◌, Result, ok, err, ◌>>=◌, ◌==◌,
  if◌then◌else◌, map_err,
}
use microsandbox_rb.Common.Text.{codes}
use microsandbox_rb.Error.{RubyError, invalid_config, to_ruby}
use microsandbox_rb.Options.Outside.{Outside}
use Prim.Native.String.{◌++◌ as ◌+++◌}

unfoldable pub starts_with : ℕ → List ℕ → Bool
starts_with c [] = false
starts_with c (d ∷ ds) = d == c

unfoldable pub contains : ℕ → List ℕ → Bool
contains c [] = false
contains c (d ∷ ds) = d == c || contains c ds

-- `Path::is_absolute` on Unix, and an empty text.
unfoldable pub is_absolute : String → Bool
unfolding starts_with
is_absolute path = starts_with b'/' (codes path)

unfoldable pub is_empty {ℓ} : {A : Type ℓ} → List A → Bool
is_empty [] = true
is_empty (x ∷ xs) = false

pub data Image : Type 0 where
  text path : String → Image

-- Whether the create call goes to the local backend.
pub record HostPaths : Type 0 where
  pub local : Bool

module _ (o : Outside) (paths : HostPaths) where
  unfoldable pub pin : String → String → Result RubyError String
  unfolding is_absolute is_empty to_ruby
  pin raw label =
      if not paths.local || is_empty (codes raw) || is_absolute raw
      then ok raw
      else map_err
          (λ e.
            to_ruby (invalid_config ("cannot resolve " +++ label +++ " " +++ raw +++ ": " +++ e)))
          (o.absolute raw)

  unfoldable pub is_relative_local : String → Bool
  unfolding is_absolute
  is_relative_local raw = elim (o.local_rootfs raw) [ none ↦ false | some p ↦ not (is_absolute p) ]

  unfoldable pub pin_image : String → Result RubyError Image
  unfolding pin is_relative_local
  pin_image raw =
      if not paths.local
      then ok (text raw)
      else if is_relative_local raw
      then pin raw "rootfs path" >>= (λ p. ok (path p))
      else ok (text raw)

  unfoldable pub is_path_like : List ℕ → Bool
  unfolding contains starts_with
  is_path_like raw = contains b'/' raw || starts_with b'.' raw || starts_with b'~' raw

  unfoldable pub into_string : String → Result RubyError String
  into_string p =
      if o.is_utf8 p
      then ok p
      else err (
          to_ruby (
            invalid_config (
              "cannot resolve snapshot path " +++ p
              +++ ": the current directory is not valid UTF-8")))

  unfoldable pub pin_snapshot : String → Result RubyError String
  unfolding pin is_path_like into_string
  pin_snapshot raw =
      if not paths.local || not (is_path_like (codes raw))
      then ok raw
      else pin raw "snapshot path" >>= into_string
