-- ===== src/Options/Patches.antt =====
-- `parse_patches` of sandbox.rs.
use microsandbox_rb.Common.{
  ℕ, String, Bool, Option, List, [], ◌∷◌, Result, ok, err, ◌>>=◌, if◌then◌else◌, each, ok_or,
}
use microsandbox_rb.Common.Text.{◌=?◌}
use microsandbox_rb.Error.{RubyError, base_error}
use microsandbox_rb.Options.Outside.{Outside}
use microsandbox_rb.Options.Conv.{opt, opt_or, opt_bool, opt_u32, opt_hash_vec, to_hashes, required}
use microsandbox_rb.Options.HostPath.{HostPaths, pin}

pub data Patch (o : Outside) : Type 0 where
  text_patch : String → String → Option ℕ → Bool → Patch o
  file : String → o.Bytes → Option ℕ → Bool → Patch o
  append : String → String → Patch o
  copy_file : String → String → Option ℕ → Bool → Patch o
  copy_dir : String → String → Bool → Patch o
  symlink : String → String → Bool → Patch o
  mkdir : String → Option ℕ → Patch o
  remove : String → Patch o

module _ (o : Outside) where
  abbrev pub missing_key : String → RubyError
  missing_key key = base_error "patch is missing required key :{key}" (key ∷ [])

  unfoldable pub patch_str : o.Hash → String → Result RubyError String
  unfolding opt
  patch_str h key = required o h key (missing_key key)

  unfoldable pub patch_bytes : o.Hash → String → Result RubyError o.Bytes
  unfolding opt
  patch_bytes h key = do b ← opt o o.to_bytes h key; ok_or (missing_key key) b

  module _ (paths : HostPaths) where
    unfoldable pub parse_copy : o.Hash → Result RubyError (String × String)
    unfolding patch_str pin
    parse_copy h = do
      raw ← patch_str h "src"
      src ← pin o paths raw "patch source path"
      dst ← patch_str h "dst"
      ok (src, dst)

    unfoldable pub parse_kind : String → o.Hash → Option ℕ → Bool → Result RubyError (Patch o)
    unfolding patch_str patch_bytes parse_copy
    parse_kind kind h mode replace =
        if kind =? "text"
        then (do
          path ← patch_str h "path"
          content ← patch_str h "content"
          ok (text_patch path content mode replace))
        else if kind =? "file"
        then (do
          path ← patch_str h "path"
          content ← patch_bytes h "content"
          ok (file path content mode replace))
        else if kind =? "append"
        then (do
          path ← patch_str h "path"
          content ← patch_str h "content"
          ok (append path content))
        else if kind =? "copy_file"
        then (do ends ← parse_copy h; ok (copy_file ends.0 ends.1 mode replace))
        else if kind =? "copy_dir"
        then (do ends ← parse_copy h; ok (copy_dir ends.0 ends.1 replace))
        else if kind =? "symlink"
        then (do
          target ← patch_str h "target"
          link ← patch_str h "link"
          ok (symlink target link replace))
        else if kind =? "mkdir"
        then (do path ← patch_str h "path"; ok (mkdir path mode))
        else if kind =? "remove"
        then (do path ← patch_str h "path"; ok (remove path))
        else err (
            base_error
              "unknown patch kind {:?} (expected one of text/file/append/copy_file/copy_dir/symlink/mkdir/remove)"
              (kind ∷ []))

    unfoldable pub parse_patch : o.Hash → Result RubyError (Patch o)
    unfolding parse_kind patch_str opt opt_or
    parse_patch h = do
      kind ← patch_str h "kind"
      mode ← opt_u32 o h "mode"
      replace ← opt_bool o h "replace"
      parse_kind kind h mode replace

    unfoldable pub parse_patches : o.Hash → Result RubyError (List (Patch o))
    unfolding parse_patch each opt_or to_hashes
    parse_patches opts = do hs ← opt_hash_vec o opts "patches"; each parse_patch hs
