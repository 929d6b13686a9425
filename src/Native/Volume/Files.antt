-- ===== src/Native/Volume/Files.antt =====
-- The methods of `VolumeFs` (volume.rs): the guard, then the check of the paths, then the core.
use microsandbox_rb.Common.{String, Result, ok, ◌>>=◌}
use microsandbox_rb.Error.{RubyError}
use microsandbox_rb.Runtime.Guard.{ForkGuarded}
use microsandbox_rb.Backend.Build.{Core}
use microsandbox_rb.Backend.State.{Backend}
use microsandbox_rb.Options.Outside.{Outside}
use microsandbox_rb.Options.NamedVolumes.{contained}
use microsandbox_rb.Values.Hashes.{nil, bool, str, bytes}
use microsandbox_rb.Values.Results.{hash_array, fs_entry_to_hash, fs_metadata_to_hash}
use microsandbox_rb.Native.Call.{Site, Call, shaped, method_with}
use microsandbox_rb.Native.Objects.{Objects, plain}
use microsandbox_rb.Native.Volume.Requests.{View, VolumeRequest, VolumeReply}
use microsandbox_rb.Native.Volume.Class.{Answer}

unfoldable pub both : String → String → Result RubyError (String × String)
both from to = do f ← contained from; u ← contained to; ok (f, u)

module _ {core : Core} (o : Outside) (t : Objects) (site : Site core (VolumeReply core o))
    (volume : String) (g : ForkGuarded (Backend core)) where
  -- `fs()`
  abbrev pub view : Backend core → View core
  view b = record { backend = b; volume = volume }

  unfoldable pub read : String → Call site (Answer o t site)
  read path =
      method_with site g (contained path) (λ b. VolumeRequest.read (view b))
        (λ _ _. shaped (λ b. plain (bytes b)))

  unfoldable pub read_text : String → Call site (Answer o t site)
  read_text path =
      method_with site g (contained path) (λ b. VolumeRequest.read_to_string (view b))
        (λ _ _. shaped (λ s. plain (str s)))

  unfoldable pub write : String → o.Bytes → Call site (Answer o t site)
  write path content =
      method_with site g (contained path) (λ b p. VolumeRequest.write (view b) p content)
        (λ _ _. shaped (λ _. plain nil))

  unfoldable pub list : String → Call site (Answer o t site)
  list path =
      method_with site g (contained path) (λ b. VolumeRequest.list_files (view b))
        (λ _ _. shaped (λ es. plain (hash_array o (fs_entry_to_hash o) es)))

  unfoldable pub mkdir : String → Call site (Answer o t site)
  mkdir path =
      method_with site g (contained path) (λ b. VolumeRequest.mkdir (view b))
        (λ _ _. shaped (λ _. plain nil))

  unfoldable pub remove_file : String → Call site (Answer o t site)
  remove_file path =
      method_with site g (contained path) (λ b. VolumeRequest.remove_file (view b))
        (λ _ _. shaped (λ _. plain nil))

  unfoldable pub remove_dir : String → Call site (Answer o t site)
  remove_dir path =
      method_with site g (contained path) (λ b. VolumeRequest.remove_dir (view b))
        (λ _ _. shaped (λ _. plain nil))

  unfoldable pub exists : String → Call site (Answer o t site)
  exists path =
      method_with site g (contained path) (λ b. VolumeRequest.exists (view b))
        (λ _ _. shaped (λ b. plain (bool b)))

  unfoldable pub copy : String → String → Call site (Answer o t site)
  copy from to =
      method_with site g (both from to) (λ b ps. VolumeRequest.copy (view b) ps.0 ps.1)
        (λ _ _. shaped (λ _. plain nil))

  unfoldable pub rename : String → String → Call site (Answer o t site)
  rename from to =
      method_with site g (both from to) (λ b ps. VolumeRequest.rename (view b) ps.0 ps.1)
        (λ _ _. shaped (λ _. plain nil))

  unfoldable pub stat : String → Call site (Answer o t site)
  stat path =
      method_with site g (contained path) (λ b. VolumeRequest.stat (view b))
        (λ _ _. shaped (λ m. plain (fs_metadata_to_hash o m)))
