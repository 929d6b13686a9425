-- ===== src/Native/Volume/Class.antt =====
-- The functions of the class `Volume` (volume.rs).
use microsandbox_rb.Common.{String, Result, ok, err, [], ◌∷◌, ◌>>=◌, map_err}
use microsandbox_rb.Error.{RubyError, MicrosandboxError, to_ruby}
use microsandbox_rb.Runtime.Guard.{guarded}
use microsandbox_rb.Backend.Build.{Core}
use microsandbox_rb.Backend.State.{World}
use microsandbox_rb.Backend.Ops.{ensure_this_process_backend, default_backend}
use microsandbox_rb.Options.Outside.{Outside}
use microsandbox_rb.Options.NamedVolumes.{create_calls}
use microsandbox_rb.Values.Hashes.{nil, str, hash_of, set_all}
use microsandbox_rb.Values.Results.{hash_array}
use microsandbox_rb.Values.Stores.{volume_handle_to_hash}
use microsandbox_rb.Native.Call.{Site, Call, on_world, shaped, asked, asked_with}
use microsandbox_rb.Native.Objects.{Objects, Given, plain, volume_fs}
use microsandbox_rb.Native.Volume.Requests.{VolumeRequest, VolumeReply, CreatedVolume}

module _ {core : Core} (o : Outside) (t : Objects) (site : Site core (VolumeReply core o)) where
  abbrev pub Answer : Type 0
  Answer = Given core o t

  unfoldable pub created_to_hash :
      Result MicrosandboxError (CreatedVolume core o) → Result RubyError Answer
  unfolding set_all
  created_to_hash r = do
    vol ← map_err to_ruby r
    path ← map_err to_ruby vol.path
    ok (plain (hash_of o (("name", str vol.name) ∷ ("path", str path) ∷ [])))

  unfoldable pub create : String → o.Hash → Call site Answer
  create name opts =
      asked_with site (create_calls o opts) (VolumeRequest.create name) (λ _. created_to_hash)

  unfoldable pub get_by_name : String → Call site Answer
  get_by_name name =
      asked site (VolumeRequest.get_by_name name) (shaped (λ h. plain (volume_handle_to_hash o h)))

  unfoldable pub get_default : Call site Answer
  get_default =
      asked site VolumeRequest.get_default (shaped (λ h. plain (volume_handle_to_hash o h)))

  unfoldable pub list : Call site Answer
  list =
      asked site VolumeRequest.list
        (shaped (λ hs. plain (hash_array o (volume_handle_to_hash o) hs)))

  unfoldable pub remove : String → Call site Answer
  remove name = asked site (VolumeRequest.remove name) (shaped (λ _. plain nil))

  -- `VolumeFs::for_volume`: the view is bound to the default backend, once it is this process's.
  unfoldable pub bound :
      String → Result RubyError (Unit {0}) × World core → Result RubyError Answer × World core
  unfolding default_backend guarded
  bound name (err e, w) = (err e, w)
  bound name (ok _, w) =
      let (b, w') = default_backend core site.cur site.env w in
      (ok (volume_fs name (guarded site.cur "Microsandbox::VolumeFs" b)), w')

  unfoldable pub for_volume : String → Call site Answer
  for_volume name =
      on_world site (λ w. bound name (ensure_this_process_backend core site.cur site.env w))
