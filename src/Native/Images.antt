-- ===== src/Native/Images.antt =====
-- The functions of the class `Image` (image.rs), and `all_sandbox_metrics` of lib.rs: the operations
-- that only a local backend has.
use microsandbox_rb.Common.{String, Bool, List, [], ◌∷◌, map, Result, ok, err, if◌then◌else◌}
use microsandbox_rb.Common.Text.{◌=?◌}
use microsandbox_rb.Error.{RubyError, MicrosandboxError, Operation, base_error}
use microsandbox_rb.Backend.Build.{Core}
use microsandbox_rb.Options.Outside.{Outside}
use microsandbox_rb.Values.Hashes.{nil, hash_of, set_all}
use microsandbox_rb.Values.Json.{Numbers}
use microsandbox_rb.Values.Results.{SandboxMetrics, metrics_to_hash, hash_array}
use microsandbox_rb.Values.Stores.{
  ImageHandle, ImageDetail, ImagePruneReport, image_handle_to_hash, detail_to_hash, report_to_hash,
}
use microsandbox_rb.Native.Call.{Site, Call, lift, and_then}
use microsandbox_rb.Native.Local.{with_local_backend}
use microsandbox_rb.Native.Objects.{Objects, Given, plain}

pub data ImageArchiveFormat : Type 0 where
  docker oci : ImageArchiveFormat

unfoldable pub archive_format : String → Result RubyError ImageArchiveFormat
archive_format format =
    if format =? "docker"
    then ok docker
    else if format =? "oci"
    then ok oci
    else err
        (base_error "invalid archive format {:?}: expected \"docker\" or \"oci\"" (format ∷ []))

module _ (o : Outside) (n : Numbers o) where
  pub data LocalRequest : Type 0 where
    get_by_reference inspect : String → LocalRequest
    list prune all_metrics : LocalRequest
    remove : String → Bool → LocalRequest
    load : String → List String → LocalRequest
    save : List String → String → ImageArchiveFormat → LocalRequest

  abbrev pub LocalValue : LocalRequest → Type 0
  LocalValue (get_by_reference _) = ImageHandle o
  LocalValue (inspect _) = ImageDetail o n
  LocalValue list = List (ImageHandle o)
  LocalValue prune = ImagePruneReport
  LocalValue all_metrics = List (String × SandboxMetrics o)
  LocalValue (remove _ _) = Unit
  LocalValue (load _ _) = List (ImageHandle o)
  LocalValue (save _ _ _) = Unit

-- Which `Operation` of the core each function names.
pub record Operations : Type 0 where
  pub image_get : Operation
  pub image_list : Operation
  pub image_inspect : Operation
  pub image_remove : Operation
  pub image_prune : Operation
  pub image_load : Operation
  pub image_save : Operation
  pub all_sandbox_metrics : Operation

module _ {core : Core} (o : Outside) (n : Numbers o) (t : Objects) (ops : Operations)
    (site : Site core (λ q. Result MicrosandboxError (LocalValue o n q))) where
  abbrev pub Answer : Type 0
  Answer = Given core o t

  abbrev images : List (ImageHandle o) → Answer
  images hs = plain (hash_array o (image_handle_to_hash o) hs)

  unfoldable pub get_image : String → Call site Answer
  get_image reference =
      with_local_backend site ops.image_get (LocalRequest.get_by_reference reference)
        (λ h. plain (image_handle_to_hash o h))

  unfoldable pub list_images : Call site Answer
  list_images = with_local_backend site ops.image_list LocalRequest.list images

  unfoldable pub inspect_image : String → Call site Answer
  inspect_image reference =
      with_local_backend site ops.image_inspect (LocalRequest.inspect reference)
        (λ d. plain (detail_to_hash o n d))

  unfoldable pub remove_image : String → Bool → Call site Answer
  remove_image reference forced =
      with_local_backend site ops.image_remove (LocalRequest.remove reference forced)
        (λ _. plain nil)

  unfoldable pub prune_images : Call site Answer
  prune_images =
      with_local_backend site ops.image_prune LocalRequest.prune (λ r. plain (report_to_hash o r))

  unfoldable pub load_images : String → List String → Call site Answer
  load_images input tags =
      with_local_backend site ops.image_load (LocalRequest.load input tags) images

  unfoldable pub save_images : List String → String → String → Call site Answer
  save_images references output format = and_then site (lift site (archive_format format)) (λ f.
      with_local_backend site ops.image_save (LocalRequest.save references output f)
        (λ _. plain nil))

  -- A Hash of the running sandboxes' metrics by name.
  unfoldable pub all_sandbox_metrics : Call site Answer
  unfolding set_all
  all_sandbox_metrics =
      with_local_backend site ops.all_sandbox_metrics LocalRequest.all_metrics (λ ms.
        plain
          (hash_of o (map (λ (m : String × SandboxMetrics o). (m.0, metrics_to_hash o m.1)) ms)))
