-- ===== src/Values/Stores/Images.antt =====
-- The value conversions of image.rs. A field whose type the source
-- does not show (a text or an optional one, a number or an optional one) is as the Ruby conversion
-- gives it.
use microsandbox_rb.Common.{ℕ, String, Option, none, some, List, [], ◌∷◌}
use microsandbox_rb.Options.Outside.{Outside}
use microsandbox_rb.Values.Hashes.{RubyValue, nil, str, set_all, hash_of, nat, or_nil}
use microsandbox_rb.Values.Json.{Numbers, Json, json_to_ruby}
use microsandbox_rb.Values.Results.{ms, hash_array}

pub record ImagePruneReport : Type 0 where
  pub image_refs_removed : ℕ
  pub manifests_removed : ℕ
  pub layers_removed : ℕ
  pub fsmeta_removed : ℕ
  pub vmdk_removed : ℕ
  pub bytes_reclaimed : ℕ

module _ (o : Outside) where
  pub record ImageHandle : Type 0 where
    pub reference : String
    pub size_bytes : RubyValue o
    pub manifest_digest : Option String
    pub architecture : Option String
    pub os : Option String
    pub layer_count : ℕ
    pub created_at : Option o.DateTime
    pub last_used_at : Option o.DateTime

  unfoldable pub image_handle_to_hash : ImageHandle → RubyValue o
  unfolding set_all
  image_handle_to_hash h = hash_of o (
      ("reference", str h.reference)
      ∷ ("size_bytes", h.size_bytes)
      ∷ ("manifest_digest", or_nil o str h.manifest_digest)
      ∷ ("architecture", or_nil o str h.architecture)
      ∷ ("os", or_nil o str h.os)
      ∷ ("layer_count", nat o h.layer_count)
      ∷ ("created_at_ms", or_nil o (ms o) h.created_at)
      ∷ ("last_used_at_ms", or_nil o (ms o) h.last_used_at)
      ∷ [])

  unfoldable pub report_to_hash : ImagePruneReport → RubyValue o
  unfolding set_all
  report_to_hash r = hash_of o (
      ("image_refs_removed", nat o r.image_refs_removed)
      ∷ ("manifests_removed", nat o r.manifests_removed)
      ∷ ("layers_removed", nat o r.layers_removed)
      ∷ ("fsmeta_removed", nat o r.fsmeta_removed)
      ∷ ("vmdk_removed", nat o r.vmdk_removed)
      ∷ ("bytes_reclaimed", nat o r.bytes_reclaimed)
      ∷ [])

  module _ (n : Numbers o) where
    pub record ImageConfigDetail : Type 0 where
      pub digest : RubyValue o
      pub env : RubyValue o
      pub cmd : RubyValue o
      pub entrypoint : RubyValue o
      pub working_dir : RubyValue o
      pub user : RubyValue o
      pub labels : Option (Json o n)
      pub stop_signal : RubyValue o

    unfoldable pub image_config_to_hash : Option ImageConfigDetail → RubyValue o
    unfolding set_all json_to_ruby
    image_config_to_hash none = nil
    image_config_to_hash (some c) = hash_of o (
        ("digest", c.digest)
        ∷ ("env", c.env)
        ∷ ("cmd", c.cmd)
        ∷ ("entrypoint", c.entrypoint)
        ∷ ("working_dir", c.working_dir)
        ∷ ("user", c.user)
        ∷ ("labels", or_nil o (json_to_ruby o n) c.labels)
        ∷ ("stop_signal", c.stop_signal)
        ∷ [])

    pub record ImageLayerDetail : Type 0 where
      pub diff_id : RubyValue o
      pub blob_digest : RubyValue o
      pub media_type : RubyValue o
      pub compressed_size_bytes : RubyValue o
      pub erofs_size_bytes : RubyValue o
      pub position : RubyValue o

    unfoldable pub image_layer_to_hash : ImageLayerDetail → RubyValue o
    unfolding set_all
    image_layer_to_hash l = hash_of o (
        ("diff_id", l.diff_id)
        ∷ ("blob_digest", l.blob_digest)
        ∷ ("media_type", l.media_type)
        ∷ ("compressed_size_bytes", l.compressed_size_bytes)
        ∷ ("erofs_size_bytes", l.erofs_size_bytes)
        ∷ ("position", l.position)
        ∷ [])

    pub record ImageDetail : Type 0 where
      pub handle : ImageHandle
      pub config : Option ImageConfigDetail
      pub layers : List ImageLayerDetail

    unfoldable pub detail_to_hash : ImageDetail → RubyValue o
    unfolding set_all image_handle_to_hash image_config_to_hash image_layer_to_hash hash_array
    detail_to_hash d = hash_of o (
        ("handle", image_handle_to_hash d.handle)
        ∷ ("config", image_config_to_hash d.config)
        ∷ ("layers", hash_array o image_layer_to_hash d.layers)
        ∷ [])
