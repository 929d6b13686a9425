-- ===== src/Values/Stores/Volumes.antt =====
-- The value conversion of volume.rs. A field whose type the source
-- does not show (a text or an optional one, a number or an optional one) is as the Ruby conversion
-- gives it.
use microsandbox_rb.Common.{String, Option, List, [], ◌∷◌}
use microsandbox_rb.Options.Outside.{Outside}
use microsandbox_rb.Values.Hashes.{RubyValue, str, set_all, hash_of, or_nil}
use microsandbox_rb.Values.Results.{ms, labels_to_hash}

module _ (o : Outside) where
  pub record VolumeHandle : Type 0 where
    pub name : String
    pub kind : String
    pub is_default : RubyValue o
    pub quota_mib : RubyValue o
    pub used_bytes : RubyValue o
    pub capacity_bytes : RubyValue o
    pub disk_format : Option String
    pub disk_fstype : Option String
    pub created_at : Option o.DateTime
    pub labels : List (String × String)

  unfoldable pub volume_handle_to_hash : VolumeHandle → RubyValue o
  unfolding set_all labels_to_hash
  volume_handle_to_hash h = hash_of o (
      ("name", str h.name)
      ∷ ("kind", str h.kind)
      ∷ ("default", h.is_default)
      ∷ ("quota_mib", h.quota_mib)
      ∷ ("used_bytes", h.used_bytes)
      ∷ ("capacity_bytes", h.capacity_bytes)
      ∷ ("disk_format", or_nil o str h.disk_format)
      ∷ ("disk_fstype", or_nil o str h.disk_fstype)
      ∷ ("created_at_ms", or_nil o (ms o) h.created_at)
      ∷ ("labels", labels_to_hash o h.labels)
      ∷ [])
