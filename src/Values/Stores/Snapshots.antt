-- ===== src/Values/Stores/Snapshots.antt =====
-- The value conversions of snapshot.rs. A field whose type the source
-- does not show (a text or an optional one, a number or an optional one) is as the Ruby conversion
-- gives it.
use microsandbox_rb.Common.{ℕ, String, Option, none, some, List, [], ◌∷◌}
use microsandbox_rb.Options.Outside.{Outside}
use microsandbox_rb.Values.Hashes.{RubyValue, str, set_all, hash_of, nat, or_nil}
use microsandbox_rb.Values.Results.{ms, labels_to_hash}

pub data SnapshotFormat : Type 0 where
  raw qcow2 : SnapshotFormat

unfoldable pub format_str : SnapshotFormat → String
format_str raw = "raw"
format_str qcow2 = "qcow2"

pub data SnapshotScope : Type 0 where
  disk resumable : SnapshotScope

unfoldable pub scope_str : SnapshotScope → String
scope_str disk = "disk"
scope_str resumable = "resumable"

-- The two families of snapshot state. `kind` is the core's name of one.
pub data SnapshotState : Type 0 where
  file_state : SnapshotFormat → String → SnapshotState
  checkpoint_state : String → String → SnapshotState

abbrev pub file_format : SnapshotState → Option SnapshotFormat
file_format (file_state f _) = some f
file_format (checkpoint_state _ _) = none

abbrev pub file_fstype : SnapshotState → Option String
file_fstype (file_state _ t) = some t
file_fstype (checkpoint_state _ _) = none

abbrev pub checkpoint_id : SnapshotState → Option String
checkpoint_id (file_state _ _) = none
checkpoint_id (checkpoint_state i _) = some i

abbrev pub checkpoint_manifest : SnapshotState → Option String
checkpoint_manifest (file_state _ _) = none
checkpoint_manifest (checkpoint_state _ m) = some m

module _ (o : Outside) where
  -- `parse_from_rfc3339(…).ok().map(…)`
  unfoldable pub created_at_ms : String → RubyValue o
  created_at_ms s = or_nil o (ms o) (o.parse_rfc3339 s)

  pub record Snapshot : Type 0 where
    pub digest : String
    pub path : String
    pub size_bytes : Option ℕ
    pub scope : SnapshotScope
    pub state : SnapshotState
    pub state_kind : String
    pub image_ref : String
    pub image_manifest_digest : RubyValue o
    pub parent : RubyValue o
    pub created_at : String
    pub source_sandbox : RubyValue o
    pub labels : List (String × String)

  unfoldable pub snapshot_to_hash : Snapshot → RubyValue o
  unfolding set_all scope_str format_str created_at_ms labels_to_hash
  snapshot_to_hash s = hash_of o (
      ("digest", str s.digest)
      ∷ ("path", str s.path)
      ∷ ("size_bytes", or_nil o (nat o) s.size_bytes)
      ∷ ("scope", str (scope_str s.scope))
      ∷ ("state_kind", str s.state_kind)
      ∷ ("image_ref", str s.image_ref)
      ∷ ("image_manifest_digest", s.image_manifest_digest)
      ∷ ("format", or_nil o (λ f. str (format_str f)) (file_format s.state))
      ∷ ("fstype", or_nil o str (file_fstype s.state))
      ∷ ("checkpoint_id", or_nil o str (checkpoint_id s.state))
      ∷ ("checkpoint_manifest_digest", or_nil o str (checkpoint_manifest s.state))
      ∷ ("parent_digest", s.parent)
      ∷ ("created_at_ms", created_at_ms s.created_at)
      ∷ ("source_sandbox", s.source_sandbox)
      ∷ ("labels", labels_to_hash o s.labels)
      ∷ [])

  pub record SnapshotHandle : Type 0 where
    pub digest : String
    pub name : Option String
    pub parent_digest : Option String
    pub scope : SnapshotScope
    pub state_kind : String
    pub image_ref : String
    pub format : Option SnapshotFormat
    pub fstype : Option String
    pub checkpoint_manifest_digest : Option String
    pub size_bytes : RubyValue o
    pub locality : String
    pub availability : String
    pub migration_state : String
    pub migration_error_code : Option String
    pub path : String
    pub created_at : o.DateTime

  unfoldable pub snapshot_handle_to_hash : SnapshotHandle → RubyValue o
  unfolding set_all scope_str format_str
  snapshot_handle_to_hash h = hash_of o (
      ("digest", str h.digest)
      ∷ ("name", or_nil o str h.name)
      ∷ ("parent_digest", or_nil o str h.parent_digest)
      ∷ ("scope", str (scope_str h.scope))
      ∷ ("state_kind", str h.state_kind)
      ∷ ("image_ref", str h.image_ref)
      ∷ ("format", or_nil o (λ f. str (format_str f)) h.format)
      ∷ ("fstype", or_nil o str h.fstype)
      ∷ ("checkpoint_manifest_digest", or_nil o str h.checkpoint_manifest_digest)
      ∷ ("size_bytes", h.size_bytes)
      ∷ ("locality", str h.locality)
      ∷ ("availability", str h.availability)
      ∷ ("migration_state", str h.migration_state)
      ∷ ("migration_error_code", or_nil o str h.migration_error_code)
      ∷ ("path", str h.path)
      ∷ ("created_at_ms", ms o h.created_at)
      ∷ [])

  pub data UpperVerifyStatus : Type 0 where
    verified : RubyValue o → RubyValue o → UpperVerifyStatus
    not_recorded : UpperVerifyStatus

  pub record SnapshotVerifyReport : Type 0 where
    pub digest : String
    pub path : String
    pub upper : UpperVerifyStatus

  abbrev pub upper_entries : UpperVerifyStatus → List (String × RubyValue o)
  upper_entries (verified algorithm digest) =
      ("upper_status", str "verified")
      ∷ ("upper_algorithm", algorithm)
      ∷ ("upper_digest", digest)
      ∷ []
  upper_entries not_recorded = ("upper_status", str "not_recorded") ∷ []

  unfoldable pub verify_report_to_hash : SnapshotVerifyReport → RubyValue o
  unfolding set_all
  verify_report_to_hash r =
      hash_of o (("digest", str r.digest) ∷ ("path", str r.path) ∷ upper_entries r.upper)
