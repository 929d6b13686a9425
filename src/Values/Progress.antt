-- ===== src/Values/Progress.antt =====
-- `pull_progress_to_hash` of sandbox.rs, with a reader of the Hashes that it makes.
use microsandbox_rb.Common.{ℕ, ◌≡◌, refl, String, Option, none, some, [], ◌∷◌, if◌then◌else◌}
use microsandbox_rb.Common.Int.{pos, negsuc}
use microsandbox_rb.Common.Text.{◌=?◌}
use microsandbox_rb.Options.Outside.{Outside}
use microsandbox_rb.Values.Hashes.{
  RubyValue, nil, bool, int, float, str, bytes, array, hash, Fields, fetch, set_all, hash_of, nat,
  or_nil,
}

module _ (o : Outside) where
  -- The core's event.
  pub data PullProgress : Type 0 where
    resolving : String → PullProgress
    resolved : String → String → ℕ → Option ℕ → PullProgress
    layer_download_progress : ℕ → String → ℕ → Option ℕ → PullProgress
    layer_download_complete : ℕ → String → ℕ → PullProgress
    layer_download_verifying : ℕ → String → PullProgress
    layer_materialize_started : ℕ → String → PullProgress
    layer_materialize_progress : ℕ → ℕ → Option ℕ → PullProgress
    layer_materialize_writing : ℕ → PullProgress
    layer_materialize_complete : ℕ → String → PullProgress
    stitch_merging_trees : ℕ → PullProgress
    stitch_writing_fsmeta stitch_writing_vmdk stitch_complete : PullProgress
    complete : String → ℕ → PullProgress

  abbrev kind : String → String × RubyValue o
  kind name = ("kind", str name)

  unfoldable pub pull_progress_to_hash : PullProgress → RubyValue o
  unfolding set_all
  pull_progress_to_hash (resolving r) = hash_of o (kind "resolving" ∷ ("reference", str r) ∷ [])
  pull_progress_to_hash (resolved r d n t) = hash_of o (
      kind "resolved"
      ∷ ("reference", str r)
      ∷ ("manifest_digest", str d)
      ∷ ("layer_count", nat o n)
      ∷ ("total_download_bytes", or_nil o (nat o) t)
      ∷ [])
  pull_progress_to_hash (layer_download_progress i d b t) = hash_of o (
      kind "layer_download_progress"
      ∷ ("layer_index", nat o i)
      ∷ ("digest", str d)
      ∷ ("downloaded_bytes", nat o b)
      ∷ ("total_bytes", or_nil o (nat o) t)
      ∷ [])
  pull_progress_to_hash (layer_download_complete i d b) = hash_of o (
      kind "layer_download_complete"
      ∷ ("layer_index", nat o i)
      ∷ ("digest", str d)
      ∷ ("downloaded_bytes", nat o b)
      ∷ [])
  pull_progress_to_hash (layer_download_verifying i d) =
      hash_of o
        (kind "layer_download_verifying" ∷ ("layer_index", nat o i) ∷ ("digest", str d) ∷ [])
  pull_progress_to_hash (layer_materialize_started i d) =
      hash_of o
        (kind "layer_materialize_started" ∷ ("layer_index", nat o i) ∷ ("diff_id", str d) ∷ [])
  pull_progress_to_hash (layer_materialize_progress i b t) = hash_of o (
      kind "layer_materialize_progress"
      ∷ ("layer_index", nat o i)
      ∷ ("bytes_read", nat o b)
      ∷ ("total_bytes", or_nil o (nat o) t)
      ∷ [])
  pull_progress_to_hash (layer_materialize_writing i) =
      hash_of o (kind "layer_materialize_writing" ∷ ("layer_index", nat o i) ∷ [])
  pull_progress_to_hash (layer_materialize_complete i d) =
      hash_of o
        (kind "layer_materialize_complete" ∷ ("layer_index", nat o i) ∷ ("diff_id", str d) ∷ [])
  pull_progress_to_hash (stitch_merging_trees n) =
      hash_of o (kind "stitch_merging_trees" ∷ ("layer_count", nat o n) ∷ [])
  pull_progress_to_hash stitch_writing_fsmeta = hash_of o (kind "stitch_writing_fsmeta" ∷ [])
  pull_progress_to_hash stitch_writing_vmdk = hash_of o (kind "stitch_writing_vmdk" ∷ [])
  pull_progress_to_hash stitch_complete = hash_of o (kind "stitch_complete" ∷ [])
  pull_progress_to_hash (complete r n) =
      hash_of o (kind "complete" ∷ ("reference", str r) ∷ ("layer_count", nat o n) ∷ [])

  -- A reader: what a consumer of the Hash finds under its keys.
  abbrev as_text : RubyValue o → Option String
  as_text (str s) = some s
  as_text nil = none
  as_text (bool _) = none
  as_text (int _) = none
  as_text (float _) = none
  as_text (bytes _) = none
  as_text (array _) = none
  as_text (hash _) = none

  abbrev as_count : RubyValue o → Option ℕ
  as_count (int (pos n)) = some n
  as_count (int (negsuc _)) = none
  as_count nil = none
  as_count (bool _) = none
  as_count (str _) = none
  as_count (float _) = none
  as_count (bytes _) = none
  as_count (array _) = none
  as_count (hash _) = none

  -- A number or nil.
  abbrev as_total : RubyValue o → Option (Option ℕ)
  as_total nil = some none
  as_total (int (pos n)) = some (some n)
  as_total (int (negsuc _)) = none
  as_total (bool _) = none
  as_total (str _) = none
  as_total (float _) = none
  as_total (bytes _) = none
  as_total (array _) = none
  as_total (hash _) = none

  module _ {ℓ} {A : Type ℓ} (h : Fields o) where
    abbrev at : String → (RubyValue o → Option A) → Option A
    at key f = elim (fetch o key h) [ none ↦ none | some v ↦ f v ]

    abbrev text_at : String → (String → Option A) → Option A
    text_at key f = at key (λ v. elim (as_text v) [ none ↦ none | some s ↦ f s ])

    abbrev count_at : String → (ℕ → Option A) → Option A
    count_at key f = at key (λ v. elim (as_count v) [ none ↦ none | some n ↦ f n ])

    abbrev total_at : String → (Option ℕ → Option A) → Option A
    total_at key f = at key (λ v. elim (as_total v) [ none ↦ none | some n ↦ f n ])

  -- The events that a kind can stand for.
  abbrev by_kind : Fields o → String → Option PullProgress
  by_kind h k =
      if k =? "resolving"
      then text_at h "reference" (λ r. some (resolving r))
      else if k =? "resolved"
      then text_at h "reference" (λ r. text_at h "manifest_digest" (λ d.
        count_at h "layer_count"
          (λ n. total_at h "total_download_bytes" (λ t. some (resolved r d n t)))))
      else if k =? "layer_download_progress"
      then count_at h "layer_index" (λ i. text_at h "digest" (λ d.
        count_at h "downloaded_bytes"
          (λ b. total_at h "total_bytes" (λ t. some (layer_download_progress i d b t)))))
      else if k =? "layer_download_complete"
      then count_at h "layer_index" (λ i.
        text_at h "digest"
          (λ d. count_at h "downloaded_bytes" (λ b. some (layer_download_complete i d b))))
      else if k =? "layer_download_verifying"
      then count_at h "layer_index"
          (λ i. text_at h "digest" (λ d. some (layer_download_verifying i d)))
      else if k =? "layer_materialize_started"
      then count_at h "layer_index"
          (λ i. text_at h "diff_id" (λ d. some (layer_materialize_started i d)))
      else if k =? "layer_materialize_progress"
      then count_at h "layer_index" (λ i.
        count_at h "bytes_read"
          (λ b. total_at h "total_bytes" (λ t. some (layer_materialize_progress i b t))))
      else if k =? "layer_materialize_writing"
      then count_at h "layer_index" (λ i. some (layer_materialize_writing i))
      else if k =? "layer_materialize_complete"
      then count_at h "layer_index"
          (λ i. text_at h "diff_id" (λ d. some (layer_materialize_complete i d)))
      else if k =? "stitch_merging_trees"
      then count_at h "layer_count" (λ n. some (stitch_merging_trees n))
      else if k =? "stitch_writing_fsmeta"
      then some stitch_writing_fsmeta
      else if k =? "stitch_writing_vmdk"
      then some stitch_writing_vmdk
      else if k =? "stitch_complete"
      then some stitch_complete
      else if k =? "complete"
      then text_at h "reference" (λ r. count_at h "layer_count" (λ n. some (complete r n)))
      else none

  unfoldable read_fields : Fields o → Option PullProgress
  unfolding fetch
  read_fields h = text_at h "kind" (by_kind h)

  pub read_progress : RubyValue o → Option PullProgress
  unfolding read_fields
  read_progress (hash h) = read_fields h
  read_progress nil = none
  read_progress (bool _) = none
  read_progress (int _) = none
  read_progress (float _) = none
  read_progress (str _) = none
  read_progress (bytes _) = none
  read_progress (array _) = none

  -- A pull event can be read back from the Hash that Ruby gets, whole: the kind tells the events
  -- apart, and no field is lost or overwritten by another.
  pub read_progress-to_hash : (p : PullProgress) → read_progress (pull_progress_to_hash p) ≡ some p
  unfolding read_progress pull_progress_to_hash
  read_progress-to_hash (resolving r) = refl
  read_progress-to_hash (resolved r d n none) = refl
  read_progress-to_hash (resolved r d n (some t)) = refl
  read_progress-to_hash (layer_download_progress i d b none) = refl
  read_progress-to_hash (layer_download_progress i d b (some t)) = refl
  read_progress-to_hash (layer_download_complete i d b) = refl
  read_progress-to_hash (layer_download_verifying i d) = refl
  read_progress-to_hash (layer_materialize_started i d) = refl
  read_progress-to_hash (layer_materialize_progress i b none) = refl
  read_progress-to_hash (layer_materialize_progress i b (some t)) = refl
  read_progress-to_hash (layer_materialize_writing i) = refl
  read_progress-to_hash (layer_materialize_complete i d) = refl
  read_progress-to_hash (stitch_merging_trees n) = refl
  read_progress-to_hash stitch_writing_fsmeta = refl
  read_progress-to_hash stitch_writing_vmdk = refl
  read_progress-to_hash stitch_complete = refl
  read_progress-to_hash (complete r n) = refl
