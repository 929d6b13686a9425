-- ===== src/Options/Modify.antt =====
-- `run_modify` of sandbox.rs: the patch, the policy, and the core's builder as a parameter.
use microsandbox_rb.Common.{
  ℕ, String, Bool, true, false, Option, none, some, List, [], ◌∷◌, Result, ok, err, ◌>>=◌,
  if◌then◌else◌, each, ◌==◌, ltb,
}
use microsandbox_rb.Common.Text.{◌=?◌, codes}
use microsandbox_rb.Error.{RubyError, base_error}
use microsandbox_rb.Options.Outside.{Outside}
use microsandbox_rb.Options.Conv.{
  opt, opt_or, opt_string, opt_bool, opt_u8, opt_u32, opt_string_map, opt_string_vec, opt_hash_vec,
  to_hashes, required,
}
use microsandbox_rb.Backend.Build.{same_codes}

pub data SecretSource : Type 0 where
  from_env from_store : String → SecretSource

pub record SecretPatch : Type 0 where
  pub name : String
  pub source : Option SecretSource
  pub value : String
  pub placeholder : Option String
  pub allowed_hosts : List String

pub record ModificationPatch : Type 0 where
  pub cpus : Option ℕ
  pub max_cpus : Option ℕ
  pub memory_mib : Option ℕ
  pub max_memory_mib : Option ℕ
  pub root_disk_size_mib : Option ℕ
  pub env : List (String × String)
  pub env_remove : List String
  pub labels : List (String × String)
  pub labels_remove : List String
  pub workdir : Option String
  pub secrets : List SecretPatch
  pub secrets_remove : List String

-- `Ord` of the standard library: texts by their UTF-8 bytes, which is by their code points, and
-- pairs by the first component and then the second.
unfoldable pub codes_le : List ℕ → List ℕ → Bool
codes_le [] ys = true
codes_le (x ∷ xs) [] = false
codes_le (x ∷ xs) (y ∷ ys) = let rest = codes_le xs ys in if x == y then rest else ltb x y

unfoldable pub pair_le : String × String → String × String → Bool
unfolding codes_le same_codes
pair_le (k, v) (l, w) =
    if same_codes (codes k) (codes l)
    then codes_le (codes v) (codes w)
    else codes_le (codes k) (codes l)

-- `Vec::sort`, a stable sort.
module _ {ℓ} {A : Type ℓ} (le : A → A → Bool) where
  unfoldable pub insert : A → List A → List A
  insert x [] = x ∷ []
  insert x (y ∷ ys) = let rest = insert x ys in if le x y then x ∷ y ∷ ys else y ∷ rest

  unfoldable pub sort : List A → List A
  unfolding insert
  sort [] = []
  sort (x ∷ xs) = insert x (sort xs)

unfoldable pub secret_source :
    String → Option String → Option String → Result RubyError (Option SecretSource)
secret_source name (some var) none = ok (some (from_env var))
secret_source name none (some reference) = ok (some (from_store reference))
secret_source name none none = ok none
secret_source name (some _) (some _) =
    err (base_error "secret {:?}: \"env\" and \"store\" are mutually exclusive" (name ∷ []))

pub data ModifyPolicy : Type 0 where
  no_restart next_start restart : ModifyPolicy

unfoldable pub apply_modify_policy : String → Result RubyError ModifyPolicy
apply_modify_policy policy =
    if policy =? "no_restart"
    then ok no_restart
    else if policy =? "next_start"
    then ok next_start
    else if policy =? "restart"
    then ok restart
    else err (
        base_error "unknown policy {:?}; expected \"no_restart\", \"next_start\", or \"restart\""
          (policy ∷ []))

abbrev pub text_or_empty : Option String → String
text_or_empty none = ""
text_or_empty (some s) = s

module _ (o : Outside) where
  unfoldable pub parse_modify_secret : o.Hash → Result RubyError SecretPatch
  unfolding opt opt_or secret_source
  parse_modify_secret h = do
    name ← required o h "name" (base_error "secret modification spec requires :name" [])
    env ← opt_string o h "env"
    store ← opt_string o h "store"
    value ← opt_string o h "value"
    source ← secret_source name env store
    placeholder ← opt_string o h "placeholder"
    hosts ← opt_string_vec o h "allowed_hosts"
    ok (record {
      name = name;
      source = source;
      value = text_or_empty value;
      placeholder = placeholder;
      allowed_hosts = hosts;
    })

  unfoldable pub parse_modify_secrets : o.Hash → Result RubyError (List SecretPatch)
  unfolding opt_or each to_hashes parse_modify_secret
  parse_modify_secrets opts = do hs ← opt_hash_vec o opts "secrets"; each parse_modify_secret hs

  unfoldable pub build_modify_patch : o.Hash → Result RubyError ModificationPatch
  unfolding opt opt_or sort pair_le parse_modify_secrets
  build_modify_patch opts = do
    env_pairs ← opt_string_map o opts "env"
    label_pairs ← opt_string_map o opts "labels"
    cpus ← opt_u8 o opts "cpus"
    max_cpus ← opt_u8 o opts "max_cpus"
    memory ← opt_u32 o opts "memory"
    max_memory ← opt_u32 o opts "max_memory"
    disk ← opt_u32 o opts "root_disk_size"
    env_remove ← opt_string_vec o opts "remove_env"
    labels_remove ← opt_string_vec o opts "remove_labels"
    workdir ← opt_string o opts "workdir"
    secrets ← parse_modify_secrets opts
    secrets_remove ← opt_string_vec o opts "remove_secrets"
    ok (record {
      cpus = cpus;
      max_cpus = max_cpus;
      memory_mib = memory;
      max_memory_mib = max_memory;
      root_disk_size_mib = disk;
      env = sort pair_le env_pairs;
      env_remove = env_remove;
      labels = sort pair_le label_pairs;
      labels_remove = labels_remove;
      workdir = workdir;
      secrets = secrets;
      secrets_remove = secrets_remove;
    })

  -- What is asked of the core: the patch, the policy, and whether it is a dry run.
  pub record Request : Type 0 where
    pub patch : ModificationPatch
    pub policy : ModifyPolicy
    pub dry_run : Bool

  unfoldable pub modify_request : o.Hash → Result RubyError Request
  unfolding opt opt_or build_modify_patch apply_modify_policy
  modify_request opts = do
    patch ← build_modify_patch opts
    policy_text ← opt_string o opts "policy"
    dry_run ← opt_bool o opts "dry_run"
    policy ← apply_modify_policy (elim policy_text [ none ↦ "no_restart" | some p ↦ p ])
    ok (record { patch = patch; policy = policy; dry_run = dry_run })
