-- ===== src/Options/Registry.antt =====
-- Registry options of sandbox.rs.
use microsandbox_rb.Common.{
  String, Bool, false, Option, none, some, List, [], ◌++◌, map, Result, ok, err, ◌>>=◌,
}
use microsandbox_rb.Error.{RubyError, base_error}
use microsandbox_rb.Options.Outside.{Outside}
use microsandbox_rb.Options.Conv.{opt, opt_or, opt_string, opt_bool, opt_string_vec, set, flag}

pub record RegistryAuth : Type 0 where
  pub username : String
  pub password : String

pub record RegistryConfig : Type 0 where
  pub auth : Option RegistryAuth
  pub insecure : Bool
  pub ca_certs : List String

pub data RegistryCall : Type 0 where
  auth : RegistryAuth → RegistryCall
  insecure : RegistryCall
  ca_certs : String → RegistryCall

unfoldable pub apply_registry : RegistryConfig → List RegistryCall
unfolding set flag
apply_registry c = set c.auth auth ++ flag c.insecure insecure ++ map ca_certs c.ca_certs

unfoldable pub registry_auth :
    Option String → Option String → Result RubyError (Option RegistryAuth)
registry_auth (some u) (some p) = ok (some (record { username = u; password = p }))
registry_auth none none = ok none
registry_auth (some _) none =
    err (base_error "registry_auth requires both :username and :password" [])
registry_auth none (some _) =
    err (base_error "registry_auth requires both :username and :password" [])

-- The configuration, when any of it is set.
unfoldable pub registry_config : Option RegistryAuth → Bool → List String → Option RegistryConfig
registry_config none false [] = none
registry_config credentials plain certs =
    some (record { auth = credentials; insecure = plain; ca_certs = certs })

module _ (o : Outside) where
  unfoldable pub parse_registry_config : o.Hash → Result RubyError (Option RegistryConfig)
  unfolding opt opt_or registry_auth registry_config
  parse_registry_config opts = do
    username ← opt_string o opts "registry_username"
    password ← opt_string o opts "registry_password"
    plain ← opt_bool o opts "registry_insecure"
    certs ← opt_string_vec o opts "registry_ca_certs"
    credentials ← registry_auth username password
    ok (registry_config credentials plain certs)
