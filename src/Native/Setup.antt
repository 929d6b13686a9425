-- ===== src/Native/Setup.antt =====
-- lib.rs: installing the runtime, which leaves the backend alone, and the path of `msb`; and
-- `default_backend_info` of backend.rs.
use microsandbox_rb.Common.{
  String, Bool, Option, [], ◌∷◌, Result, ok, err, ◌>>=◌, map_err, if◌then◌else◌,
}
use microsandbox_rb.Error.{RubyError, MicrosandboxError, to_ruby, local_only}
use microsandbox_rb.Backend.Build.{Core}
use microsandbox_rb.Backend.State.{Backend, World}
use microsandbox_rb.Backend.Ops.{ensure_this_process_backend, default_backend}
use microsandbox_rb.Options.Outside.{Outside}
use microsandbox_rb.Options.Conv.{opt, opt_or, opt_string, opt_bool}
use microsandbox_rb.Values.Hashes.{RubyValue, nil, str, hash_of, set_all}
use microsandbox_rb.Native.Call.{Site, State, Call, lift, and_then, on_world, ask_installer, shaped}
use microsandbox_rb.Native.Objects.{Objects, Given, plain}

-- What the core's `Setup` is built with; a part that is not set has the core's default.
pub record SetupOptions : Type 0 where
  pub base_dir : Option String
  pub version : Option String
  pub skip_verify : Bool
  pub force : Bool

pub data InstallRequest : Type 0 where
  install_default : InstallRequest
  install_with : SetupOptions → InstallRequest

abbrev pub InstallReply : InstallRequest → Type 0
InstallReply q = Result MicrosandboxError (Unit {0})

module _ (o : Outside) where
  unfoldable pub setup_options : o.Hash → Result RubyError SetupOptions
  unfolding opt opt_or
  setup_options opts = do
    d ← opt_string o opts "base_dir"
    v ← opt_string o opts "version"
    s ← opt_bool o opts "skip_verify"
    f ← opt_bool o opts "force"
    ok (record { base_dir = d; version = v; skip_verify = s; force = f })

module _ {core : Core} (o : Outside) (t : Objects) (site : Site core InstallReply) where
  abbrev pub Answer : Type 0
  Answer = Given core o t

  abbrev done : Result MicrosandboxError (Unit {0}) → Call site Answer
  done r = lift site (shaped (λ _. plain nil) r)

  unfoldable pub install : Call site Answer
  install = and_then site (ask_installer site install_default) done

  unfoldable pub setup : o.Hash → Call site Answer
  setup opts =
      and_then site (lift site (setup_options o opts))
        (λ s. and_then site (ask_installer site (install_with s)) done)

  -- The core's resolution of the path from a local backend's configuration.
  unfoldable pub msb_ensured :
      (Backend core → Result MicrosandboxError String)
      → Result RubyError (Unit {0}) × World core
      → Result RubyError Answer × World core
  unfolding default_backend local_only
  msb_ensured path_of (err e, w) = (err e, w)
  msb_ensured path_of (ok _, w) =
      let (b, w') = default_backend core site.cur site.env w in
      (
        (if core.is_local b.config
            then (map_err to_ruby (path_of b) >>= λ p. ok (plain (str p)))
            else err (local_only "runtime_path")),
        w',
      )

  unfoldable pub resolved_msb_path :
      (Backend core → Result MicrosandboxError String) → Call site Answer
  resolved_msb_path path_of =
      on_world site
        (λ w. msb_ensured path_of (ensure_this_process_backend core site.cur site.env w))

  -- What the core tells of the default backend; the key is not among it.
  pub record BackendInfo : Type 0 where
    pub is_local : Bool
    pub api_url : RubyValue o
    pub source : String
    pub profile : RubyValue o

  unfoldable pub info_ensured :
      (Backend core → BackendInfo)
      → Result RubyError (Unit {0}) × World core
      → Result RubyError Answer × World core
  unfolding default_backend set_all
  info_ensured info_of (err e, w) = (err e, w)
  info_ensured info_of (ok _, w) =
      let (b, w') = default_backend core site.cur site.env w in
      let info = info_of b in
      (
        ok (
            plain (
              hash_of o (
                ("kind", str (if info.is_local then "local" else "cloud"))
                ∷ ("api_url", info.api_url)
                ∷ ("source", str info.source)
                ∷ ("profile", info.profile)
                ∷ []))),
        w',
      )

  unfoldable pub default_backend_info : (Backend core → BackendInfo) → Call site Answer
  default_backend_info info_of =
      on_world site
        (λ w. info_ensured info_of (ensure_this_process_backend core site.cur site.env w))
