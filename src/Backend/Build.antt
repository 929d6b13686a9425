-- ===== src/Backend/Build.antt =====
-- `build_backend` and `Selection::build`. What the core makes of a profile, an address or its own
-- ladder is a parameter, and may depend on the surroundings (`Env`: variables, files).
use microsandbox_rb.Common.{
  ℕ, String, Bool, true, false, ◌&&◌, Option, none, some, List, [], ◌∷◌, Result, ok, err, ◌==◌,
  if◌then◌else◌, map,
}
use microsandbox_rb.Common.Text.{codes}
use microsandbox_rb.Error.{Operation, MicrosandboxError, invalid_config}
use microsandbox_rb.Error.Names.{to_ascii_lowercase}

pub record Core : Type 1 where
  -- What a backend is besides the process that built it: local, or cloud with its address.
  pub Config : Type 0
  pub Env : Type 0
  pub local : Config
  pub from_profile : Env → String → Result MicrosandboxError Config
  pub cloud : Env → String → String → Result MicrosandboxError Config
  -- `resolve_default_backend`, and what `default_backend` settles on at first use.
  pub resolve_ladder : Env → Result MicrosandboxError Config
  pub first_use : Env → Config
  -- `kind()` is local, which is when `as_local()` gives the local backend.
  pub is_local : Config → Bool
  -- `MicrosandboxError::local_only`
  pub local_only : Operation → MicrosandboxError
  -- `char::is_whitespace`
  pub is_whitespace : ℕ → Bool

pub data Selection : Type 0 where
  ladder : Selection
  explicit : String → Option String → Option String → Option String → Selection

module _ (is_whitespace : ℕ → Bool) where
  unfoldable pub trim_start : List ℕ → List ℕ
  trim_start [] = []
  trim_start (c ∷ cs) = let rest = trim_start cs in if is_whitespace c then rest else c ∷ cs

  unfoldable pub trim_end : List ℕ → List ℕ
  trim_end [] = []
  trim_end (c ∷ cs) = elim (trim_end cs) [
    | [] ↦ if is_whitespace c then [] else c ∷ []
    | d ∷ ds ↦ c ∷ d ∷ ds
  ]

  abbrev pub trim : List ℕ → List ℕ
  trim cs = trim_end (trim_start cs)

unfoldable pub same_codes : List ℕ → List ℕ → Bool
same_codes [] [] = true
same_codes (a ∷ as_) (b ∷ bs) = a == b && same_codes as_ bs
same_codes _ _ = false

unfoldable pub normal_kind : (ℕ → Bool) → String → List ℕ
unfolding trim_start trim_end to_ascii_lowercase
normal_kind space kind = map to_ascii_lowercase (trim space (codes kind))

module _ (core : Core) (env : core.Env) where
  abbrev pub build_cloud :
      Option String → Option String → Option String → Result MicrosandboxError core.Config
  build_cloud url api_key (some profile) = core.from_profile env profile
  build_cloud (some url) (some api_key) none = core.cloud env url api_key
  build_cloud _ _ none = err (invalid_config "cloud backend requires url + api_key or profile")

  unfoldable pub build_backend :
      String → Option String → Option String → Option String → Result MicrosandboxError core.Config
  unfolding normal_kind same_codes
  build_backend kind url api_key profile =
      let k = normal_kind core.is_whitespace kind in
      if same_codes k (codes "local")
      then ok core.local
      else if same_codes k (codes "cloud")
      then build_cloud url api_key profile
      else err (invalid_config "backend kind must be 'local' or 'cloud'")

  -- `Selection::build`
  unfoldable pub build : Selection → Result MicrosandboxError core.Config
  unfolding build_backend
  build ladder = core.resolve_ladder env
  build (explicit kind url api_key profile) = build_backend kind url api_key profile
