-- ===== src/Options/Enums.antt =====
-- The string conventions of sandbox.rs.
use microsandbox_rb.Common.{
  String, ◌||◌, Option, none, some, List, [], ◌∷◌, Result, ok, err, if◌then◌else◌,
}
use microsandbox_rb.Common.Text.{◌=?◌}
use microsandbox_rb.Error.{RubyError, base_error}

pub data LogLevel : Type 0 where
  error warn info debug trace : LogLevel

unfoldable pub log_level_from_str : String → Result RubyError LogLevel
log_level_from_str s =
    if s =? "error"
    then ok error
    else if s =? "warn"
    then ok warn
    else if s =? "info"
    then ok info
    else if s =? "debug"
    then ok debug
    else if s =? "trace"
    then ok trace
    else err (base_error "unknown log level {:?} (expected error/warn/info/debug/trace)" (s ∷ []))

pub data PullPolicy : Type 0 where
  always if_missing never : PullPolicy

unfoldable pub pull_policy_from_str : String → Result RubyError PullPolicy
pull_policy_from_str s =
    if s =? "always"
    then ok always
    else if s =? "if-missing" || s =? "if_missing"
    then ok if_missing
    else if s =? "never"
    then ok never
    else err (base_error "unknown pull policy {:?} (expected always/if-missing/never)" (s ∷ []))

pub data SecurityProfile : Type 0 where
  default restricted : SecurityProfile

unfoldable pub security_profile_from_str : String → Result RubyError SecurityProfile
security_profile_from_str s =
    if s =? "default"
    then ok default
    else if s =? "restricted"
    then ok restricted
    else err (base_error "unknown security profile {:?} (expected default/restricted)" (s ∷ []))

pub data StatVirtualization : Type 0 where
  strict relaxed off : StatVirtualization

unfoldable pub stat_virtualization_from_str : String → Result RubyError StatVirtualization
stat_virtualization_from_str s =
    if s =? "strict"
    then ok strict
    else if s =? "relaxed"
    then ok relaxed
    else if s =? "off"
    then ok off
    else err (base_error "unknown stat_virtualization {:?} (expected strict/relaxed/off)" (s ∷ []))

pub data HostPermissions : Type 0 where
  private_ mirror : HostPermissions

unfoldable pub host_permissions_from_str : String → Result RubyError HostPermissions
host_permissions_from_str s =
    if s =? "private"
    then ok private_
    else if s =? "mirror"
    then ok mirror
    else err (base_error "unknown host_permissions {:?} (expected private/mirror)" (s ∷ []))

pub data SandboxStatus : Type 0 where
  created starting running draining paused stopped crashed : SandboxStatus

unfoldable pub sandbox_status_str : SandboxStatus → String
sandbox_status_str created = "created"
sandbox_status_str starting = "starting"
sandbox_status_str running = "running"
sandbox_status_str draining = "draining"
sandbox_status_str paused = "paused"
sandbox_status_str stopped = "stopped"
sandbox_status_str crashed = "crashed"

unfoldable pub sandbox_status_from_str : String → Result RubyError SandboxStatus
sandbox_status_from_str s =
    if s =? "created"
    then ok created
    else if s =? "starting"
    then ok starting
    else if s =? "running"
    then ok running
    else if s =? "draining"
    then ok draining
    else if s =? "paused"
    then ok paused
    else if s =? "stopped"
    then ok stopped
    else if s =? "crashed"
    then ok crashed
    else err (
        base_error
          "unknown sandbox status {:?} (expected created/starting/running/draining/paused/stopped/crashed)"
          (s ∷ []))

pub data RlimitResource : Type 0 where
  cpu fsize data_ stack core rss nproc nofile : RlimitResource
  memlock as_ locks sigpending msgqueue nice rtprio rttime : RlimitResource

abbrev pub rlimit_names : List (String × RlimitResource)
rlimit_names =
    ("cpu", cpu)
    ∷ ("fsize", fsize)
    ∷ ("data", data_)
    ∷ ("stack", stack)
    ∷ ("core", core)
    ∷ ("rss", rss)
    ∷ ("nproc", nproc)
    ∷ ("nofile", nofile)
    ∷ ("memlock", memlock)
    ∷ ("as", as_)
    ∷ ("locks", locks)
    ∷ ("sigpending", sigpending)
    ∷ ("msgqueue", msgqueue)
    ∷ ("nice", nice)
    ∷ ("rtprio", rtprio)
    ∷ ("rttime", rttime)
    ∷ []

-- The arms of a `match` on a text, in order.
unfoldable pub arm {ℓ} : {A : Type ℓ} → String → List (String × A) → Option A
arm s [] = none
arm s ((name, a) ∷ rest) = if s =? name then some a else arm s rest

unfoldable pub rlimit_resource_from_str : String → Result RubyError RlimitResource
unfolding arm
rlimit_resource_from_str s = elim (arm s rlimit_names) [
  | none ↦ err (base_error "unknown rlimit resource {:?}" (s ∷ []))
  | some r ↦ ok r
]
