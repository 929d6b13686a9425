-- ===== src/Tests/Fixtures.antt =====
-- Instances of the core, of Ruby and of the option values.
use microsandbox_rb.Common.{
  ℕ, ◌+◌, ◌/◌, String, Bool, true, false, Option, none, some, List, [], ◌∷◌, Result, ok, err, ltb,
  if◌then◌else◌, ◌==◌,
}
use microsandbox_rb.Common.Int.{pos}
use microsandbox_rb.Common.Text.{◌=?◌}
use microsandbox_rb.Error.{RubyError, raised, io, unsupported, use_instead}
use microsandbox_rb.Runtime.Identity.{ProcessIdentity}
use microsandbox_rb.Runtime.Nogvl.{Ruby, Run, value}
use microsandbox_rb.Backend.Build.{Core, Selection, explicit}
use microsandbox_rb.Options.Outside.{Outside}
use microsandbox_rb.Options.Policy.{Policies, NetworkPolicy}
use microsandbox_rb.Options.Rules.{allow, deny, egress}

pub data Config : Type 0 where
  local_config : Config
  cloud_config : String → Config

-- The surroundings say whether a profile can be read and a cloud can be reached.
abbrev pub core : Core
core = record {
  Config = Config;
  Env = Bool;
  local = local_config;
  from_profile = λ env name. if env then ok (cloud_config name) else err (io "no such profile");
  cloud = λ env url key. if env then ok (cloud_config url) else err (io "unreachable");
  resolve_ladder = λ env. ok local_config;
  first_use = λ env. local_config;
  is_local = λ c. elim c [ local_config ↦ true | cloud_config _ ↦ false ];
  local_only = λ op. unsupported op (use_instead op);
  is_whitespace = λ c. c == 32;
}

abbrev pub parent : ProcessIdentity
parent = record { pid = 100; generation = 0 }

abbrev pub child : ProcessIdentity
child = record { pid = 200; generation = 1 }

abbrev pub in_cloud : Selection
in_cloud = explicit "cloud" (some "https://cloud") (some "key") none

abbrev pub on_host : Selection
on_host = explicit " Local" none none none

-- A CRuby that raises no interrupt and lets the third attempt start.
abbrev pub patient : Ruby
patient = record { check = λ _. ok tt; starts = λ n. n == 2 }

-- One that raises an interrupt at the second check.
abbrev pub interrupting : Ruby
interrupting = record {
  check = λ n. if n == 1 then err (raised "Interrupt") else ok tt;
  starts = λ n. false;
}

abbrev pub count : ℕ → Run String × ℕ
count n = (value "done", n + 1)

-- Values of a small Ruby: a Hash is a chain of entries, an Array a chain of items.
pub data Value : Type 0 where
  text : String → Value
  number : ℕ → Value
  truth : Bool → Value
  finish : Value
  entry : String → Value → Value → Value
  item : Value → Value → Value

abbrev pub lookup : Value → String → Option Value
lookup (entry k v rest) key = if k =? key then some v else lookup rest key
lookup (text _) key = none
lookup (number _) key = none
lookup (truth _) key = none
lookup finish key = none
lookup (item _ _) key = none

abbrev pub wrong : RubyError
wrong = raised "TypeError"

abbrev pub as_text : Value → Result RubyError String
as_text (text s) = ok s
as_text (number _) = err wrong
as_text (truth _) = err wrong
as_text finish = err wrong
as_text (entry _ _ _) = err wrong
as_text (item _ _) = err wrong

abbrev pub as_number : ℕ → Value → Result RubyError ℕ
as_number bound (number n) = if ltb n bound then ok n else err (raised "RangeError")
as_number bound (text _) = err wrong
as_number bound (truth _) = err wrong
as_number bound finish = err wrong
as_number bound (entry _ _ _) = err wrong
as_number bound (item _ _) = err wrong

abbrev pub as_truth : Value → Result RubyError Bool
as_truth (truth b) = ok b
as_truth (text _) = ok true
as_truth (number _) = ok true
as_truth finish = ok true
as_truth (entry _ _ _) = ok true
as_truth (item _ _) = ok true

abbrev pub as_hash : Value → Result RubyError Value
as_hash (entry k v rest) = ok (entry k v rest)
as_hash finish = ok finish
as_hash (text _) = err wrong
as_hash (number _) = err wrong
as_hash (truth _) = err wrong
as_hash (item _ _) = err wrong

abbrev pub items : Value → List Value
items (item v rest) = v ∷ items rest
items finish = []
items (text _) = []
items (number _) = []
items (truth _) = []
items (entry _ _ _) = []

abbrev pub texts : List Value → List String
texts [] = []
texts (text s ∷ vs) = s ∷ texts vs
texts (number _ ∷ vs) = texts vs
texts (truth _ ∷ vs) = texts vs
texts (finish ∷ vs) = texts vs
texts (entry _ _ _ ∷ vs) = texts vs
texts (item _ _ ∷ vs) = texts vs

abbrev pub pairs : Value → List (String × String)
pairs (entry k (text v) rest) = (k, v) ∷ pairs rest
pairs (entry k (number _) rest) = pairs rest
pairs (entry k (truth _) rest) = pairs rest
pairs (entry k finish rest) = pairs rest
pairs (entry k (entry _ _ _) rest) = pairs rest
pairs (entry k (item _ _) rest) = pairs rest
pairs finish = []
pairs (text _) = []
pairs (number _) = []
pairs (truth _) = []
pairs (item _ _) = []

abbrev pub outside : Outside
outside = record {
  Value = Value;
  Hash = Value;
  F64 = ℕ;
  Bytes = String;
  DateTime = ℕ;
  hash_get = lookup;
  is_nil = λ _. false;
  to_string = as_text;
  to_bool = as_truth;
  to_u8 = as_number 256;
  to_u32 = as_number 4294967296;
  to_u64 = as_number 18446744073709551616;
  to_usize = as_number 18446744073709551616;
  to_f64 = as_number 9007199254740992;
  to_bytes = as_text;
  to_hash = as_hash;
  to_array = λ v. ok (items v);
  to_strings = λ v. ok (texts (items v));
  to_u16s = λ v. ok [];
  to_string_map = λ v. ok (pairs v);
  to_port_map = λ v. ok [];
  to_limits = λ v. ok [];
  show = λ n. "";
  duration = λ n. ok n;
  ms_to_datetime = λ n. some n;
  as_secs_f64 = λ n. n / 1_000_000_000;
  timestamp_millis = λ n. pos n;
  parse_rfc3339 = λ s. none;
  text_bytes = λ s. s;
  zero_f64 = 0;
  is_finite = λ n. true;
  is_nonneg = λ n. true;
  is_nonpos = λ n. n == 0;
  DiskImageFormat = String;
  Nameserver = String;
  Domain = List ℕ;
  Suffix = List ℕ;
  Cidr = List ℕ;
  LogCursor = String;
  disk_image_format = λ s. ok s;
  nameserver = λ s. ok s;
  domain = λ s. ok s;
  domain_suffix = λ s. ok s;
  cidr = λ s. err "not an address";
  ipv4_network = λ s. err "not an address";
  ipv6_network = λ s. err "not an address";
  log_cursor = λ s. ok s;
  ip_cidr = λ s. err "not an address";
  is_whitespace = λ c. c == 32;
  absolute = λ p. ok (String.◌∷◌ "/" p);
  is_utf8 = λ p. true;
  local_rootfs = λ p. some p;
}

abbrev pub open_policy : NetworkPolicy outside
open_policy = record { default_egress = allow; default_ingress = allow; rules = [] }

abbrev pub policies : Policies outside
policies = record {
  no_network = record { default_egress = deny; default_ingress = deny; rules = [] };
  allow_all = open_policy;
  from_profiles = λ ps. open_policy;
  deny_egress = λ d. record {
    direction = egress;
    destination = d;
    protocols = [];
    ports = [];
    action = deny;
  };
}
