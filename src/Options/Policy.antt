-- ===== src/Options/Policy.antt =====
-- Network policies of sandbox.rs. What the core makes of profiles and presets is a parameter.
use microsandbox_rb.Common.{
  String, ◌||◌, Option, none, some, List, [], ◌∷◌, ◌++◌, Result, ok, err, ◌>>=◌, if◌then◌else◌,
  traverse, each, map_err,
}
use microsandbox_rb.Common.Text.{◌=?◌, codes}
use microsandbox_rb.Error.{RubyError, base_error}
use microsandbox_rb.Options.Outside.{Outside}
use microsandbox_rb.Options.Conv.{
  opt, opt_or, opt_string, opt_hash, opt_string_vec, opt_hash_vec, to_hashes,
}
use microsandbox_rb.Options.Rules.{
  Rule, Action, deny, allow, Destination, domain, domain_suffix, parse_rule, action_from_str,
}

pub record NetworkPolicy (o : Outside) : Type 0 where
  pub default_egress : Action
  pub default_ingress : Action
  pub rules : List (Rule o)

pub data NetworkProfile : Type 0 where
  public private_ host : NetworkProfile

unfoldable pub network_profile_from_str : String → Result RubyError NetworkProfile
network_profile_from_str s =
    if s =? "public"
    then ok public
    else if s =? "private"
    then ok private_
    else if s =? "host"
    then ok host
    else err (base_error "unknown network profile {:?} (expected public/private/host)" (s ∷ []))

-- `NetworkPolicy::none`, `allow_all` and `from_profiles`, and `Rule::deny_egress`.
pub record Policies (o : Outside) : Type 0 where
  pub no_network : NetworkPolicy o
  pub allow_all : NetworkPolicy o
  pub from_profiles : List NetworkProfile → NetworkPolicy o
  pub deny_egress : Destination o → Rule o

module _ (o : Outside) (core : Policies o) where
  unfoldable pub network_preset : String → Result RubyError (NetworkPolicy o)
  network_preset p =
      if p =? "none" || p =? "disabled" || p =? "disable" || p =? "airgapped"
      then ok core.no_network
      else if p =? "all" || p =? "allow_all" || p =? "allow-all"
      then ok core.allow_all
      else err (
          base_error
            "unknown network preset {:?} (expected none/allow_all; the removed public_only/non_local presets are replaced by composable profiles)"
            (p ∷ []))

  unfoldable pub deny_domain : String → Result RubyError (Rule o)
  deny_domain d = do
    name ← map_err (λ e. base_error "deny_domains {:?}: {}" (d ∷ e ∷ [])) (o.domain (codes d))
    ok (core.deny_egress (domain name))

  unfoldable pub deny_domain_suffix : String → Result RubyError (Rule o)
  deny_domain_suffix s = do
    name ←
        map_err (λ e. base_error "deny_domain_suffixes {:?}: {}" (s ∷ e ∷ []))
          (o.domain_suffix (codes s))
    ok (core.deny_egress (domain_suffix name))

  -- The base: profiles, or else a preset, or neither.
  unfoldable pub policy_base :
      List String → Option String → Result RubyError (Option (NetworkPolicy o))
  unfolding network_preset network_profile_from_str each
  policy_base [] preset = traverse network_preset preset
  policy_base (p ∷ ps) (some _) =
      err (base_error "network profiles: and preset: are mutually exclusive" [])
  policy_base (p ∷ ps) none = do
    profiles ← each network_profile_from_str (p ∷ ps)
    ok (some (core.from_profiles profiles))

  abbrev pub base_rules : Option (NetworkPolicy o) → List (Rule o)
  base_rules none = []
  base_rules (some base) = base.rules

  abbrev pub base_egress : Option (NetworkPolicy o) → Action
  base_egress none = deny
  base_egress (some base) = base.default_egress

  abbrev pub base_ingress : Option (NetworkPolicy o) → Action
  base_ingress none = allow
  base_ingress (some base) = base.default_ingress

  unfoldable pub default_action : Option String → Action → Result RubyError Action
  unfolding action_from_str
  default_action none base = ok base
  default_action (some s) base = action_from_str s

  unfoldable pub parse_policy : o.Hash → Result RubyError (NetworkPolicy o)
  unfolding opt opt_or each to_hashes deny_domain deny_domain_suffix policy_base parse_rule
      default_action
  parse_policy np = do
    domains ← opt_string_vec o np "deny_domains"
    denied ← each deny_domain domains
    suffixes ← opt_string_vec o np "deny_domain_suffixes"
    denied_suffixes ← each deny_domain_suffix suffixes
    profiles ← opt_string_vec o np "profiles"
    preset ← opt_string o np "preset"
    base ← policy_base profiles preset
    hs ← opt_hash_vec o np "rules"
    explicit ← each (parse_rule o) hs
    out ← opt_string o np "default_egress"
    default_egress ← default_action out (base_egress base)
    in_ ← opt_string o np "default_ingress"
    default_ingress ← default_action in_ (base_ingress base)
    ok (record {
      default_egress = default_egress;
      default_ingress = default_ingress;
      rules = (denied ++ denied_suffixes) ++ (explicit ++ base_rules base);
    })

  unfoldable pub parse_network_policy : o.Hash → Result RubyError (Option (NetworkPolicy o))
  unfolding opt parse_policy
  parse_network_policy opts = do np ← opt_hash o opts "network_policy"; traverse parse_policy np
