-- ===== src/Options/Rules.antt =====
-- Network rules of sandbox.rs: actions, directions, protocols and destinations.
use microsandbox_rb.Common.{
  ℕ, String, Bool, true, false, ◌&&◌, ◌||◌, Option, none, some, List, [], ◌∷◌, ◌++◌, Result, ok,
  err, ◌>>=◌, if◌then◌else◌, map_err, ok_or, ◌==◌,
}
use microsandbox_rb.Common.Text.{◌=?◌, codes}
use microsandbox_rb.Error.{RubyError, base_error, exception, quoted}
use microsandbox_rb.Options.Outside.{Outside}
use microsandbox_rb.Options.Conv.{opt, opt_or, opt_string, opt_string_vec}
use microsandbox_rb.Options.HostPath.{contains, starts_with}
use microsandbox_rb.Options.Ports.{PortRange, parse_port_range}
use microsandbox_rb.Options.Patches.{patch_str}

pub data Action : Type 0 where
  allow deny : Action

pub data Direction : Type 0 where
  egress ingress any : Direction

pub data Protocol : Type 0 where
  tcp udp icmpv4 icmpv6 : Protocol

pub data DestinationGroup : Type 0 where
  public loopback private_ link_local metadata multicast host : DestinationGroup

pub data Destination (o : Outside) : Type 0 where
  anywhere : Destination o
  cidr : o.Cidr → Destination o
  domain : o.Domain → Destination o
  domain_suffix : o.Suffix → Destination o
  group : DestinationGroup → Destination o

pub record Rule (o : Outside) : Type 0 where
  pub direction : Direction
  pub destination : Destination o
  pub protocols : List Protocol
  pub ports : List PortRange
  pub action : Action

unfoldable pub action_from_str : String → Result RubyError Action
action_from_str s =
    if s =? "allow"
    then ok allow
    else if s =? "deny"
    then ok deny
    else err (base_error "unknown network action {:?} (expected allow/deny)" (s ∷ []))

unfoldable pub direction_from_str : String → Result RubyError Direction
direction_from_str s =
    if s =? "egress"
    then ok egress
    else if s =? "ingress"
    then ok ingress
    else if s =? "any"
    then ok any
    else err (base_error "unknown rule direction {:?} (expected egress/ingress/any)" (s ∷ []))

unfoldable pub protocol_from_str : String → Result RubyError Protocol
protocol_from_str s =
    if s =? "tcp"
    then ok tcp
    else if s =? "udp"
    then ok udp
    else if s =? "icmpv4"
    then ok icmpv4
    else if s =? "icmpv6"
    then ok icmpv6
    else err (base_error "unknown protocol {:?} (expected tcp/udp/icmpv4/icmpv6)" (s ∷ []))

unfoldable pub maybe_group_destination : String → Option DestinationGroup
maybe_group_destination s =
    if s =? "public"
    then some public
    else if s =? "loopback"
    then some loopback
    else if s =? "private"
    then some private_
    else if s =? "link-local" || s =? "link_local"
    then some link_local
    else if s =? "metadata"
    then some metadata
    else if s =? "multicast"
    then some multicast
    else if s =? "host"
    then some host
    else none

-- Equality of protocols and of port ranges, as `contains` uses it.
unfoldable pub protocol_code : Protocol → ℕ
protocol_code tcp = 0
protocol_code udp = 1
protocol_code icmpv4 = 2
protocol_code icmpv6 = 3

unfoldable pub same_protocol : Protocol → Protocol → Bool
unfolding protocol_code
same_protocol p q = protocol_code p == protocol_code q

unfoldable pub same_range : PortRange → PortRange → Bool
same_range a b = a.start == b.start && a.end == b.end

-- `strip_prefix`
unfoldable pub strip_prefix : List ℕ → List ℕ → Option (List ℕ)
strip_prefix [] rest = some rest
strip_prefix (p ∷ ps) [] = none
strip_prefix (p ∷ ps) (c ∷ cs) = let rest = strip_prefix ps cs in if p == c then rest else none

module _ {ℓ} {A : Type ℓ} (same : A → A → Bool) where
  unfoldable pub includes : A → List A → Bool
  includes x [] = false
  includes x (y ∷ ys) = same x y || includes x ys

  unfoldable pub push_new : A → List A → List A
  unfolding includes
  push_new x out = if includes x out then out else out ++ (x ∷ [])

  -- The loop that parses each text and pushes what is not there yet.
  unfoldable pub distinct {κ} :
      {E : Type κ} → (String → Result E A) → List A → List String → Result E (List A)
  unfolding push_new
  distinct parse out [] = ok out
  distinct parse out (t ∷ ts) = do x ← parse t; distinct parse (push_new x out) ts

module _ (o : Outside) where
  unfoldable pub parse_ip_destination : String → Result RubyError (Destination o)
  parse_ip_destination raw = do
    c ←
        map_err (λ e. base_error "invalid IP address {:?}: {}" (raw ∷ e ∷ []))
          (o.ip_cidr (codes raw))
    ok (cidr c)

  unfoldable pub parse_cidr_destination : String → Result RubyError (Destination o)
  parse_cidr_destination raw = do
    c ← map_err (λ e. base_error "invalid CIDR {:?}: {}" (raw ∷ e ∷ [])) (o.cidr (codes raw))
    ok (cidr c)

  unfoldable pub parse_domain_destination : List ℕ → Result RubyError (Destination o)
  parse_domain_destination cs = do
    d ← map_err (λ e. exception "Error" (quoted "invalid domain {:?}: {}" cs e)) (o.domain cs)
    ok (domain d)

  unfoldable pub parse_domain_suffix_destination : List ℕ → Result RubyError (Destination o)
  parse_domain_suffix_destination cs = do
    d ←
        map_err (λ e. exception "Error" (quoted "invalid domain suffix {:?}: {}" cs e))
          (o.domain_suffix cs)
    ok (domain_suffix d)

  unfoldable pub parse_group_destination : String → Result RubyError (Destination o)
  unfolding maybe_group_destination
  parse_group_destination raw = do
    g ← ok_or (base_error "unknown destination group {:?}" (raw ∷ [])) (maybe_group_destination raw)
    ok (group g)

  abbrev pub is_ip : List ℕ → Bool
  is_ip cs = elim (o.ip_cidr cs) [ ok _ ↦ true | err _ ↦ false ]

  unfoldable pub parse_plain_destination : String → Result RubyError (Destination o)
  unfolding parse_ip_destination parse_cidr_destination parse_domain_destination
      parse_domain_suffix_destination maybe_group_destination contains starts_with
  parse_plain_destination raw = elim (maybe_group_destination raw) [
    | some g ↦ ok (group g)
    | none ↦
        let cs = codes raw in
        if starts_with b'.' cs
        then parse_domain_suffix_destination cs
        else if contains b'/' cs
        then parse_cidr_destination raw
        else if is_ip cs
        then parse_ip_destination raw
        else parse_domain_destination cs
  ]

  unfoldable pub parse_shorthand_destination : Option String → Result RubyError (Destination o)
  unfolding strip_prefix parse_domain_destination parse_domain_suffix_destination
      parse_plain_destination
  parse_shorthand_destination none = ok anywhere
  parse_shorthand_destination (some raw) =
      if raw =? "*" then ok anywhere else elim (strip_prefix (codes "domain=") (codes raw)) [
        | some rest ↦ parse_domain_destination rest
        | none ↦ elim (strip_prefix (codes "suffix=") (codes raw)) [
          | some rest ↦ parse_domain_suffix_destination rest
          | none ↦ parse_plain_destination raw
        ]
      ]

  abbrev pub destination_text : String → Option String → Result RubyError String
  destination_text kind raw =
      ok_or (base_error "destination is required for destination kind {:?}" (kind ∷ [])) raw

  unfoldable pub parse_destination :
      Option String → Option String → Result RubyError (Destination o)
  unfolding parse_ip_destination parse_cidr_destination parse_domain_destination
      parse_domain_suffix_destination parse_group_destination parse_shorthand_destination
  parse_destination none raw = parse_shorthand_destination raw
  parse_destination (some kind) raw =
      if kind =? "any"
      then ok anywhere
      else if kind =? "ip"
      then destination_text "ip" raw >>= parse_ip_destination
      else if kind =? "cidr"
      then destination_text "cidr" raw >>= parse_cidr_destination
      else if kind =? "domain"
      then destination_text "domain" raw >>= (λ t. parse_domain_destination (codes t))
      else if kind =? "domain_suffix" || kind =? "domain-suffix"
      then destination_text "domain_suffix" raw >>= (λ t. parse_domain_suffix_destination (codes t))
      else if kind =? "group"
      then destination_text "group" raw >>= parse_group_destination
      else err (base_error "unknown destination kind {:?}" (kind ∷ []))

  abbrev pub direction_or_egress : Option String → Result RubyError Direction
  direction_or_egress none = ok egress
  direction_or_egress (some s) = direction_from_str s

  unfoldable pub parse_rule : o.Hash → Result RubyError (Rule o)
  unfolding patch_str action_from_str direction_from_str protocol_from_str parse_destination
      parse_port_range distinct same_protocol same_range opt opt_or
  parse_rule rd = do
    act ← patch_str o rd "action"
    action ← action_from_str act
    dir ← opt_string o rd "direction"
    direction ← direction_or_egress dir
    kind ← opt_string o rd "destination_kind"
    raw ← opt_string o rd "destination"
    destination ← parse_destination kind raw
    ps ← opt_string_vec o rd "protocols"
    protocols ← distinct same_protocol protocol_from_str [] ps
    qs ← opt_string_vec o rd "ports"
    ports ← distinct same_range (parse_port_range o) [] qs
    ok (record {
      direction = direction;
      destination = destination;
      protocols = protocols;
      ports = ports;
      action = action;
    })
