-- ===== src/Tests/Parsing.antt =====
-- The theorems on options, at concrete Hashes.
use microsandbox_rb.Common.{
  ◌≢◌, ◌≡◌, refl, String, true, none, some, [], ◌∷◌, ◌++◌, ok, All, ◌↔◌, ◌>>=◌, subst,
}
use microsandbox_rb.Common.Successes.{Ok}
use microsandbox_rb.Options.HostPath.{is_absolute, starts_with}
use microsandbox_rb.Options.NamedVolumes.{HasKind, create_calls, create_calls-HasKind, contained}
use microsandbox_rb.Options.CreateLaws.{IsLocal, build_builder-Pinned}
use microsandbox_rb.Options.Create.{build_builder}
use microsandbox_rb.Options.PortBounds.{IsRange, parse_port_range-IsRange}
use microsandbox_rb.Options.Conv.{checked}
use microsandbox_rb.Options.Ports.{parse_port_range}
use microsandbox_rb.Options.Rules.{parse_rule}
use microsandbox_rb.Options.RuleLists.{IsProper, parse_rule-IsProper}
use microsandbox_rb.Options.Registry.{parse_registry_config}
use microsandbox_rb.Options.RegistryLaws.{IsUntouched, parse_registry_config-IsUntouched}
use microsandbox_rb.Options.Enums.{sandbox_status_from_str, sandbox_status_str, draining}
use microsandbox_rb.Options.StatusLaws.{sandbox_status_from_str_iff}
use microsandbox_rb.Options.Modify.{build_modify_patch}
use microsandbox_rb.Options.ModifyLaws.{IsOrdered, build_modify_patch-IsOrdered}
use microsandbox_rb.Options.Secrets.{parse_secret}
use microsandbox_rb.Options.SecretLaws.{HasHost, parse_secret-HasHost}
use microsandbox_rb.Options.Lifecycle.{push_sources, push_source, every_source, stderr}
use microsandbox_rb.Options.LogLaws.{push_sources-all}
use microsandbox_rb.Runtime.Identity.{to_bits}
use microsandbox_rb.Backend.Build.{ladder}
use microsandbox_rb.Backend.State.{World}
use microsandbox_rb.Backend.Ops.{ensure_this_process_backend}
use microsandbox_rb.Tests.Fixtures.{
  core, parent, local_config, outside, policies, Value, number, text, finish, entry, item,
}
use microsandbox_rb.Options.PinnedPaths.{PinnedCall}

pub outside_absolute : (p q : String) → outside.absolute p ≡ ok q → is_absolute q ≡ true
unfolding is_absolute starts_with
outside_absolute p q e =
    let same : String.◌∷◌ "/" p ≡ q = cc in subst (λ x. is_absolute x ≡ true) same refl

-- A Hash with a relative image, a relative bind mount, a copying patch and a rule's texts.
abbrev mount : Value
mount =
    entry "guest" (text "/data") (entry "kind" (text "bind") (entry "source" (text "data") finish))

abbrev copying : Value
copying = entry "kind" (text "copy_file") (entry "src" (text "a") (entry "dst" (text "/a") finish))

abbrev pub create_options : Value
create_options = entry "image" (text "rootfs") (
    entry "volumes" (item mount finish) (
      entry "patches" (item copying finish) (
        entry "root_disk" (entry "kind" (text "disk") (entry "path" (text "disk.raw") finish))
          finish)))

abbrev local_world : World core
local_world = record {
  slot = some (record { builder = parent; config = local_config });
  selection = ladder;
  owner = to_bits parent;
  next_scope = 1;
  scopes = [];
  dropped = [];
  leaked = [];
}

IsLocal-after :
    IsLocal core parent true outside policies outside_absolute
      (build_builder core parent true outside policies create_options local_world).1
unfolding build_builder ensure_this_process_backend to_bits
IsLocal-after = (record { builder = parent; config = local_config }, refl, refl)

build_builder-Pinned_example :
    Ok
      (All (PinnedCall outside))
      (build_builder core parent true outside policies create_options local_world).0
build_builder-Pinned_example =
    build_builder-Pinned core parent true outside policies outside_absolute create_options
      local_world IsLocal-after

parse_port_range-IsRange_example : Ok IsRange (parse_port_range outside "8000 - 9000")
parse_port_range-IsRange_example = parse_port_range-IsRange outside "8000 - 9000"

parse_port_range_test :
    parse_port_range outside "8000 - 9000" ≡ ok (record { start = 8000; end = 9000 })
unfolding parse_port_range ◌>>=◌ checked
parse_port_range_test = refl

abbrev rule : Value
rule = entry "action" (text "allow") (
    entry "destination" (text "example.com") (
      entry "protocols" (item (text "tcp") (item (text "udp") (item (text "tcp") finish)))
        (entry "ports" (item (text "443") (item (text "443-443") finish)) finish)))

parse_rule-IsProper_example : Ok (IsProper outside) (parse_rule outside rule)
parse_rule-IsProper_example = parse_rule-IsProper outside rule

abbrev registry : Value
registry = entry "registry_username" (text "me") finish

parse_registry_config-IsUntouched_example :
    (parse_registry_config outside registry ≡ ok none) ↔ IsUntouched outside registry
parse_registry_config-IsUntouched_example = parse_registry_config-IsUntouched outside registry

sandbox_status_from_str_iff_example :
    (sandbox_status_from_str "draining" ≡ ok draining) ↔ ("draining" ≡ sandbox_status_str draining)
sandbox_status_from_str_iff_example = sandbox_status_from_str_iff "draining" draining

abbrev modification : Value
modification = entry "env" (entry "B" (text "2") (entry "A" (text "1") finish)) finish

build_modify_patch-IsOrdered_example : Ok IsOrdered (build_modify_patch outside modification)
build_modify_patch-IsOrdered_example = build_modify_patch-IsOrdered outside modification

abbrev secret : Value
secret =
    entry "env" (text "KEY")
      (entry "value" (text "s3cret") (entry "hosts" (item (text "api") finish) finish))

parse_secret-HasHost_example : Ok (HasHost outside) (parse_secret outside secret)
parse_secret-HasHost_example = parse_secret-HasHost outside secret

push_sources_test :
    push_sources [] (("stderr" ∷ []) ++ ("all" ∷ "stdout" ∷ []))
    ≡ push_sources every_source ("stdout" ∷ [])
unfolding push_sources push_source ◌>>=◌
push_sources_test = push_sources-all [] ("stderr" ∷ []) ("stdout" ∷ []) (stderr ∷ []) found
  where
    found : push_sources [] ("stderr" ∷ []) ≡ ok (stderr ∷ [])
    found = refl

abbrev volume_options : Value
volume_options = entry "kind" (text "disk") (entry "size_mib" (number 64) finish)

create_calls-HasKind_example : Ok HasKind (create_calls outside volume_options)
create_calls-HasKind_example = create_calls-HasKind outside volume_options

contained_test : contained "a/../b" ≢ ok "a/../b"
unfolding contained
contained_test e = absurd (cc)
