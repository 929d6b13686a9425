-- ===== src/Tests/Backends.antt =====
-- The theorems on the backend, at concrete histories.
use microsandbox_rb.Common.{
  ◌≡◌, ◌≢◌, refl, Bool, true, false, none, some, List, [], ◌∷◌, ok, All, arith,
}
use microsandbox_rb.Error.Names.{to_ascii_lowercase, is_ascii_uppercase}
use microsandbox_rb.Runtime.Identity.{to_bits}
use microsandbox_rb.Backend.Build.{same_codes, build}
use microsandbox_rb.Backend.State.{loaded, World, Scope, resolved, find_scope}
use microsandbox_rb.Backend.Ops.{
  default_backend_kind, set_default_backend, push_default_backend, pop_default_backend,
  ensure_this_process_backend, default_backend,
}
use microsandbox_rb.Backend.Ownership.{DropIsOwn, IsReal}
use microsandbox_rb.Backend.History.{
  Action, System, selects, pushes, pops, uses, forks, run, start, IsPossible, run-DropIsOwn,
  default_backend-run,
}
use microsandbox_rb.Backend.OpenScopes.{Inside, body}
use microsandbox_rb.Backend.Scopes.{pop-body-push}
use microsandbox_rb.Backend.Forked.{
  SelectsFrom, RestoresFrom, set_default_backend_inherited, pop_default_backend_inherited,
  pop_default_backend-consumes,
}
use microsandbox_rb.Tests.Fixtures.{
  core, local_config, cloud_config, parent, child, in_cloud, on_host,
}

abbrev parent-IsReal : IsReal core parent
parent-IsReal = (record { pid_fits = omega arith; generation_fits = omega arith }, λ e. omega arith)

-- A parent selects a cloud and opens a scope; its child, with the same pid, cannot reach the cloud
-- at first, and then leaves the scope.
abbrev history : List (Bool × Action)
history =
    (true, selects in_cloud)
    ∷ (true, pushes on_host)
    ∷ (true, forks 100)
    ∷ (false, selects in_cloud)
    ∷ (true, pops 1)
    ∷ (true, uses)
    ∷ []

history-Possible : IsPossible core (forks 100)
history-Possible = (omega arith, λ e. omega arith)

run-DropIsOwn_example : All (DropIsOwn core) (run core history (start core parent)).world.dropped
run-DropIsOwn_example =
    run-DropIsOwn core parent history parent-IsReal
      (tt, (tt, (history-Possible, (tt, (tt, (tt, tt))))))

abbrev left : System core
left = run core history (start core parent)

checked_backend : (ensure_this_process_backend core left.cur true left.world).0 ≡ ok tt
unfolding run ensure_this_process_backend to_bits loaded same_codes to_ascii_lowercase
    is_ascii_uppercase default_backend_kind pop_default_backend set_default_backend
    push_default_backend build
checked_backend = refl

default_backend-run_example :
    let r = ensure_this_process_backend core left.cur true left.world in
    (default_backend core left.cur true r.1).0.builder ≡ left.cur
default_backend-run_example =
    default_backend-run core parent history true parent-IsReal
      (tt, (tt, (history-Possible, (tt, (tt, (tt, tt)))))) checked_backend

-- The parent owns its backend, and has a scope open.
abbrev open_scope_of_parent : Scope core
open_scope_of_parent = record {
  owner = parent;
  previous = some (record { builder = parent; config = local_config });
  selection = on_host;
}

abbrev before_fork : World core
before_fork = record {
  slot = some (record { builder = parent; config = cloud_config "https://cloud" });
  selection = in_cloud;
  owner = to_bits parent;
  next_scope = 2;
  scopes = (1, open_scope_of_parent) ∷ [];
  dropped = [];
  leaked = [];
}

owned_by_parent : (to_bits parent ≢ 0) × (to_bits parent ≢ to_bits child)
unfolding to_bits
owned_by_parent = (λ e. omega arith, λ e. omega arith)

set_default_backend_inherited_example :
    let after = set_default_backend core child true in_cloud before_fork in
    SelectsFrom core child true in_cloud before_fork after (build core true in_cloud)
set_default_backend_inherited_example =
    set_default_backend_inherited core child true in_cloud before_fork owned_by_parent

scope_found : find_scope core 1 before_fork.scopes ≡ some open_scope_of_parent
unfolding find_scope
scope_found = refl

pop_default_backend_inherited_example :
    let after = pop_default_backend core child true 1 before_fork in
    RestoresFrom core child true on_host before_fork after (build core true on_host)
pop_default_backend_inherited_example =
    pop_default_backend_inherited core child true 1 open_scope_of_parent before_fork owned_by_parent
      scope_found

pop_default_backend-consumes_example :
    find_scope core 1 (pop_default_backend core child true 1 before_fork).1.scopes ≡ none
pop_default_backend-consumes_example = pop_default_backend-consumes core child true 1 before_fork

on_host_builds : build core true on_host ≡ ok local_config
unfolding build
on_host_builds = refl

abbrev inside : List (Bool × Inside core parent)
inside =
    (false, Inside.selects in_cloud)
    ∷ (true, Inside.pushes in_cloud)
    ∷ (true, Inside.uses)
    ∷ (true, Inside.pops 3)
    ∷ []

pop-body-push_example :
    let pushed = push_default_backend core parent true on_host before_fork in
    let popped = pop_default_backend core parent true 2 (body core parent inside pushed.1) in
    (pushed.0 ≡ ok 2)
    × ((popped.0 ≡ ok tt)
        × (popped.1.slot ≡ some (resolved core parent true before_fork))
        × (popped.1.selection ≡ in_cloud)
        × (find_scope core 2 popped.1.scopes ≡ none))
pop-body-push_example =
    pop-body-push core parent true true on_host local_config before_fork inside refl (omega arith)
      (omega arith) on_host_builds (tt, (tt, (tt, ((λ e. omega arith), tt))))
