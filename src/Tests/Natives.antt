-- ===== src/Tests/Natives.antt =====
-- The theorems on native methods, at a small core that answers every request.
use microsandbox_rb.Common.{
  ℕ, ◌+◌, ◌≡◌, refl, ◌↔◌, String, true, false, none, some, [], Result, ok, err, ◌>>=◌, arith,
}
use microsandbox_rb.Error.{MicrosandboxError, forked_handle, Operation}
use microsandbox_rb.Runtime.Identity.{identity_eq, to_bits}
use microsandbox_rb.Runtime.Guard.{ForkGuarded}
use microsandbox_rb.Runtime.Nogvl.{value, returned}
use microsandbox_rb.Backend.State.{Backend}
use microsandbox_rb.Options.Exec.{parse_exec, apply_exec, ExecOpts}
use microsandbox_rb.Options.NamedVolumes.{contained}
use microsandbox_rb.Values.Results.{exec_output_to_hash}
use microsandbox_rb.Sessions.{block_on}
use microsandbox_rb.Options.Create.{build_builder}
use microsandbox_rb.Backend.Ops.{ensure_this_process_backend}
use microsandbox_rb.Native.Call.{Site, and_then, next, ask, asked, State, serve, shaped}
use microsandbox_rb.Native.Objects.{plain}
use microsandbox_rb.Native.Shapes.{Reaches}
use microsandbox_rb.Native.Answers.{given}
use microsandbox_rb.Native.Sandbox.Requests.{SandboxRequest, SandboxReply}
use microsandbox_rb.Native.Sandbox.Methods as Sandboxes
use microsandbox_rb.Native.Sandbox.Laws.{About, run-Refuses, run-Reaches}
use microsandbox_rb.Native.Sandbox.Running.{exec_answers}
use microsandbox_rb.Native.Sandbox.Live.{exec}
use microsandbox_rb.Native.Sandbox.Creating.{IsOnLocal, Creates, create-Pinned}
use microsandbox_rb.Native.Sandbox.Class.{create}
use microsandbox_rb.Tests.Parsing.{outside_absolute, create_options}
use microsandbox_rb.Native.Handle.Requests.{HandleReply}
use microsandbox_rb.Native.Handle.Methods as Handles
use microsandbox_rb.Native.Handle.Laws.{AboutHandle, handle-Refuses, handle-Reaches}
use microsandbox_rb.Native.Volume.Requests.{VolumeReply}
use microsandbox_rb.Native.Volume.Methods as Volumes
use microsandbox_rb.Native.Volume.Files.{view}
use microsandbox_rb.Native.Volume.Laws.{StaysIn, volume-Reaches}
use microsandbox_rb.Native.Volume.Segments.{IsContained, contained_iff}
use microsandbox_rb.Native.Agent.{AgentReply, connect_sandbox_to, connect_path_to}
use microsandbox_rb.Native.Agent.Deadlines.{ConnectsTo, ConnectsAt, connect-Reaches}
use microsandbox_rb.Native.Local.{ReachesLocal, with_local_backend, with_local_backend-ReachesLocal}
use microsandbox_rb.Native.Setup.{InstallReply}
use microsandbox_rb.Tests.Cores.{
  objects, world, sandbox_answers, handle_answers, volume_answers, agent_answers,
}
use microsandbox_rb.Tests.Fixtures.{
  core, parent, child, local_config, outside, policies, patient, finish,
}

abbrev box : ForkGuarded String
box = record { owner = parent; class = "Microsandbox::Sandbox"; inner = "box" }

abbrev sandboxes : Site core (SandboxReply outside objects)
sandboxes = record {
  cur = parent;
  env = true;
  ruby = patient;
  V = ℕ;
  perform = λ q v. (sandbox_answers q, v + 1);
}

abbrev elsewhere : Site core (SandboxReply outside objects)
elsewhere = record {
  cur = child;
  env = true;
  ruby = patient;
  V = ℕ;
  perform = λ q v. (sandbox_answers q, v + 1);
}

abbrev idle : State sandboxes
idle = record { world = world; outer = record { inner = 0; asked = [] } }

abbrev idle_elsewhere : State elsewhere
idle_elsewhere = record { world = world; outer = record { inner = 0; asked = [] } }

run-Refuses_example :
    Sandboxes.run outside objects elsewhere box Sandboxes.Method.stop idle_elsewhere
    ≡ (returned (err (forked_handle "Microsandbox::Sandbox" 100 200)), idle_elsewhere)
unfolding identity_eq
run-Refuses_example =
    run-Refuses outside objects elsewhere box Sandboxes.Method.stop idle_elsewhere refl

run-Reaches_example :
    Reaches sandboxes
      (About outside objects sandboxes "box")
      idle
      (Sandboxes.run outside objects sandboxes box (Sandboxes.Method.fs_read "/etc/hosts") idle)
run-Reaches_example =
    run-Reaches outside objects sandboxes box (Sandboxes.Method.fs_read "/etc/hosts") idle

stays_local :
    IsOnLocal outside objects sandboxes policies outside_absolute
      (create outside objects sandboxes policies "box" create_options idle).1.world
unfolding create and_then next ask asked block_on build_builder ensure_this_process_backend to_bits
    ◌>>=◌
stays_local = (record { builder = parent; config = local_config }, refl, refl)

create-Pinned_example :
    Reaches sandboxes
      (Creates outside objects sandboxes policies outside_absolute "box")
      idle
      (create outside objects sandboxes policies "box" create_options idle)
create-Pinned_example =
    create-Pinned outside objects sandboxes policies outside_absolute "box" create_options idle
      stays_local

abbrev no_options : ExecOpts outside
no_options = record {
  arguments = [];
  working_dir = none;
  as_user = none;
  variables = [];
  limit = none;
  terminal = false;
  stdin = none;
  pipe = false;
  limits = [];
}

exec_answers_example : exec outside objects sandboxes box "ls" [] finish idle ≡ (
  given sandboxes
      (shaped (λ r. plain (exec_output_to_hash outside r)))
      (serve sandboxes
        (SandboxRequest.exec_with "box" "ls" (apply_exec outside no_options))
        idle.outer).0,
  record idle {
    outer =
        (serve sandboxes
          (SandboxRequest.exec_with "box" "ls" (apply_exec outside no_options))
          idle.outer).1;
  },
)
unfolding identity_eq parse_exec ◌>>=◌
exec_answers_example =
    exec_answers outside objects sandboxes box "ls" [] finish no_options 2 idle refl refl
      (omega arith) (λ _. refl) refl refl

abbrev handles : Site core (HandleReply outside objects)
handles = record {
  cur = parent;
  env = true;
  ruby = patient;
  V = ℕ;
  perform = λ q v. (handle_answers q, v + 1);
}

abbrev handles_elsewhere : Site core (HandleReply outside objects)
handles_elsewhere = record {
  cur = child;
  env = true;
  ruby = patient;
  V = ℕ;
  perform = λ q v. (handle_answers q, v + 1);
}

handle-Refuses_example :
    let s : State handles_elsewhere = record {
      world = world;
      outer = record { inner = 0; asked = [] };
    } in
    Handles.run outside objects handles_elsewhere box Handles.HandleMethod.kill s
    ≡ (returned (err (forked_handle "Microsandbox::Sandbox" 100 200)), s)
unfolding identity_eq
handle-Refuses_example =
    handle-Refuses outside objects handles_elsewhere box Handles.HandleMethod.kill
      (record { world = world; outer = record { inner = 0; asked = [] } }) refl

handle-Reaches_example :
    let s : State handles = record { world = world; outer = record { inner = 0; asked = [] } } in
    Reaches handles
      (AboutHandle outside objects handles "box")
      s
      (Handles.run outside objects handles box (Handles.HandleMethod.restart finish) s)
handle-Reaches_example =
    handle-Reaches outside objects handles box (Handles.HandleMethod.restart finish)
      (record { world = world; outer = record { inner = 0; asked = [] } })

abbrev volumes : Site core (VolumeReply core outside)
volumes = record {
  cur = parent;
  env = true;
  ruby = patient;
  V = ℕ;
  perform = λ q v. (volume_answers q, v + 1);
}

abbrev bound_view : ForkGuarded (Backend core)
bound_view = record {
  owner = parent;
  class = "Microsandbox::VolumeFs";
  inner = record { builder = parent; config = local_config };
}

volume-Reaches_example :
    let s : State volumes = record { world = world; outer = record { inner = 0; asked = [] } } in
    Reaches volumes
      (StaysIn core outside (view outside objects volumes "data" bound_view bound_view.inner))
      s
      (Volumes.run outside objects volumes "data" bound_view (Volumes.VolumeMethod.mkdir "a/..b") s)
volume-Reaches_example =
    volume-Reaches outside objects volumes "data" bound_view (Volumes.VolumeMethod.mkdir "a/..b")
      (record { world = world; outer = record { inner = 0; asked = [] } })

contained_iff_example : (contained "a/..b" ≡ ok "a/..b") ↔ IsContained "a/..b"
contained_iff_example = contained_iff "a/..b"

abbrev agents : Site core (AgentReply outside objects)
agents = record {
  cur = parent;
  env = true;
  ruby = patient;
  V = ℕ;
  perform = λ q v. (agent_answers q, v + 1);
}

connect-Reaches_example :
    let s : State agents = record { world = world; outer = record { inner = 0; asked = [] } } in
    Reaches agents
      (ConnectsTo outside objects agents "box" (some 0))
      s
      (connect_sandbox_to outside objects agents "box" (some 0) s)
    × Reaches agents
        (ConnectsAt outside objects agents "box" (some 0))
        s
        (connect_path_to outside objects agents "box" (some 0) s)
connect-Reaches_example =
    connect-Reaches outside objects agents "box" (some 0)
      (record { world = world; outer = record { inner = 0; asked = [] } })

abbrev listing : Operation
listing = record { api_path = "Image::list" }

-- A local-only operation with one request, answered by a number.
abbrev local_site : Site core (λ (q : String). Result MicrosandboxError ℕ)
local_site = record {
  cur = parent;
  env = true;
  ruby = patient;
  V = ℕ;
  perform = λ q v. (value (ok v), v + 1);
}

with_local_backend-ReachesLocal_example :
    let s : State local_site = record { world = world; outer = record { inner = 0; asked = [] } } in
    ReachesLocal local_site "list" s
      (with_local_backend local_site listing "list" (λ (n : ℕ). n + 1) s)
with_local_backend-ReachesLocal_example =
    with_local_backend-ReachesLocal local_site listing "list" (λ (n : ℕ). n + 1)
      (record { world = world; outer = record { inner = 0; asked = [] } })

abbrev installers : Site core InstallReply
installers = record {
  cur = child;
  env = true;
  ruby = patient;
  V = ℕ;
  perform = λ q v. (value (ok tt), v + 1);
}
