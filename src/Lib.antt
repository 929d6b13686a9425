-- ===== src/Lib.antt =====
-- The native extension of microsandbox-rb (ext/microsandbox/src): a Ruby binding that hands calls
-- to the microsandbox core. Its own logic is what a process does with the core's process-wide
-- state after a fork, under interrupts and threads, and how Ruby options become calls of the
-- core's builders.
--
-- Common holds results with `?` as bind, Boolean tests, and what holds of the value of a result
-- through binds and loops (Common/Successes).
--
-- Error (error.rs): `class_name`, `to_ruby`, `forked_handle`; Error/Names is `camel_to_snake` and
-- `ruby_api_name` on code points. A message keeps its template and arguments apart.
--
-- Runtime (runtime.rs, and two diagnostics of lib.rs). Runtime/Identity: `ProcessIdentity`, a pid
-- and a generation of 32 bits, packed by `to_bits`; `fork` is the atfork handler. Runtime/Guard:
-- `ForkGuarded`, whose `drop` lists the payloads that are destroyed. Runtime/Cell: `runtime()`,
-- for any number of threads, one atomic access a step; Runtime/Phases is the invariant of a
-- schedule, Runtime/Race what a call returns, and Runtime/Progress is about its end.
-- Runtime/Nogvl: `nogvl`, with CRuby as a schedule that says what each interrupt check gives and
-- which attempt starts; the loop is recursion on the attempts left, 63 after the first, as
-- MAX_ENTRY_ATTEMPTS bounds it in the source.
--
-- Backend (backend.rs). Backend/State is what a fork copies: the core's slot and this module's
-- statics, with logs of what is dropped and what is leaked. Backend/Build is `build_backend` and
-- `Selection::build`; what the core makes of a profile, an address or its ladder is the parameter
-- `Core`, and may differ with the surroundings of each call. Backend/Ops has one function per
-- operation; each runs with the GVL held and is one step. Backend/History runs them through any
-- line of forks, Backend/OpenScopes inside a scope, Backend/Forked as the first call of a child.
-- Backend/Ownership is the invariant that Backend/Preservation is about. Ownership is decided by
-- `Runtime.Identity`, and a native call first makes the backend its process's own.
--
-- Options (conv.rs, host_path.rs, and the option code of sandbox.rs). Options/Outside is what is
-- not this code: magnus's conversions of Ruby values, floats, the core's parsers, the file system.
-- A parser is a do block over Result in the order of the source; a builder is the list of the
-- calls made of it. Options/HostPath pins relative paths; Exec, Patches, Secrets, Ports,
-- Connection, Rules, Policy, RootDisk, Volumes, Registry, Lifecycle, Modify and Enums are the
-- option groups by name; Options/Calls are the calls of the core's sandbox builder,
-- Options/Builder and Options/NetworkBuilder are `build_builder` in the source's order, and
-- Options/Create adds the backend that it reads. The core's `NetworkPolicy` constructors are the
-- parameter `Policies`. Pinned, PinnedMounts, PinnedPaths, PinnedBuilder and the modules named
-- Laws, Bounds or Lists hold the proofs.
--
-- Options/NamedVolumes is `create` and `contained` of volume.rs; a path is its code points.
--
-- Sessions: handles whose core object is taken out of a mutex, with `block_on` over the backend
-- and `nogvl`. TakeOnce is about the write sink of fs_stream.rs and the pull session of
-- sandbox.rs; Ssh and Server are ssh.rs, Closing the histories of calls on a session that is
-- closed once, and Stdin `take_stdin` of exec.rs.
--
-- Values: the conversions of core values to Ruby Hashes and Arrays. Values/Hashes is a Ruby value
-- and `RHash::aset`, which keeps the keys in order; Results and Progress are the conversions of
-- sandbox.rs, Stores and its children those of snapshot.rs, image.rs and volume.rs, Events those
-- of exec.rs, ssh.rs and agent.rs, Json `json_to_ruby` of conv.rs, over serde_json's three
-- readings of a number. The core's records have the fields that the source reads.
--
-- Native: the methods that Ruby calls. A method is a function of the backend's state and of a core
-- that answers requests, each request a call that the source makes with its arguments; `Site`
-- holds the process, CRuby's schedule and the core. Native/Call is `?`, `ForkGuarded::get`,
-- `block_on` and `block_on_runtime_install`; Native/Shapes, Native/Keeps and Native/Answers say
-- what every method of one shape keeps to. Native/Sandbox (sandbox.rs, `Sandbox`), Native/Handle
-- (`SbHandle`), Native/Volume (volume.rs), Native/Agent (agent.rs), Native/Exec (exec.rs),
-- Native/Streams (stream.rs, fs_stream.rs), Native/Snapshots (snapshot.rs), Native/Images and
-- Native/Local (image.rs, `with_local_backend` of backend.rs) and Native/Setup (lib.rs) hold the
-- methods by class; a module Requests lists what a class asks of the core, and Methods what
-- `define` registers.
--
-- Tests instantiates the parameters and applies the theorems.
--
-- Not modelled: what the core, Tokio, CRuby and magnus do; the registration of methods and
-- classes; an exec handle's id; the setters of the core's paths in lib.rs; locks inside an exec or
-- stream handle, whose calls are taken one after another; the Ruby code of lib.
pub mod Common
pub mod Error
pub mod Runtime
pub mod Backend
pub mod Options
pub mod Values
pub mod Sessions
pub mod Native
pub mod Tests
