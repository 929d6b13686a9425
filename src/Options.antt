-- ===== src/Options.antt =====
-- The options of sandbox.rs: a Ruby Hash is read into plain values, and these into the calls of the
-- core's builders, in the order in which the source makes them.
pub mod Outside
pub mod Conv
pub mod Enums
pub mod HostPath
pub mod Exec
pub mod Patches
pub mod Secrets
pub mod Ports
pub mod Registry
pub mod Connection
pub mod Rules
pub mod Policy
pub mod RootDisk
pub mod Volumes
pub mod Lifecycle
pub mod Modify
pub mod Calls
pub mod NetworkBuilder
pub mod Builder
pub mod Pinned
pub mod PinnedMounts
pub mod PinnedPaths
pub mod PinnedBuilder
pub mod Create
pub mod PortBounds
pub mod RuleLists
pub mod RegistryLaws
pub mod StatusLaws
pub mod CreateLaws
pub mod ModifyLaws
pub mod SecretLaws
pub mod LogLaws
pub mod NamedVolumes
