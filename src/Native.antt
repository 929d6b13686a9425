-- ===== src/Native.antt =====
-- The native methods: what each one checks, reads of its options, asks of the core and returns.
pub mod Call
pub mod Shapes
pub mod Keeps
pub mod Answers
pub mod Objects
pub mod SshOptions
pub mod Sandbox
pub mod Handle
pub mod Volume
pub mod Agent
pub mod Exec
pub mod Streams
pub mod Snapshots
pub mod Images
pub mod Local
pub mod Setup
