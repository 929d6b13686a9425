-- ===== src/Native/Handle.antt =====
-- `SbHandle` of sandbox.rs: a sandbox handle.
pub mod Requests
pub mod Live
pub mod Methods
pub mod Laws
pub mod Readers
