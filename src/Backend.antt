-- ===== src/Backend.antt =====
-- ext/microsandbox/src/backend.rs: the process-wide backend, how it was chosen, the open
-- `with_backend` scopes, and their takeover by a forked child.
pub mod Build
pub mod State
pub mod Ops
pub mod Ownership
pub mod Preservation
pub mod History
pub mod OpenScopes
pub mod Scopes
pub mod Forked
