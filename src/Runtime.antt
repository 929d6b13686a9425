-- ===== src/Runtime.antt =====
-- ext/microsandbox/src/runtime.rs.
pub mod Identity
pub mod Guard
pub mod Nogvl
pub mod Cell
pub mod Phases
pub mod Race
pub mod Progress
pub mod Interrupts
