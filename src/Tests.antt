-- ===== src/Tests.antt =====
-- Concrete instances of what the model leaves open, and the theorems at concrete inputs.
mod Fixtures
mod Cores
mod Runtimes
mod Backends
mod Parsing
mod Handles
mod Natives
mod Values
