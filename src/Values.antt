-- ===== src/Values.antt =====
-- The Ruby values that the extension returns: the conversions of core values to Hashes and Arrays.
pub mod Hashes
pub mod Progress
pub mod Results
pub mod Events
pub mod Json
pub mod Stores
