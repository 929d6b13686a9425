-- ===== src/Values/Stores.antt =====
-- The value conversions of snapshot.rs, image.rs and volume.rs.
mod Snapshots
mod Images
mod Volumes
unfoldable pub use Snapshots.*
unfoldable pub use Images.*
unfoldable pub use Volumes.*
