-- ===== src/Native/Volume.antt =====
-- Named volumes (volume.rs): the functions of the class, and the file system view `VolumeFs`.
pub mod Requests
pub mod Class
pub mod Files
pub mod Methods
pub mod Segments
pub mod Laws
