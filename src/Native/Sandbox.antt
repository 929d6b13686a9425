-- ===== src/Native/Sandbox.antt =====
-- `Sandbox` of sandbox.rs: the functions of the class, the methods of a live sandbox, and what every
-- method keeps to.
pub mod Requests
pub mod Class
pub mod Live
pub mod Files
pub mod Methods
pub mod Laws
pub mod Running
pub mod Creating
