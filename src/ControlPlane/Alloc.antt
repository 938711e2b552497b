-- ===== src/ControlPlane/Alloc.antt =====
-- nvfuse_control_plane_container_alloc(): a new container for a core, or one that it owns already.
pub mod Defs
pub mod New
pub mod Owned
