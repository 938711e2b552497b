-- ===== src/ControlPlane/Release.antt =====
-- Containers come back: nvfuse_control_plane_container_release(), for one container, and
-- nvfuse_control_plane_container_release_by_coreid(), for all of a core.
pub mod Defs
pub mod One
pub mod ByCore
pub mod Validity
