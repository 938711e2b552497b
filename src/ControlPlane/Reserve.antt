-- ===== src/ControlPlane/Reserve.antt =====
-- The locks on containers: nvfuse_control_plane_reservation_acquire() and
-- nvfuse_control_plane_reservation_release().
pub mod Defs
pub mod Refine
pub mod Starve
