-- ===== src/ControlPlane.antt =====
-- nvfuse_control_plane.c: the primary process's table of containers (block groups), the locks on
-- them, and its account of buffers.
pub mod State
pub mod Log
pub mod Init
pub mod Alloc
pub mod Release
pub mod Reserve
pub mod Buffer
pub mod Apps
pub mod Samples
mod Tests
