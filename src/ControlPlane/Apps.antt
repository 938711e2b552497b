-- ===== src/ControlPlane/Apps.antt =====
-- The table of the registered applications: nvfuse_app_manage_table_init(), _add() and _remove(),
-- nvfuse_store_app_table(), nvfuse_load_app_table() and the start and end of the control plane, in
-- nvfuse_control_plane.c.
pub mod Defs
pub mod Ops
pub mod Laws
pub mod Removal
