-- ===== src/ControlPlane/Log.antt =====
-- The log files of the container table: nvfuse_store_container_table() and
-- nvfuse_load_container_table() of nvfuse_control_plane.c. The table is written behind a block that
-- begins with its generation, alternately to two files. The file API is a parameter.
pub mod Storage
pub mod Defs
pub mod Load
