-- ===== src/Ipc.antt =====
-- The messages between an application and the primary process: nvfuse_ipc_ring.c, and the dispatch
-- of requests in examples/control_plane_proc/control_plane_proc.c.
pub mod Message
pub mod Server
pub mod Client
pub mod Rpc
pub mod Answers
mod Tests
