-- ===== src/Reactor.antt =====
-- nvfuse_reactor.c: the submission and the completion queue of a task, rings of pointers to jobs in
-- which one slot stays free.
pub mod Defs
pub mod Window
pub mod Fifo
pub mod Reap
mod Tests
