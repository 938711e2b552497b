-- ===== src/Io.antt =====
-- Open files: the table of nvfuse_core.c, and the reads and writes of nvfuse_api.c.
pub mod Defs
pub mod Table
pub mod Bytes
pub mod Read
pub mod Extend
pub mod Store
pub mod Write
pub mod RoundTrip
mod Tests
