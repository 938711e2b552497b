-- ===== src/Dirs.antt =====
-- Directories: the entries of nvfuse_core.c and nvfuse_api.c, kept without gaps, and what they name.
pub mod Defs
pub mod Find
pub mod Change
pub mod Compact
pub mod Empty
pub mod Create
pub mod Remove
pub mod Existing
pub mod Unlink
pub mod Lookup
pub mod Linear
mod Tests
