-- ===== src/Groups.antt =====
-- Block groups: the descriptors, free counts, bitmaps and list of nvfuse_core.c.
pub mod Defs
pub mod Members
pub mod Blocks
pub mod Inodes
pub mod Taken
pub mod Search
pub mod Accounts
pub mod WellFormed
pub mod Alloc
pub mod Cleared
pub mod Free
pub mod Scanned
pub mod Gather
pub mod Segments
mod Tests
