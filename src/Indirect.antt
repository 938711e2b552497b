-- ===== src/Indirect.antt =====
-- nvfuse_indirect.c: the block pointers of a file, 11 in the inode, and trees of 1024-way blocks of
-- one, two and three levels.
pub mod Defs
pub mod Laws
mod Tests
