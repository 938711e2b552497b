-- ===== src/Xattr.antt =====
-- nvfuse_xattr.c: the extended attributes in the tail of an inode, a packed sequence of
-- (name length, value size, name, 0, value, 0) behind which the first word is 0.
pub mod Defs
pub mod Format
pub mod Walk
pub mod Write
pub mod Spec
pub mod Set
pub mod Checks
pub mod Remove
pub mod Read
pub mod Laws
mod Tests
