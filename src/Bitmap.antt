-- ===== src/Bitmap.antt =====
-- The bitmaps of a block group: the bit operations of nvfuse_dep.c.
pub mod Bits
