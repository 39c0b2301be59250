-- ===== src/Bitmap.antt =====
-- The bitmap of src/utils/bitmap.h and bitmap.cc, which hands out indices of send buffers.
pub mod Words
pub mod Defs
pub mod Bits
pub mod Count
pub mod Find
pub mod Valid
pub mod Fresh
pub mod Ranges
pub mod Masks
pub mod Between
pub mod Taken
pub mod Stretch
pub mod Rewrite
pub mod Ranged
