-- ===== src/Slab.antt =====
-- The slab allocator, slab.c and slab.h.
pub mod Alloc
pub mod Bits
pub mod Bitmap
pub mod SizeClass
pub mod State
mod Tests
