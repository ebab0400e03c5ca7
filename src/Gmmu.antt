-- ===== src/Gmmu.antt =====
-- driver/gsp/gmmu.c and gmmu.h: access to VRAM through the PRAMIN window, the encoding of GMMU
-- entries, and the page tables of a contiguous range. Pointer arguments are given, never null.
pub mod Pramin
pub mod Entry
pub mod Branch
pub mod Range
pub mod Window
pub mod Writes
pub mod Walk
pub mod Content
pub mod Mapped
pub mod Chain
pub mod Leaves
pub mod Translate
pub mod Plan
pub mod Card
pub mod Tests
