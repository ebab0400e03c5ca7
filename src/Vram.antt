-- ===== src/Vram.antt =====
-- driver/gsp/vram.c and vram.h: the driver's accounting of the VRAM that it owns. Pointer
-- arguments are given, never null: the checks for null at the head of each function are left out.
pub mod Defs
pub mod Pool
pub mod AlignUp
pub mod FirstFit
pub mod Search
pub mod Places
pub mod Find
pub mod Invariant
pub mod Offset
pub mod Alloc
pub mod Taken
pub mod Request
pub mod Resolve
pub mod Safety
pub mod Free
pub mod History
mod Tests
