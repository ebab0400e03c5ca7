-- ===== src/DmaArena.antt =====
-- driver/gsp/nv_dma.h: the bump allocator of the memory that the CPU and the GPU share. The buffer is
-- the platform's; only its two addresses are kept.
pub mod Defs
pub mod Blocks
pub mod Tests
