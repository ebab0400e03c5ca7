-- ===== src/GspMemory.antt =====
-- driver/gsp/gsp_memory.c: the layout of the memory that the GSP leaves free.
pub mod Defs
pub mod Layout
pub mod Regions
pub mod Plan
pub mod Tests
