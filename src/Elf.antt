-- ===== src/Elf.antt =====
-- driver/gsp/elf64.c: a section of an ELF64 file by its name.
pub mod Defs
pub mod Names
pub mod Section
pub mod Tests
