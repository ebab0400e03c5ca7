-- ===== src/Bytes.antt =====
-- Byte buffers as the C code of driver/gsp sees them: a pointer and the size of what it points to,
-- read and written byte by byte in little-endian order. An access outside the buffer is a `fault`,
-- so that a theorem can say that a parser makes none.
pub mod Defs
pub mod Words
pub mod Ensures
pub mod Stores
pub mod Fill
