-- ===== src/Booter.antt =====
-- driver/gsp/booter.c: the container of the signed firmware that runs on SEC2.
pub mod Defs
pub mod Parse
pub mod Signature
pub mod Tests
