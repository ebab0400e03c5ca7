-- ===== src/Fwsec.antt =====
-- driver/gsp/fwsec_patch.c: the patches of the FWSEC image before its start.
pub mod Defs
pub mod Patch
pub mod Signature
pub mod Tests
