-- ===== src/FwsecLocate.antt =====
-- driver/gsp/fwsec_locate.c: the search for the descriptor of FWSEC in the VBIOS.
pub mod Defs
pub mod Inside
pub mod Tests
