-- ===== src/GspFw.antt =====
-- driver/gsp/gsp_fw.c: what the driver prepares for the start of the GSP firmware.
pub mod Defs
pub mod Parse
pub mod Layout
pub mod Radix
pub mod Tests
