-- ===== src/GspExec.antt =====
-- driver/gsp/gsp_exec.c: copies that the driver has the GPU make.
pub mod Defs
pub mod Queue
pub mod Command
pub mod Wait
pub mod Tests
