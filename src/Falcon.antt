-- ===== src/Falcon.antt =====
-- driver/gsp/falcon.c: the control of the Falcon processors through their registers.
pub mod Run
pub mod Defs
pub mod Load
pub mod Poll
pub mod Ends
pub mod Writes
pub mod Fuses
pub mod Tests
