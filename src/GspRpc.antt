-- ===== src/GspRpc.antt =====
-- driver/gsp/gsp_rpc.c: the message queues that the driver shares with the GSP.
pub mod Defs
pub mod Checksum
pub mod Message
pub mod Shared
pub mod Tests
