-- ===== src/GspRm.antt =====
-- driver/gsp/gsp_rm.c: calls to the resource manager that runs on the GSP.
pub mod Channel
pub mod Reply
pub mod Queue
pub mod Call
pub mod Send
pub mod Object
pub mod Memory
pub mod Request
pub mod Answer
pub mod Pages
pub mod Tests
