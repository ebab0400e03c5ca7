-- ===== src/GspFifo.antt =====
-- driver/gsp/gsp_fifo.c: the channel through which the driver gives the GPU work.
pub mod Pushbuffer
pub mod Methods
pub mod Copy
pub mod Channel
pub mod Devices
pub mod Tests
