-- ===== src/GspDisp.antt =====
-- driver/gsp/gsp_disp.c: the timing of a monitor and the methods that set a mode.
pub mod Timing
pub mod Edid
pub mod Methods
pub mod Raster
pub mod Window
pub mod Ramht
pub mod Tests
