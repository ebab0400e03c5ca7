-- ===== src/FbLayout.antt =====
-- driver/gsp/fb_layout.c: where the FRTS region of the firmware goes in video memory.
pub mod Defs
pub mod Frts
pub mod Tests
