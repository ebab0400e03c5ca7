-- ===== src/GspDisp/Timing.antt =====
-- nv_edid_parse_dtd: the first detailed timing of an EDID.
use rtxmac_oc.Base.{ℕ, ◌+◌, ◌*◌, bit_and, bit_or, ltb, Bool, not, ◌==◌, if◌then◌else◌}
use rtxmac_oc.Base.{◌<<<◌, ◌>>>◌, u32, Option, none, some}
use rtxmac_oc.Bytes.Defs.{Buffer, byte}

-- `nv_edid_timing`.
pub record Timing : Type 0 where
  pub pclk_khz : ℕ
  pub hact : ℕ
  pub hblank : ℕ
  pub hsync_off : ℕ
  pub hsync_w : ℕ
  pub vact : ℕ
  pub vblank : ℕ
  pub vsync_off : ℕ
  pub vsync_w : ℕ
  pub hsync_pos : Bool
  pub vsync_pos : Bool

-- The `edid_len` bytes are the buffer; `none` is -1.
unfoldable pub parse_dtd : Buffer → Option Timing
parse_dtd edid =
    let d = λ (i : ℕ). byte edid (54 + i) in
    let pclk = bit_or (d 0) (d 1 <<< 8) in
    if ltb edid.len 128
    then none
    else if pclk == 0
    then none
    else some (record {
      pclk_khz = u32 (pclk * 10);
      hact = bit_or (d 2) (bit_and (d 4) 0xf0 <<< 4);
      hblank = bit_or (d 3) (bit_and (d 4) 0x0f <<< 8);
      hsync_off = bit_or (d 8) (bit_and (d 11) 0xc0 <<< 2);
      hsync_w = bit_or (d 9) (bit_and (d 11) 0x30 <<< 4);
      vact = bit_or (d 5) (bit_and (d 7) 0xf0 <<< 4);
      vblank = bit_or (d 6) (bit_and (d 7) 0x0f <<< 8);
      vsync_off = bit_or (d 10 >>> 4) (bit_and (d 11) 0x0c <<< 2);
      vsync_w = bit_or (bit_and (d 10) 0x0f) (bit_and (d 11) 0x03 <<< 4);
      hsync_pos = not (bit_and (d 17) 0x02 == 0);
      vsync_pos = not (bit_and (d 17) 0x04 == 0);
    })
