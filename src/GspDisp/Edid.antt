-- ===== src/GspDisp/Edid.antt =====
-- The parser reads back what a monitor writes.
use rtxmac_oc.Base.{ℕ, ◌+◌, ◌-◌, ◌*◌, ◌/◌, ◌%◌, ◌^◌, ◌≤◌, ◌<◌, ◌≡◌, refl, ◌∙◌, arith}
use rtxmac_oc.Base.{bit_and, bit_or, ltb, Bool, false, not, ◌==◌, if◌then◌else◌, Bool-cases}
use rtxmac_oc.Base.{◌⊎◌, inl, inr, ◌<<<◌, ◌>>>◌, u32, none, some, List, [], ◌∷◌, get_or}
use rtxmac_oc.Base.Bits.{bit_and_step}
use rtxmac_oc.Base.Bits.Mask.{bit_and-low, bit_or-shifted, bit_or_comm}
use rtxmac_oc.Base.Bits.Align.{bit_and-high}
use rtxmac_oc.Bytes.Defs.{Buffer, byte}
use rtxmac_oc.GspDisp.Timing.{Timing, parse_dtd}

-- A timing that a descriptor of 18 bytes can carry: the pixel clock in units of 10 kHz, 12 bits for
-- an active or a blank length, 10 bits for a horizontal and 6 for a vertical sync.
pub record IsDetailed (t : Timing) : Type 0 where
  pub clock : (0 < t.pclk_khz) × (t.pclk_khz < 655360) × (t.pclk_khz % 10 ≡ 0)
  pub lengths : (t.hact < 4096) × (t.hblank < 4096) × (t.vact < 4096) × (t.vblank < 4096)
  pub horizontal : (t.hsync_off < 1024) × (t.hsync_w < 1024)
  pub vertical : (t.vsync_off < 64) × (t.vsync_w < 64)

abbrev flag : Bool → ℕ
flag b = if b then 1 else 0

-- The descriptor of the EDID standard, byte by byte.
abbrev descriptor : Timing → List ℕ
descriptor t =
    t.pclk_khz / 10 % 256
    ∷ t.pclk_khz / 10 / 256
    ∷ t.hact % 256
    ∷ t.hblank % 256
    ∷ (t.hact / 256 * 16 + t.hblank / 256)
    ∷ t.vact % 256
    ∷ t.vblank % 256
    ∷ (t.vact / 256 * 16 + t.vblank / 256)
    ∷ t.hsync_off % 256
    ∷ t.hsync_w % 256
    ∷ (t.vsync_off % 16 * 16 + t.vsync_w % 16)
    ∷ (t.hsync_off / 256 * 64 + t.hsync_w / 256 * 16 + t.vsync_off / 16 * 4 + t.vsync_w / 16)
    ∷ 0
    ∷ 0
    ∷ 0
    ∷ 0
    ∷ 0
    ∷ (0x18 + flag t.hsync_pos * 2 + flag t.vsync_pos * 4)
    ∷ []

-- An EDID whose first detailed timing is the given one; `rest` is everything else.
unfoldable pub edid_of : Timing → ℕ → (ℕ → ℕ) → Buffer
edid_of t len rest = record {
  len = len;
  at = λ x.
      if ltb x 54 then rest x else if ltb x 72 then get_or (descriptor t) (x - 54) 0 else rest x;
}

-- A field of two parts, the lower one of `k` bits.
joined : (k r q v : ℕ) → r < 2 ^ k → v ≡ q * 2 ^ k → bit_or r v ≡ q * 2 ^ k + r
joined k r q v h e = rw e (bit_or_comm r (q * 2 ^ k) ∙ bit_or-shifted k q r h)

-- Two bits from bit 4 or bit 2 on, of a byte.
bits_54 : (x : ℕ) → bit_and x 0x30 ≡ x / 16 % 4 * 16
bits_54 x = omega (
  arith,
  bit_and_step x 0x30,
  bit_and_step (x / 2) 0x18,
  bit_and_step (x / 2 / 2) 0xc,
  bit_and_step (x / 2 / 2 / 2) 0x6,
  bit_and-low 2 (x / 2 / 2 / 2 / 2),
)

bits_32 : (x : ℕ) → bit_and x 0xc ≡ x / 4 % 4 * 4
bits_32 x = omega (arith, bit_and_step x 0xc, bit_and_step (x / 2) 0x6, bit_and-low 2 (x / 2 / 2))

bit_1 : (x : ℕ) → bit_and x 2 ≡ x / 2 % 2 * 2
bit_1 x = omega (arith, bit_and_step x 2, bit_and-low 1 (x / 2))

bit_2 : (x : ℕ) → bit_and x 4 ≡ x / 4 % 2 * 4
bit_2 x = omega (arith, bit_and_step x 4, bit_and_step (x / 2) 2, bit_and-low 1 (x / 2 / 2))

-- The upper digit of a byte, and its upper two bits.
high_digit : (x : ℕ) → x < 256 → bit_and x 0xf0 ≡ x / 16 * 16
high_digit x h = bit_and-high 4 8 x (omega arith) (omega (arith, h)) ∙ omega arith

high_bits : (x : ℕ) → x < 256 → bit_and x 0xc0 ≡ x / 64 * 64
high_bits x h = bit_and-high 6 8 x (omega arith) (omega (arith, h)) ∙ omega arith

module _ (t : Timing) (len : ℕ) (rest : ℕ → ℕ) (ok : IsDetailed t) where
  abbrev d : ℕ → ℕ
  d i = byte (edid_of t len rest) (54 + i)

  clock_read : bit_or (d 0) (d 1 <<< 8) ≡ t.pclk_khz / 10
  unfolding edid_of
  clock_read =
      joined 8 (d 0) (t.pclk_khz / 10 / 256) (d 1 <<< 8) (omega arith) (omega (arith, ok.clock.1))
      ∙ omega (arith, ok.clock.1)

  -- An active and a blank length share the digits of one byte.
  active :
      (low high v w : ℕ)
      → v < 4096
      → w < 4096
      → low ≡ v % 256
      → high ≡ v / 256 * 16 + w / 256
      → bit_or low (bit_and high 0xf0 <<< 4) ≡ v
  active low high v w hv hw el eh =
      joined 8 low (v / 256) (bit_and high 0xf0 <<< 4) (omega (arith, el))
        (omega (arith, high_digit high (omega (arith, eh, hv, hw)), eh, hw))
      ∙ omega (arith, el)

  blank_length :
      (low high v w : ℕ)
      → v < 4096
      → w < 4096
      → low ≡ w % 256
      → high ≡ v / 256 * 16 + w / 256
      → bit_or low (bit_and high 0x0f <<< 8) ≡ w
  blank_length low high v w hv hw el eh =
      joined 8 low (w / 256) (bit_and high 0x0f <<< 8) (omega (arith, el))
        (omega (arith, bit_and-low 4 high, eh, hw))
      ∙ omega (arith, el)

  hsync_off_read : bit_or (d 8) (bit_and (d 11) 0xc0 <<< 2) ≡ t.hsync_off
  unfolding edid_of
  hsync_off_read =
      joined 8 (d 8) (t.hsync_off / 256) (bit_and (d 11) 0xc0 <<< 2) (omega arith)
        (omega (arith, high_bits (d 11) (omega arith), ok.horizontal, ok.vertical))
      ∙ omega arith

  hsync_w_read : bit_or (d 9) (bit_and (d 11) 0x30 <<< 4) ≡ t.hsync_w
  unfolding edid_of
  hsync_w_read =
      joined 8 (d 9) (t.hsync_w / 256) (bit_and (d 11) 0x30 <<< 4) (omega arith)
        (omega (arith, bits_54 (d 11), ok.horizontal, ok.vertical))
      ∙ omega arith

  vsync_off_read : bit_or (d 10 >>> 4) (bit_and (d 11) 0x0c <<< 2) ≡ t.vsync_off
  unfolding edid_of
  vsync_off_read =
      joined 4 (d 10 >>> 4) (t.vsync_off / 16) (bit_and (d 11) 0x0c <<< 2) (omega arith)
        (omega (arith, bits_32 (d 11), ok.horizontal, ok.vertical))
      ∙ omega arith

  vsync_w_read : bit_or (bit_and (d 10) 0x0f) (bit_and (d 11) 0x03 <<< 4) ≡ t.vsync_w
  unfolding edid_of
  vsync_w_read =
      let low = bit_and-low 4 (d 10) in
      joined 4 (bit_and (d 10) 0x0f) (t.vsync_w / 16) (bit_and (d 11) 0x03 <<< 4)
        (omega (arith, low)) (omega (arith, bit_and-low 2 (d 11), ok.horizontal, ok.vertical))
      ∙ omega (arith, low)

  hsync_pos_read : not (bit_and (d 17) 0x02 == 0) ≡ t.hsync_pos
  unfolding edid_of
  hsync_pos_read = ground (arith, bit_1 (d 17))

  vsync_pos_read : not (bit_and (d 17) 0x04 == 0) ≡ t.vsync_pos
  unfolding edid_of
  vsync_pos_read = ground (arith, bit_2 (d 17))

  -- nv_edid_parse_dtd reads back a timing that an EDID carries in its first descriptor, if the fields
  -- fit the descriptor and the EDID has 128 bytes or more; it refuses a shorter one.
  pub parse_dtd-edid_of :
      ((len < 128) × (parse_dtd (edid_of t len rest) ≡ none))
      ⊎ ((128 ≤ len) × (parse_dtd (edid_of t len rest) ≡ some t))
  unfolding parse_dtd edid_of
  parse_dtd-edid_of =
      let l = ok.lengths in
      elim (Bool-cases (ltb len 128)) [
        | inl short ↦ inl (ground (arith, short), rw short refl)
        | inr long ↦
            let nonzero : (t.pclk_khz / 10 == 0) ≡ false = ground (arith, ok.clock) in
            let khz : u32 (t.pclk_khz / 10 * 10) ≡ t.pclk_khz = omega (arith, ok.clock) in
            inr (
              ground (arith, long),
              rw
                  (
                    long,
                    clock_read,
                    nonzero,
                    khz,
                    active (d 2) (d 4) t.hact t.hblank l.0 l.1 (omega arith) (omega (arith, l)),
                    blank_length (d 3) (d 4) t.hact t.hblank l.0 l.1 (omega arith)
                        (omega (arith, l)),
                    active (d 5) (d 7) t.vact t.vblank l.2 l.3 (omega arith) (omega (arith, l)),
                    blank_length (d 6) (d 7) t.vact t.vblank l.2 l.3 (omega arith)
                        (omega (arith, l)),
                    hsync_off_read,
                    hsync_w_read,
                    vsync_off_read,
                    vsync_w_read,
                    hsync_pos_read,
                    vsync_pos_read,
                  )
                  refl,
            )
      ]
