-- ===== src/GspDisp/Raster.antt =====
-- The mode that the head gets.
use rtxmac_oc.Base.{ℕ, ◌+◌, ◌-◌, ◌*◌, ◌/◌, ◌%◌, ◌^◌, ◌≤◌, ◌<◌, ◌≡◌, refl, ◌∙◌, arith}
use rtxmac_oc.Base.{◌==◌, true, bit_and, bit_or, ◌<<<◌, u32, ◌+32◌, ◌-32◌, List, [], ◌∷◌}
use rtxmac_oc.Base.Bits.{bit_and_step}
use rtxmac_oc.Base.Bits.Mask.{bit_and-low, bit_or-shifted, bit_or_comm}
use rtxmac_oc.GspDisp.Timing.{Timing}
use rtxmac_oc.GspDisp.Methods.{
  method_hdr, push_method, push_methods, modeset_methods, build_core_modeset, read_methods,
}

-- A method that a header can name.
data AreMethods : List (ℕ × ℕ) → Type 0 where
  none_left : AreMethods []
  one_more :
      {m : ℕ × ℕ} {ms : List (ℕ × ℕ)}
      → m.0 < 2 ^ 14
      → m.0 % 4 ≡ 0
      → AreMethods ms
      → AreMethods (m ∷ ms)

method_hdr-eq : (a : ℕ) → a < 2 ^ 14 → a % 4 ≡ 0 → method_hdr a 1 ≡ 2 ^ 18 + a
unfolding method_hdr
method_hdr-eq a h whole =
    let low : bit_and a 0x3ffc ≡ a = omega (
      arith,
      h,
      whole,
      bit_and_step a 0x3ffc,
      bit_and_step (a / 2) 0x1ffe,
      bit_and-low 12 (a / 2 / 2),
    ) in
    rw low (bit_or-shifted 18 1 a (omega (arith, h)))

read-push_methods :
    (left : ℕ) (ms : List (ℕ × ℕ)) → AreMethods ms → read_methods 0 left (push_methods ms) ≡ ms
unfolding read_methods push_methods push_method
read-push_methods left [] none_left = refl
read-push_methods left (m ∷ ms) (one_more h whole rest) =
    let count : (2 ^ 18 + m.0) / 2 ^ 18 % 2 ^ 10 ≡ 1 = omega (arith, h) in
    let addr : (2 ^ 18 + m.0) / 4 % 2 ^ 12 * 4 ≡ m.0 = omega (arith, h, whole) in
    let opcode : ((2 ^ 18 + m.0) / 2 ^ 29 == 0) ≡ true = ground (arith, h) in
    rw (method_hdr-eq m.0 h whole)
      (rw (opcode, count, addr) (rw (read-push_methods (m.0 + 4) ms rest) refl))

-- A mode whose sync lies in the blank, with lengths of 12 bits, as a descriptor has them, and a clock
-- whose hertz fit 31 bits.
pub record IsMode (t : Timing) : Type 0 where
  pub lengths : (t.hact < 4096) × (t.hblank < 4096) × (t.vact < 4096) × (t.vblank < 4096)
  pub horizontal : (0 < t.hsync_w) × (t.hsync_off + t.hsync_w ≤ t.hblank)
  pub vertical : (0 < t.vsync_w) × (t.vsync_off + t.vsync_w ≤ t.vblank)
  pub clock : t.pclk_khz * 1000 < 2 ^ 31

abbrev word_of : ℕ → ℕ → ℕ
word_of low high = high * 2 ^ 16 + low

both-eq :
    (low high : ℕ)
    → low < 2 ^ 16
    → high < 2 ^ 16
    → bit_or low (u32 (high <<< 16)) ≡ word_of low high
both-eq low high hl hh =
    let small : u32 (high <<< 16) ≡ high * 2 ^ 16 = omega (arith, hh) in
    rw small (bit_or_comm low (high * 2 ^ 16) ∙ bit_or-shifted 16 high low hl)

-- The points of a scan in one direction, counted from the start of the sync: the end of the sync, of
-- the blank, of the picture, and the length.
pub record Scan : Type 0 where
  pub sync_end : ℕ
  pub blank_end : ℕ
  pub blank_start : ℕ
  pub total : ℕ

-- They are in order, the picture has `active` pixels or lines, the sync begins `off` of them behind
-- its end and is `width` long.
pub record IsScan (s : Scan) (active blank off width : ℕ) : Type 0 where
  pub sync : s.sync_end + 1 ≡ width
  pub porch : s.blank_start + 1 + off ≡ s.total
  pub sync_first : s.sync_end ≤ s.blank_end
  pub picture : s.blank_start ≡ s.blank_end + active
  pub last : s.blank_start < s.total
  pub whole : s.total ≡ active + blank

abbrev scan_of : ℕ → ℕ → ℕ → ℕ → Scan
scan_of active blank off width = record {
  sync_end = width - 1;
  blank_end = blank - off - 1;
  blank_start = blank - off - 1 + active;
  total = active + blank;
}

scan_of-IsScan :
    (active blank off width : ℕ)
    → 0 < width
    → off + width ≤ blank
    → IsScan (scan_of active blank off width) active blank off width
scan_of-IsScan active blank off width pos room = record {
  sync = omega (arith, pos);
  porch = omega (arith, pos, room);
  sync_first = omega (arith, pos, room);
  picture = refl;
  last = omega (arith, pos, room);
  whole = refl;
}

-- What a head is given: the size of the viewport, the four points of both scans, progressive frames
-- and the clock in hertz, twice.
abbrev pub head_methods : ℕ → Timing → Scan → Scan → List (ℕ × ℕ)
head_methods head t h v =
    (0x2048 + head * 0x400, 0)
    ∷ (0x204c + head * 0x400, word_of t.hact t.vact)
    ∷ (0x2058 + head * 0x400, word_of t.hact t.vact)
    ∷ (0x2064 + head * 0x400, word_of h.total v.total)
    ∷ (0x2068 + head * 0x400, word_of h.sync_end v.sync_end)
    ∷ (0x206c + head * 0x400, word_of h.blank_end v.blank_end)
    ∷ (0x2070 + head * 0x400, word_of h.blank_start v.blank_start)
    ∷ (0x2074 + head * 0x400, 1)
    ∷ (0x2008 + head * 0x400, 0)
    ∷ (0x200c + head * 0x400, t.pclk_khz * 1000)
    ∷ (0x2028 + head * 0x400, t.pclk_khz * 1000)
    ∷ []

module _ (t : Timing) (head : ℕ) (mode : IsMode t) (few : head < 8) where
  abbrev across : Scan
  across = scan_of t.hact t.hblank t.hsync_off t.hsync_w

  abbrev down : Scan
  down = scan_of t.vact t.vblank t.vsync_off t.vsync_w

  at : (base : ℕ) → base < 0x2400 → (base +32 u32 (head * 0x400)) ≡ base + head * 0x400
  at base h = omega (arith, h, few)

  -- The 32-bit arithmetic of the points does not wrap.
  points :
      (active blank off width : ℕ)
      → active < 4096
      → blank < 4096
      → 0 < width
      → off + width ≤ blank
      → (blank -32 off -32 1 ≡ blank - off - 1)
        × (blank -32 off -32 1 +32 active ≡ blank - off - 1 + active)
        × (active +32 blank ≡ active + blank)
        × (width -32 1 ≡ width - 1)
  points active blank off width ha hb pos room = (
    omega (arith, hb, pos, room),
    omega (arith, ha, hb, pos, room),
    omega (arith, ha, hb),
    omega (arith, hb, pos, room),
  )

  modeset-eq : modeset_methods t head ≡ head_methods head t across down
  unfolding modeset_methods
  modeset-eq =
      let l = mode.lengths in
      let h =
        points t.hact t.hblank t.hsync_off t.hsync_w l.0 l.1 mode.horizontal.0 mode.horizontal.1 in
      let v =
        points t.vact t.vblank t.vsync_off t.vsync_w l.2 l.3 mode.vertical.0 mode.vertical.1 in
      let hertz : bit_and (u32 (t.pclk_khz * 1000)) 0x7fffffff ≡ t.pclk_khz * 1000 =
        omega (arith, bit_and-low 31 (u32 (t.pclk_khz * 1000)), mode.clock) in
      let size = both-eq t.hact t.vact (omega (arith, l)) (omega (arith, l)) in
      let total = both-eq across.total down.total (omega (arith, l)) (omega (arith, l)) in
      let sync =
        both-eq across.sync_end down.sync_end (omega (arith, l.1, mode.horizontal))
          (omega (arith, l.3, mode.vertical)) in
      let blank = both-eq across.blank_end down.blank_end (omega (arith, l)) (omega (arith, l)) in
      let picture =
        both-eq across.blank_start down.blank_start (omega (arith, l)) (omega (arith, l)) in
      rw
        (
          at 0x2048 (omega arith),
          at 0x204c (omega arith),
          at 0x2058 (omega arith),
          at 0x2064 (omega arith),
          at 0x2068 (omega arith),
          at 0x206c (omega arith),
          at 0x2070 (omega arith),
          at 0x2074 (omega arith),
          at 0x2008 (omega arith),
          at 0x200c (omega arith),
          at 0x2028 (omega arith),
          h.1,
          v.1,
          h.0,
          v.0,
          h.2,
          v.2,
          h.3,
          v.3,
          hertz,
          size,
          total,
          sync,
          blank,
          picture,
        )
        refl

  next :
      (base : ℕ) {value : ℕ} {ms : List (ℕ × ℕ)}
      → (base < 0x2400) × (base % 4 ≡ 0)
      → AreMethods ms
      → AreMethods ((base + head * 0x400, value) ∷ ms)
  next base h rest = one_more (omega (arith, h, few)) (omega (arith, h)) rest

  head-AreMethods : AreMethods (head_methods head t across down)
  head-AreMethods =
      next 0x2048 (omega arith, omega arith)
        (next 0x204c (omega arith, omega arith)
          (next 0x2058 (omega arith, omega arith)
            (next 0x2064 (omega arith, omega arith)
              (next 0x2068 (omega arith, omega arith)
                (next 0x206c (omega arith, omega arith)
                  (next 0x2070 (omega arith, omega arith)
                    (next 0x2074 (omega arith, omega arith)
                      (next 0x2008 (omega arith, omega arith)
                        (next 0x200c (omega arith, omega arith)
                          (next 0x2028 (omega arith, omega arith) none_left))))))))))

-- For a mode whose sync lies in the blank, and one of eight heads, the hardware reads from the words of
-- nv_gsp_disp_build_core_modeset the viewport, the points of both scans and the clock for that head;
-- the points are in order, the scans have the picture's width and height between the blanks, and
-- their syncs have the mode's widths and distances from the picture.
pub core_modeset-IsScan :
    (t : Timing) (head : ℕ)
    → IsMode t
    → head < 8
    → (h : Scan) × (v : Scan) × IsScan h t.hact t.hblank t.hsync_off t.hsync_w
      × IsScan v t.vact t.vblank t.vsync_off t.vsync_w
      × (read_methods 0 0 (build_core_modeset t head) ≡ head_methods head t h v)
unfolding build_core_modeset
core_modeset-IsScan t head mode few = (
  scan_of t.hact t.hblank t.hsync_off t.hsync_w,
  scan_of t.vact t.vblank t.vsync_off t.vsync_w,
  scan_of-IsScan t.hact t.hblank t.hsync_off t.hsync_w mode.horizontal.0 mode.horizontal.1,
  scan_of-IsScan t.vact t.vblank t.vsync_off t.vsync_w mode.vertical.0 mode.vertical.1,
  rw (modeset-eq t head mode few)
      (read-push_methods 0 (head_methods head t _ _) (head-AreMethods t head mode few)),
)
