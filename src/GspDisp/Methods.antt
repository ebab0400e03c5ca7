-- ===== src/GspDisp/Methods.antt =====
-- The streams of methods that gsp_disp.c builds for the core channel. `pb` and `*off` are the list of
-- the words that were pushed.
use rtxmac_oc.Base.{
  ℕ, ◌+◌, ◌*◌, ◌/◌, ◌%◌, ◌^◌, zero, suc, bit_and, bit_or, Bool, ◌==◌, if◌then◌else◌,
}
use rtxmac_oc.Base.{◌<<<◌, u32, ◌+32◌, ◌-32◌, List, [], ◌∷◌}
use rtxmac_oc.GspDisp.Timing.{Timing}

unfoldable pub method_hdr : ℕ → ℕ → ℕ
method_hdr method_addr count =
    bit_or (bit_or (0 <<< 29) (bit_and count 0x3ff <<< 18)) (bit_and method_addr 0x3ffc)

unfoldable pub push_method : ℕ → ℕ → List ℕ → List ℕ
push_method method_addr value rest = method_hdr method_addr 1 ∷ value ∷ rest

-- Several calls of `push_method`, one after the other.
unfoldable pub push_methods : List (ℕ × ℕ) → List ℕ
push_methods [] = []
push_methods (m ∷ ms) = push_method m.0 m.1 (push_methods ms)

-- The address of a method of a head.
abbrev pub of_head : ℕ → ℕ → ℕ
of_head base head = base +32 u32 (head * 0x400)

abbrev pub both : ℕ → ℕ → ℕ
both low high = bit_or low (u32 (high <<< 16))

unfoldable pub modeset_methods : Timing → ℕ → List (ℕ × ℕ)
modeset_methods t head =
    let htotal = t.hact +32 t.hblank in
    let vtotal = t.vact +32 t.vblank in
    let hbe = t.hblank -32 t.hsync_off -32 1 in
    let vbe = t.vblank -32 t.vsync_off -32 1 in
    let hbs = hbe +32 t.hact in
    let vbs = vbe +32 t.vact in
    let hertz = u32 (t.pclk_khz * 1000) in
    (of_head 0x2048 head, 0)
    ∷ (of_head 0x204c head, both t.hact t.vact)
    ∷ (of_head 0x2058 head, both t.hact t.vact)
    ∷ (of_head 0x2064 head, both htotal vtotal)
    ∷ (of_head 0x2068 head, both (t.hsync_w -32 1) (t.vsync_w -32 1))
    ∷ (of_head 0x206c head, both hbe vbe)
    ∷ (of_head 0x2070 head, both hbs vbs)
    ∷ (of_head 0x2074 head, 1)
    ∷ (of_head 0x2008 head, 0)
    ∷ (of_head 0x200c head, bit_and hertz 0x7fffffff)
    ∷ (of_head 0x2028 head, bit_and hertz 0x7fffffff)
    ∷ []

unfoldable pub build_core_modeset : Timing → ℕ → List ℕ
build_core_modeset t head = push_methods (modeset_methods t head)

-- Polarities are negative where the flag is not set.
unfoldable pub build_output_resource : ℕ → Bool → Bool → List ℕ
build_output_resource head hsync_pos vsync_pos =
    let ores =
      bit_or (bit_or (4 <<< 4) (if hsync_pos then 0 else 1 <<< 2))
        (if vsync_pos then 0 else 1 <<< 3) in
    push_method (of_head 0x2004 head) ores []

-- The head is one of the eight that a mask of 8 bits has.
unfoldable pub build_core_sor : ℕ → ℕ → ℕ → List ℕ
build_core_sor sor head protocol =
    push_method (0x300 +32 u32 (sor * 0x20)) (bit_or (u32 (1 <<< head)) (u32 (protocol <<< 8))) []

unfoldable pub build_core_update : ℕ → List ℕ
build_core_update wndw_interlock_mask =
    push_methods ((0x218, 0) ∷ (0x21c, wndw_interlock_mask) ∷ (0x200, 1) ∷ [])

-- How the hardware reads a stream: opcode 31:29, count 27:18, method / 4 in 13:2 of a header, then the
-- values of consecutive methods, of which `left` are still to come.
unfoldable pub read_methods : ℕ → ℕ → List ℕ → List (ℕ × ℕ)
read_methods left mthd [] = []
read_methods zero mthd (header ∷ words) =
    let rest = read_methods (header / 2 ^ 18 % 2 ^ 10) (header / 4 % 2 ^ 12 * 4) words in
    if header / 2 ^ 29 == 0 then rest else []
read_methods (suc left) mthd (value ∷ words) = (mthd, value) ∷ read_methods left (mthd + 4) words
