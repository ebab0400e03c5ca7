-- ===== src/FbLayout/Defs.antt =====
-- The functions of fb_layout.c over a platform; the state after the reads is returned beside the
-- result.
use rtxmac_oc.Base.{ℕ, ◌-◌, ◌*◌, bit_and, ltb, ◌==◌, if◌then◌else◌, not64, ◌-64◌, ◌>>>◌, ◌<<<◌}
use rtxmac_oc.Base.{Option, none, some, Bool}
use rtxmac_oc.Mmio.{Mmio}

abbrev pub usable_fb_size_in_mb : ℕ
usable_fb_size_in_mb = 0x1183a4

abbrev pub fuse_status_opt_display : ℕ
fuse_status_opt_display = 0x820c04

abbrev pub vga_workspace_base : ℕ
vga_workspace_base = 0x625f04

abbrev pub frts_size : ℕ
frts_size = 0x100000

abbrev pub pramin_size : ℕ
pramin_size = 0x100000

abbrev pub vbios_workspace_size : ℕ
vbios_workspace_size = 0x20000

abbrev pub frts_align : ℕ
frts_align = 0x20000

-- The start of the VGA workspace from the register that names it.
unfoldable pub workspace_start : ℕ → ℕ → ℕ → ℕ
workspace_start fb_end base r =
    let addr = r >>> 8 <<< 16 in
    if bit_and (r >>> 3) 1 == 1
    then (if ltb addr base then fb_end -64 vbios_workspace_size else addr)
    else base

-- The region below the workspace; `none` is the -1 of a workspace that starts too low.
unfoldable pub frts_below : ℕ → Option (ℕ × ℕ)
frts_below vga_start =
    let aligned = bit_and vga_start (not64 (frts_align - 1)) in
    if ltb aligned frts_size then none else some (aligned -64 frts_size, frts_size)

module _ (io : Mmio) where
  unfoldable pub vidmem_size : io.State → ℕ × io.State
  vidmem_size s = let (mb, s1) = io.rd usable_fb_size_in_mb s in (mb * 0x100000, s1)

  unfoldable pub supports_display : io.State → Bool × io.State
  supports_display s = let (f, s1) = io.rd fuse_status_opt_display s in (bit_and f 1 == 0, s1)

  unfoldable pub vga_start : ℕ → ℕ → io.State → ℕ × io.State
  vga_start fb_end base s =
      let (display, s1) = supports_display s in
      let (r, s2) = io.rd vga_workspace_base s1 in
      if display then (workspace_start fb_end base r, s2) else (base, s1)

  unfoldable pub compute_frts : io.State → Option (ℕ × ℕ) × io.State
  compute_frts s =
      let (fb_end, s1) = vidmem_size s in
      let (start, s2) = vga_start fb_end (fb_end -64 pramin_size) s1 in
      if ltb fb_end pramin_size then (none, s1) else (frts_below start, s2)
