-- ===== src/Gmmu/Entry.antt =====
-- The encoding of GMMU entries: indices, PTEs and PDEs.
use rtxmac_oc.Base.{ℕ, ◌-◌, bit_and, bit_or, Bool, if◌then◌else◌, u32, ◌>>>◌}

unfoldable pub pde_index : ℕ → ℕ → ℕ → ℕ
pde_index va level_shift entries = u32 (bit_and (va >>> level_shift) (entries - 1))

abbrev pub pte_valid : ℕ
pte_valid = 1

abbrev pub pte_priv : ℕ
pte_priv = 32

abbrev pub pte_ro : ℕ
pte_ro = 64

abbrev pub pde_aperture_vidmem : ℕ
pde_aperture_vidmem = 2

unfoldable pub make_pte_vram : ℕ → Bool → Bool → ℕ
make_pte_vram phys read_only priv =
    let plain = bit_or (phys >>> 4) pte_valid in
    let marked = if priv then bit_or plain pte_priv else plain in
    if read_only then bit_or marked pte_ro else marked

unfoldable pub make_pde_vram : ℕ → ℕ
make_pde_vram pt_phys = bit_or (pt_phys >>> 4) pde_aperture_vidmem
