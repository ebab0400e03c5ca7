-- ===== src/FbLayout/Tests.antt =====
-- The theorems on the FRTS region at a card of 8 GiB with a display and a valid workspace register.
use rtxmac_oc.Base.{ℕ, ◌+◌, ◌<◌, ◌≡◌, refl, arith, some, none, ◌==◌}
use rtxmac_oc.Base.{if◌then◌else◌}
use rtxmac_oc.Base.{◌⊎◌}
use rtxmac_oc.Mmio.{Mmio}
use rtxmac_oc.FbLayout.Defs.{
  compute_frts, vidmem_size, vga_start, supports_display, workspace_start, frts_below,
}
use rtxmac_oc.FbLayout.Frts.{start_of, IsFrts, compute_frts-IsFrts, size_read, fuse_read}
use rtxmac_oc.FbLayout.Frts.{workspace_read}

-- Registers that never change: 8192 MiB, a display, and the workspace at 8 GiB less 128 KiB.
abbrev card : Mmio
card = record {
  State = ℕ;
  rd = λ reg s.
      (if reg == 0x1183a4 then 0x2000 else if reg == 0x625f04 then 0x1fffe08 else 0, s + 1);
  wr = λ reg v s. s;
  udelay = λ n s. s;
}

frts_run : compute_frts card 0 ≡ (some (0x1ffee0000, 0x100000), 3)
unfolding compute_frts vidmem_size vga_start supports_display workspace_start frts_below
frts_run = refl

compute_frts-IsFrts_example :
    ((size_read card 0 ≡ 0) × ((compute_frts card 0).0 ≡ none))
    ⊎ ((0 < size_read card 0)
        × IsFrts
            (start_of (size_read card 0) (fuse_read card 0) (workspace_read card 0))
            (compute_frts card 0).0)
compute_frts-IsFrts_example = compute_frts-IsFrts card 0 (omega arith) (omega arith)

frts_value : (compute_frts card 0).0 ≡ some (0x1ffee0000, 0x100000)
unfolding compute_frts vidmem_size vga_start supports_display workspace_start frts_below
frts_value = refl
