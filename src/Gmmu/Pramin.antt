-- ===== src/Gmmu/Pramin.antt =====
-- The PRAMIN window: 1 MiB of VRAM behind BAR0, aimed by a register whose value is cached.
use rtxmac_oc.Base.{ℕ, ◌+◌, ◌*◌, ◌/◌, bit_and, bit_or, ◌==◌, if◌then◌else◌, for_each}
use rtxmac_oc.Base.{u32, not64, ◌+64◌, ◌+32◌, ◌<<<◌, ◌>>>◌}
use rtxmac_oc.Mmio.{Mmio}

abbrev pub bar0_window : ℕ
bar0_window = 0x1700

abbrev pub window_base_shift : ℕ
window_base_shift = 16

abbrev pub target_vid_mem : ℕ
target_vid_mem = 0

abbrev pub window_offset : ℕ
window_offset = 0x700000

abbrev pub window_mask : ℕ
window_mask = 0xfffff

-- `*win_base` and the device behind `io`.
pub record Bus (State : Type 0) : Type 0 where
  pub win_base : ℕ
  pub dev : State

module _ (io : Mmio) where
  unfoldable pub aim : ℕ → Bus io.State → Bus io.State
  aim phys b =
      let base = bit_and phys (not64 window_mask) in
      let reg = bit_or (u32 (base >>> window_base_shift)) (target_vid_mem <<< 24) in
      if b.win_base == base
      then b
      else record { win_base = base; dev = io.wr bar0_window reg b.dev }

  unfoldable pub pramin_rd32 : ℕ → Bus io.State → ℕ × Bus io.State
  pramin_rd32 phys b =
      let aimed = aim phys b in
      let (value, dev) = io.rd (window_offset +32 u32 (bit_and phys window_mask)) aimed.dev in
      (value, record { win_base = aimed.win_base; dev = dev })

  unfoldable pub pramin_wr32 : ℕ → ℕ → Bus io.State → Bus io.State
  pramin_wr32 phys val b =
      let aimed = aim phys b in
      record {
        win_base = aimed.win_base;
        dev = io.wr (window_offset +32 u32 (bit_and phys window_mask)) val aimed.dev;
      }

  -- The low half first.
  unfoldable pub pramin_wr64 : ℕ → ℕ → Bus io.State → Bus io.State
  pramin_wr64 phys val b =
      pramin_wr32 (phys +64 4) (u32 (val >>> 32))
        (pramin_wr32 phys (u32 (bit_and val 0xffffffff)) b)

  -- `len` stays below 2^32 - 3, where the 32-bit `i` does not wrap.
  unfoldable pub pramin_fill : ℕ → ℕ → ℕ → Bus io.State → Bus io.State
  pramin_fill phys len val b = for_each (λ k. pramin_wr32 (phys +64 k * 4) val) ((len + 3) / 4) 0 b
