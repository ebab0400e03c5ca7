-- ===== src/Falcon/Load.antt =====
-- The transfer of a program into the memories of a Falcon.
use rtxmac_oc.Base.{ℕ, zero, suc, ◌+◌, ◌-◌, ◌*◌, ◌/◌, ◌%◌, bit_and, bit_or, Bool, true, false}
use rtxmac_oc.Base.{not, ◌==◌, if◌then◌else◌}
use rtxmac_oc.Base.{◌+32◌, ◌+64◌, ◌>>>◌, ◌<<<◌, u32}
use rtxmac_oc.Mmio.{Mmio}
use rtxmac_oc.Falcon.Run.{bad_state, Run, ◌>>=◌, ◌>>◌, return, fail, rd, wr, wait_for}
use rtxmac_oc.Falcon.Defs.{not32, poll_step, has_bit, program_brom_ga102}

-- NV_FALCON_MEM_*.
pub data Memory : Type 0 where
  imem_secure imem_nonsecure dmem : Memory

-- `nv_dma_load_target_t`.
pub record Target : Type 0 where
  pub src_start : ℕ
  pub dst_start : ℕ
  pub len : ℕ

abbrev pub dma_block : ℕ
dma_block = 256

unfoldable pub is_imem : Memory → Bool
is_imem imem_secure = true
is_imem imem_nonsecure = true
is_imem dmem = false

unfoldable pub is_secure : Memory → Bool
is_secure imem_secure = true
is_secure imem_nonsecure = false
is_secure dmem = false

unfoldable pub transfer_command : Memory → ℕ
transfer_command mem =
    bit_or (bit_or (6 <<< 8) (if is_imem mem then 16 else 0))
      ((if is_secure mem then 1 else 0) <<< 2)

-- Where the source starts for the bus, and inside it.
unfoldable pub dma_source : Memory → ℕ → Target → ℕ × ℕ
dma_source mem dma_addr t =
    if is_imem mem then (dma_addr, t.src_start) else (dma_addr +64 t.src_start, 0)

module _ (io : Mmio) where
  unfoldable pub dma_reset : ℕ → Run io.State (Unit {0})
  dma_reset base = do
    v ← rd io (base +32 0x624)
    wr io (base +32 0x624) (bit_or v 128)
    wr io (base +32 0x10c) 0

  -- The loop over the blocks, from block `i` on.
  unfoldable pub dma_blocks : ℕ → ℕ → ℕ → ℕ → ℕ → ℕ → ℕ → Run io.State (Unit {0})
  dma_blocks base dst fb_src cmd timeout zero i = return tt
  dma_blocks base dst fb_src cmd timeout (suc num) i = do
    wr io (base +32 0x114) (dst +32 u32 (i * dma_block))
    wr io (base +32 0x11c) (fb_src +32 u32 (i * dma_block))
    wr io (base +32 0x118) cmd
    wait_for io (base +32 0x118) (has_bit 1) timeout poll_step
    dma_blocks base dst fb_src cmd timeout num (i + 1)

  unfoldable pub dma_wr : ℕ → ℕ → Memory → Target → ℕ → Run io.State (Unit {0})
  dma_wr base dma_addr mem t timeout =
      let (dma_start, fb_src) = dma_source mem dma_addr t in
      if not (dma_start % dma_block == 0) then fail bad_state else do
        wr io (base +32 0x110) (u32 (dma_start >>> 8))
        wr io (base +32 0x128) (u32 (bit_and (dma_start >>> 40) 0x1ff))
        dma_blocks base t.dst_start fb_src (transfer_command mem) timeout
            ((t.len +32 (dma_block - 1)) / dma_block) 0

  unfoldable pub dma_load_ga102 :
      ℕ → ℕ → ℕ → Target → Target → ℕ → ℕ → ℕ → ℕ → ℕ → Run io.State (Unit {0})
  dma_load_ga102 base falcon2_base dma_addr imem data_mem pkc_data_offset engine_id_mask ucode_id
        boot_addr timeout =
      do
        dma_reset base
        v ← rd io (base +32 0x600)
        wr io (base +32 0x600) (bit_or (bit_and v (not32 7)) (bit_or (1 <<< 2) 1))
        dma_wr base dma_addr imem_secure imem timeout
        dma_wr base dma_addr dmem data_mem timeout
        program_brom_ga102 io falcon2_base pkc_data_offset engine_id_mask ucode_id
        wr io (base +32 0x104) boot_addr
