-- ===== src/Falcon/Defs.antt =====
-- Reset, start, mailboxes, the choice of the core, and the checks of the result.
use rtxmac_oc.Base.{ℕ, zero, suc, ◌+◌, ◌-◌, ◌*◌, ◌^◌, bit_and, bit_or, Bool, not, ◌==◌, ltb, ◌||◌}
use rtxmac_oc.Base.{if◌then◌else◌}
use rtxmac_oc.Base.{◌+32◌, ◌-32◌, ◌>>>◌, ◌<<<◌, Option, none, some}
use rtxmac_oc.Mmio.{Mmio}
use rtxmac_oc.Falcon.Run.{bad_state, Run, ◌>>=◌, ◌>>◌, return, fail, rd, wr, udelay, poll}
use rtxmac_oc.Falcon.Run.{rounds_for, wait_for}

abbrev pub not32 : ℕ → ℕ
not32 x = 2 ^ 32 - 1 - x

abbrev pub poll_step : ℕ
poll_step = 10

-- `v & (1 << k)`, as a condition.
unfoldable pub has_bit : ℕ → ℕ → Bool
has_bit k v = not (bit_and v (2 ^ k) == 0)

unfoldable pub lacks_bit : ℕ → ℕ → Bool
lacks_bit k v = bit_and v (2 ^ k) == 0

-- `reg & (1u << b)` for `b` from 15 down: the position of the highest bit, from 1, or 0.
unfoldable pub highest_bit : ℕ → ℕ → ℕ
highest_bit zero reg = 0
highest_bit (suc b) reg = let lower = highest_bit b reg in if has_bit b reg then b + 1 else lower

-- The bases of the fuse registers, by the engine.
unfoldable pub fuse_base : ℕ → Option ℕ
fuse_base engine_id_mask =
    if not (bit_and engine_id_mask 0x1 == 0)
    then some 0x824140
    else if not (bit_and engine_id_mask 0x4 == 0)
    then some 0x824100
    else if not (bit_and engine_id_mask 0x400 == 0)
    then some 0x8241c0
    else none

unfoldable pub wpr2_bound_from_reg : ℕ → ℕ
wpr2_bound_from_reg reg = reg >>> 4 <<< 12

module _ (io : Mmio) where
  unfoldable pub reset_engine : ℕ → Run io.State (Unit {0})
  reset_engine base = do
    v ← rd io (base +32 0x3c0)
    wr io (base +32 0x3c0) (bit_or v 1)
    udelay io 10
    w ← rd io (base +32 0x3c0)
    wr io (base +32 0x3c0) (bit_and w (not32 1))
    udelay io 10

  unfoldable pub wait_mem_scrubbing : ℕ → ℕ → Run io.State (Unit {0})
  wait_mem_scrubbing base timeout = wait_for io (base +32 0xf4) (lacks_bit 12) timeout poll_step

  unfoldable pub start : ℕ → Run io.State (Unit {0})
  start base = do
    v ← rd io (base +32 0x100)
    if has_bit 6 v then wr io (base +32 0x130) 2 else wr io (base +32 0x100) 2

  unfoldable pub wait_halted : ℕ → ℕ → Run io.State (Unit {0})
  wait_halted base timeout = wait_for io (base +32 0x100) (has_bit 4) timeout poll_step

  unfoldable pub write_mailbox0 : ℕ → ℕ → Run io.State (Unit {0})
  write_mailbox0 base v = wr io (base +32 0x40) v

  unfoldable pub write_mailbox1 : ℕ → ℕ → Run io.State (Unit {0})
  write_mailbox1 base v = wr io (base +32 0x44) v

  unfoldable pub read_mailbox0 : ℕ → Run io.State ℕ
  read_mailbox0 base = rd io (base +32 0x40)

  unfoldable pub read_mailbox1 : ℕ → Run io.State ℕ
  read_mailbox1 base = rd io (base +32 0x44)

  unfoldable pub write_given : (ℕ → Run io.State (Unit {0})) → Option ℕ → Run io.State (Unit {0})
  write_given write none = return tt
  write_given write (some v) = write v

  -- `nv_falcon_boot`: whether the processor halted in time, and mailbox 0 in both cases. A mailbox
  -- is `none` where its `set` flag is 0; `out_mbox0` is given.
  unfoldable pub boot : ℕ → Option ℕ → Option ℕ → ℕ → Run io.State (Bool × ℕ)
  boot base mbox0 mbox1 timeout = do
    write_given (write_mailbox0 base) mbox0
    write_given (write_mailbox1 base) mbox1
    start base
    halted ←
        poll io (base +32 0x100) (has_bit 4) timeout poll_step (rounds_for io timeout poll_step) 0
    v ← read_mailbox0 base
    return (halted, v)

  -- The switch from RISC-V back to the Falcon core.
  unfoldable pub choose_falcon : ℕ → ℕ → Run io.State (Unit {0})
  choose_falcon falcon2_base timeout = do
    wr io (falcon2_base +32 0x668) 0
    wait_for io (falcon2_base +32 0x668) (has_bit 0) timeout poll_step

  unfoldable pub select_core_ga102 : ℕ → ℕ → Run io.State (Unit {0})
  select_core_ga102 falcon2_base timeout = do
    v ← rd io (falcon2_base +32 0x668)
    if has_bit 4 v then choose_falcon falcon2_base timeout else return tt

  unfoldable pub program_brom_ga102 : ℕ → ℕ → ℕ → ℕ → Run io.State (Unit {0})
  program_brom_ga102 falcon2_base pkc_data_offset engine_id_mask ucode_id = do
    wr io (falcon2_base +32 0x210) pkc_data_offset
    wr io (falcon2_base +32 0x19c) engine_id_mask
    wr io (falcon2_base +32 0x198) ucode_id
    wr io (falcon2_base +32 0x180) 1

  unfoldable pub signature_fuse_version_ga102 : ℕ → ℕ → Run io.State ℕ
  signature_fuse_version_ga102 engine_id_mask ucode_id =
      if ltb ucode_id 1 || ltb 16 ucode_id
      then fail bad_state
      else elim (fuse_base engine_id_mask) [
        | none ↦ fail bad_state
        | some reg_base ↦ do
          v ← rd io (reg_base +32 (ucode_id -32 1) * 4)
          return (highest_bit 16 (bit_and v 0xffff))
      ]

  unfoldable pub reset_ga102 : ℕ → ℕ → ℕ → ℕ → Run io.State (Unit {0})
  reset_ga102 base falcon2_base boot0 timeout = do
    ignored ← rd io (base +32 0xf4)
    ready ← poll io (base +32 0xf4) (has_bit 31) 150 10 (rounds_for io 150 10) 0
    reset_engine base
    wait_mem_scrubbing base timeout
    select_core_ga102 falcon2_base timeout
    wait_mem_scrubbing base timeout
    wr io (base +32 0x84) boot0

  unfoldable pub gsp_reset_riscv : ℕ → ℕ → ℕ → Run io.State (Unit {0})
  gsp_reset_riscv base falcon2_base timeout = do
    reset_engine base
    wait_mem_scrubbing base timeout
    v ← rd io (falcon2_base +32 0x668)
    wr io (falcon2_base +32 0x668) (bit_or (bit_and v (not32 0x111)) 0x111)

  unfoldable pub riscv_active : ℕ → Run io.State Bool
  riscv_active falcon2_base = do v ← rd io (falcon2_base +32 0x388); return (has_bit 7 v)

  unfoldable pub write_os_version : ℕ → ℕ → Run io.State (Unit {0})
  write_os_version base app_version = wr io (base +32 0x80) app_version

  -- The progress byte of GFW_BOOT.
  unfoldable pub gfw_done : ℕ → Bool
  gfw_done v = bit_and v 0xff == 0xff

  unfoldable pub gfw_boot_completed : Run io.State Bool
  gfw_boot_completed = do v ← rd io 0x118234; return (gfw_done v)

  unfoldable pub gfw_boot_raw : Run io.State ℕ
  gfw_boot_raw = rd io 0x118234

  unfoldable pub wait_gfw_boot_completed : ℕ → Run io.State (Unit {0})
  wait_gfw_boot_completed timeout = wait_for io 0x118234 gfw_done timeout 1000

  -- `nv_wpr2_is_set`: whether WPR2 is set, and its bounds.
  unfoldable pub wpr2_is_set : Run io.State (Bool × ℕ × ℕ)
  wpr2_is_set = do
    lo ← rd io 0x1fa824
    hi ← rd io 0x1fa828
    return (not (hi >>> 4 == 0), wpr2_bound_from_reg lo, wpr2_bound_from_reg hi)
