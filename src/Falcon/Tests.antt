-- ===== src/Falcon/Tests.antt =====
-- A platform whose registers become ready at the fifth read, and the theorems at it.
use rtxmac_oc.Base.{
  ◌≢◌, List, ℕ, ◌+◌, ◌-◌, ◌*◌, ◌/◌, ◌%◌, ◌^◌, ◌≤◌, ◌<◌, ◌≡◌, refl, arith, ◌⊎◌, leb,
}
use rtxmac_oc.Base.{if◌then◌else◌, ◌+32◌, some, none, ok, err, [], ◌∷◌}
use rtxmac_oc.Mmio.{Mmio}
use rtxmac_oc.Falcon.Run.{bad_state, wait_for, poll, carry, return, ◌>>=◌}
use rtxmac_oc.Falcon.Defs.{has_bit, boot, reset_ga102, gsp_reset_riscv, wait_gfw_boot_completed}
use rtxmac_oc.Falcon.Defs.{signature_fuse_version_ga102}
use rtxmac_oc.Falcon.Load.{Target, dmem, dma_wr, dma_load_ga102}
use rtxmac_oc.Falcon.Poll.{IsWaited, wait_for-IsWaited}
use rtxmac_oc.Falcon.Ends.{Ends, sequences_end}
use rtxmac_oc.Falcon.Writes.{recorded, Writes, block_writes, dma_wr-Writes}
use rtxmac_oc.Falcon.Fuses.{IsFuseBase, IsFuseless, IsTop, fuse_version-IsTop}

-- The state counts the reads.
abbrev slow : Mmio
slow = record {
  State = ℕ;
  rd = λ off s. (if leb 4 s then 0xffffffff else 0, s + 1);
  wr = λ off v s. s;
  udelay = λ us s. s;
}

wait_run : wait_for slow 0x110100 (has_bit 4) 100 10 0 ≡ some (ok tt, 5)
unfolding wait_for poll carry return ◌>>=◌ has_bit
wait_run = refl

wait_for-IsWaited_example :
    IsWaited slow 0x110100 10 (has_bit 4) 100 0 (wait_for slow 0x110100 (has_bit 4) 100 10 0)
wait_for-IsWaited_example =
    wait_for-IsWaited slow 0x110100 10 (has_bit 4) 100 0 (omega arith) (omega arith)

abbrev part : Target
part = record { src_start = 0x400; dst_start = 0; len = 700 }

abbrev AllEnd : Type 0
AllEnd =
    Ends (boot slow 0x110000 (some 1) none 1000000)
    × (Ends (reset_ga102 slow 0x110000 0x111000 0x194000a1 1000000)
        × (Ends (dma_load_ga102 slow 0x110000 0x111000 0x100000 part part 0 0x400 9 0 1000000)
            × (Ends (gsp_reset_riscv slow 0x110000 0x111000 1000000)
                × Ends (wait_gfw_boot_completed slow 1000000))))

sequences_end_example : AllEnd
sequences_end_example =
    sequences_end slow 0x110000 0x111000 1000000 (some 1) none 0x194000a1 0x100000 part part 0 0x400
      9 0 (omega arith)

-- Data at a multiple of 256.
dma_wr-Writes_example :
    (((0x100400 % 2 ^ 64) % 256 ≢ 0)
      × ((s : ℕ × List (ℕ × ℕ))
          → dma_wr (recorded slow) 0x110000 0x100000 dmem part 1000 s ≡ some (err bad_state, s)))
    ⊎ (((0x100400 % 2 ^ 64) % 256 ≡ 0)
        × Writes ℕ (dma_wr (recorded slow) 0x110000 0x100000 dmem part 1000) (
            (0x110000 +32 0x110, 0x100400 / 2 ^ 8 % 2 ^ 32)
            ∷ (0x110000 +32 0x128, 0x100400 / 2 ^ 40 % 2 ^ 9)
            ∷ block_writes slow 0x110000 0 0 0x600 ((700 + 255) / 256) 0))
dma_wr-Writes_example = dma_wr-Writes slow 0x110000 0x100000 dmem part 1000 (omega arith)

block_run :
    block_writes slow 0x110000 0 0 0x600 3 0
    ≡ (0x110114, 0)
      ∷ (0x11011c, 0)
      ∷ (0x110118, 0x600)
      ∷ (0x110114, 256)
      ∷ (0x11011c, 256)
      ∷ (0x110118, 0x600)
      ∷ (0x110114, 512)
      ∷ (0x11011c, 512)
      ∷ (0x110118, 0x600)
      ∷ []
unfolding block_writes
block_run = refl

-- The fuse register of SEC2 microcode 3 shows 0xffffffff from the fifth read on.
abbrev VersionCase : ℕ → Type 0
VersionCase s =
    (((1 ≤ 3) × (3 ≤ 16))
      × ((rb : ℕ) × (version : ℕ) × IsFuseBase 1 rb
          × (signature_fuse_version_ga102 slow 1 3 s
              ≡ some (ok version, (slow.rd ((rb + (3 - 1) * 4) % 2 ^ 32) s).1))
          × IsTop ((slow.rd ((rb + (3 - 1) * 4) % 2 ^ 32) s).0 % 2 ^ 16) version))
    ⊎ (((3 < 1) ⊎ (16 < 3) ⊎ IsFuseless 1)
        × (signature_fuse_version_ga102 slow 1 3 s ≡ some (err bad_state, s)))

fuse_version-IsTop_example : VersionCase 7
fuse_version-IsTop_example = fuse_version-IsTop slow 1 3 7
