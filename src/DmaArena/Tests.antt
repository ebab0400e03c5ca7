-- ===== src/DmaArena/Tests.antt =====
-- The theorems on the arena at a buffer of 64 MiB.
use rtxmac_oc.Base.{ℕ, ◌+◌, ◌≤◌, ◌≡◌, refl, arith, some}
use rtxmac_oc.DmaArena.Defs.{Arena, Block, dma_alloc}
use rtxmac_oc.DmaArena.Blocks.{IsArena, IsOutcome, here, step, dma_alloc-IsOutcome}
use rtxmac_oc.DmaArena.Blocks.{blocks_disjoint}

abbrev buffer : Arena
buffer = record { va = 0x7f0000000000; dma_addr = 0x80000000; off = 0; cap = 0x4000000 }

buffer-IsArena : IsArena buffer
buffer-IsArena = record { paged = refl; inside = omega arith; dma_word = omega arith }

abbrev at_off : ℕ → Arena
at_off off = record { va = 0x7f0000000000; dma_addr = 0x80000000; off = off; cap = 0x4000000 }

abbrev block : ℕ → ℕ → Block
block start off = record {
  out_va = 0x7f0000000000 + start;
  out_dma = 0x80000000 + start;
  arena = at_off off;
}

first_run : dma_alloc buffer 5000 ≡ some (block 0 0x2000)
unfolding dma_alloc
first_run = refl

second_run : dma_alloc (at_off 0x2000) 4096 ≡ some (block 0x2000 0x3000)
unfolding dma_alloc
second_run = refl

third_run : dma_alloc (at_off 0x3000) 1 ≡ some (block 0x3000 0x4000)
unfolding dma_alloc
third_run = refl

dma_alloc-IsOutcome_example : IsOutcome buffer 5000 (dma_alloc buffer 5000)
dma_alloc-IsOutcome_example = dma_alloc-IsOutcome buffer 5000 buffer-IsArena (omega arith)

blocks_disjoint_example :
    ((block 0 0x2000).out_va + 5000 ≤ (block 0x3000 0x4000).out_va)
    × ((block 0 0x2000).out_dma + 5000 ≤ (block 0x3000 0x4000).out_dma)
blocks_disjoint_example =
    blocks_disjoint buffer (at_off 0x3000) 5000 1 (block 0 0x2000) (block 0x3000 0x4000)
      buffer-IsArena (omega arith) first_run
      (step 4096 (block 0x2000 0x3000) (omega arith) second_run here) (omega arith) third_run
