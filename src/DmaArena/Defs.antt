-- ===== src/DmaArena/Defs.antt =====
-- The arena of nv_dma.h and its three operations.
use rtxmac_oc.Base.{ℕ, ◌+◌, bit_and, ltb, if◌then◌else◌, not64, ◌+64◌, Option, none, some}

-- `nv_dma_arena_t`; `va` is a pointer, kept as its address.
pub record Arena : Type 0 where
  pub va : ℕ
  pub dma_addr : ℕ
  pub off : ℕ
  pub cap : ℕ

unfoldable pub arena_init : ℕ → ℕ → ℕ → Arena
arena_init va dma_addr cap = record { va = va; dma_addr = dma_addr; off = 0; cap = cap }

-- What `nv_dma_alloc` stores through its pointers, and the arena after it.
pub record Block : Type 0 where
  pub out_va : ℕ
  pub out_dma : ℕ
  pub arena : Arena

unfoldable pub dma_alloc : Arena → ℕ → Option Block
dma_alloc a sz =
    let o = a.off in
    let next = bit_and (o +64 sz +64 0xfff) (not64 0xfff) in
    if ltb a.cap next
    then none
    else some (record {
      out_va = a.va + o;
      out_dma = a.dma_addr +64 o;
      arena = record { va = a.va; dma_addr = a.dma_addr; off = next; cap = a.cap };
    })

unfoldable pub arena_reset : Arena → Arena
arena_reset a = record a { off = 0 }
