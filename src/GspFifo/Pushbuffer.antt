-- ===== src/GspFifo/Pushbuffer.antt =====
-- The words that gsp_fifo.c writes for the GPU: methods for an engine, and entries of the ring. A
-- function that fills `pb` and returns the number of words is the list of these words.
use rtxmac_oc.Base.{ℕ, bit_and, bit_or, ◌==◌, if◌then◌else◌}
use rtxmac_oc.Base.{◌<<<◌, ◌>>>◌, u32, List, [], ◌∷◌, ◌++◌}

-- NVC56F_DMA_INCR_OPCODE_VALUE << 29.
unfoldable pub pb_hdr : ℕ → ℕ → ℕ → ℕ
pb_hdr subch mthd count =
    bit_or (bit_or (bit_or (1 <<< 29) (bit_and count 0x1fff <<< 16)) (bit_and subch 0x7 <<< 13))
      (bit_and (mthd >>> 2) 0xfff)

unfoldable pub build_sem_release : ℕ → ℕ → List ℕ
build_sem_release sem_va payload =
    bit_or (bit_or (bit_or (1 <<< 29) (5 <<< 16)) (0 <<< 13)) (bit_and (0x5c >>> 2) 0xfff)
    ∷ u32 (bit_and sem_va 0xfffffffc)
    ∷ u32 (bit_and (sem_va >>> 32) 0xff)
    ∷ payload
    ∷ 0
    ∷ bit_or 0x1 (1 <<< 20)
    ∷ []

-- NVC7B5_LD_XFER_NON_PIPELINED with FLUSH_ENABLE, SEM_RELEASE_ONE_WORD, the two layouts and
-- DISABLE_PLC.
abbrev pub launch_copy : ℕ
launch_copy =
    bit_or (bit_or (bit_or (bit_or (bit_or 0x2 (1 <<< 2)) (1 <<< 3)) (1 <<< 7)) (1 <<< 8))
      (1 <<< 26)

-- NV_FIFO_SUBCH_COPY.
abbrev pub subch_copy : ℕ
subch_copy = 4

unfoldable pub build_ce_copy : ℕ → ℕ → ℕ → ℕ → ℕ → ℕ → List ℕ
build_ce_copy class_engine_id src_va dst_va bytes sem_va payload =
    (if class_engine_id == 0 then [] else pb_hdr subch_copy 0x0 1 ∷ class_engine_id ∷ [])
    ++ pb_hdr subch_copy 0x240 3
      ∷ u32 (bit_and (sem_va >>> 32) 0x1ffff)
      ∷ u32 (bit_and sem_va 0xffffffff)
      ∷ payload
      ∷ pb_hdr subch_copy 0x400 4
      ∷ u32 (bit_and (src_va >>> 32) 0x1ffff)
      ∷ u32 (bit_and src_va 0xffffffff)
      ∷ u32 (bit_and (dst_va >>> 32) 0x1ffff)
      ∷ u32 (bit_and dst_va 0xffffffff)
      ∷ pb_hdr subch_copy 0x418 1
      ∷ bytes
      ∷ pb_hdr subch_copy 0x300 1
      ∷ launch_copy
      ∷ []

-- The two words of a ring entry.
unfoldable pub gpfifo_entry : ℕ → ℕ → ℕ × ℕ
gpfifo_entry pb_va pb_dwords = (
  u32 (bit_and pb_va 0xfffffffc),
  bit_or (u32 (bit_and (pb_va >>> 32) 0xff)) (bit_and pb_dwords 0x1fffff <<< 10),
)
