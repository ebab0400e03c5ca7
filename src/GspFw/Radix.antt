-- ===== src/GspFw/Radix.antt =====
-- The radix tables as the GSP walks them.
use rtxmac_oc.Base.{ℕ, ◌+◌, ◌-◌, ◌*◌, ◌/◌, ◌%◌, ◌^◌, ◌≤◌, ◌<◌, ◌≡◌, refl, sym, ap, ◌∙◌, arith}
use rtxmac_oc.Base.{ltb, leb, ◌==◌, ◌&&◌, true, false}
use rtxmac_oc.Base.{◌+64◌, ◌-64◌, u32, ok, Option, some, none, if◌then◌else◌}
use rtxmac_oc.Bytes.Defs.{Buffer, word64}
use rtxmac_oc.Bytes.Stores.{word64-put64}
use rtxmac_oc.Bytes.Fill.{store64-put64, fill64, word64-fill64, len-fill64}
use rtxmac_oc.GspFw.Defs.{Levels, radix3_levels, fill_levels, radix3_fill}

-- The word that a table gives at an address of the device, where the table stands at `base`.
unfoldable pub entry_at : Buffer → ℕ → ℕ → Option ℕ
entry_at table base addr =
    if leb base addr && leb (addr + 8) (base + table.len)
    then some (word64 table (addr - base))
    else none

unfoldable pub follow : Option ℕ → (ℕ → Option ℕ) → Option ℕ
follow none next = none
follow (some v) next = next v

-- The walk for byte `x` of the image: the one entry of level 0, the entry of level 1 for the 2 MiB that
-- hold the byte, the entry for its page in the page of level 2 that this one names.
unfoldable pub walk : Levels → ℕ → ℕ → ℕ → Option ℕ
walk t dma_lvl2 dma_lvl1 x =
    follow (entry_at t.lvl1 dma_lvl1 (word64 t.lvl0 0 + x / 2 ^ 21 * 8)) λ e1.
      follow (entry_at t.lvl2 dma_lvl2 (e1 + x / 2 ^ 12 % 512 * 8)) λ e2. some (e2 + x % 2 ^ 12)

entry_inside :
    (table : Buffer) (base i : ℕ)
    → i * 8 + 8 ≤ table.len
    → entry_at table base (base + i * 8) ≡ some (word64 table (i * 8))
unfolding entry_at
entry_inside table base i h =
    let inside : (leb base (base + i * 8) && leb (base + i * 8 + 8) (base + table.len)) ≡ true =
      ground arith in
    let at : base + i * 8 - base ≡ i * 8 = omega arith in rw (inside, at) refl

levels_lem :
    (size : ℕ)
    → 0 < size
    → size ≤ 2 ^ 30
    → radix3_levels size ≡ ok ((size + 4095) / 4096, ((size + 4095) / 4096 * 8 + 4095) / 4096)
unfolding radix3_levels
levels_lem size some_bytes few =
    let given : (size == 0) ≡ false = ground arith in
    let pages : (size +64 0x1000 -64 1) / 0x1000 ≡ (size + 4095) / 4096 = omega arith in
    let l2 : ((size + 4095) / 4096 * 8 +64 0x1000 -64 1) / 0x1000
        ≡ ((size + 4095) / 4096 * 8 + 4095) / 4096 =
      omega arith in
    let fit : ltb 512 (((size + 4095) / 4096 * 8 + 4095) / 4096) ≡ false = ground arith in
    let w1 : u32 ((size + 4095) / 4096) ≡ (size + 4095) / 4096 = omega arith in
    let w2 : u32 (((size + 4095) / 4096 * 8 + 4095) / 4096)
        ≡ ((size + 4095) / 4096 * 8 + 4095) / 4096 =
      omega arith in
    rw (given, pages, l2, fit, w1, w2) refl

module _ (size dma_fwimage dma_lvl2 dma_lvl1 : ℕ) (t : Levels) (some_bytes : 0 < size)
    (few : size ≤ 2 ^ 30) (fw_small : dma_fwimage < 2 ^ 63) (l2_small : dma_lvl2 < 2 ^ 63)
    (l1_small : dma_lvl1 < 2 ^ 63) (room1 : 4096 ≤ t.lvl1.len)
    (room2 : (size + 4095) / 4096 * 8 ≤ t.lvl2.len) where
  abbrev pages : ℕ
  pages = (size + 4095) / 4096

  abbrev filled : Levels
  filled = fill_levels t pages ((pages * 8 + 4095) / 4096) dma_fwimage dma_lvl2 dma_lvl1

  root_entry : word64 filled.lvl0 0 ≡ dma_lvl1
  unfolding fill_levels
  root_entry = rw (store64-put64 t.lvl0 0 dma_lvl1, word64-put64 t.lvl0 0 dma_lvl1) (omega arith)

  middle_entry :
      (j : ℕ) → j < (pages * 8 + 4095) / 4096 → word64 filled.lvl1 (j * 8) ≡ dma_lvl2 + j * 4096
  unfolding fill_levels
  middle_entry j h =
      let at : 0 + j * 8 ≡ j * 8 = omega arith in
      sym (
        ap (word64 (fill64 t.lvl1 0 (λ j. dma_lvl2 +64 j * 0x1000) ((pages * 8 + 4095) / 4096) 0))
          at)
      ∙ word64-fill64 0 (λ j. dma_lvl2 +64 j * 0x1000) t.lvl1 ((pages * 8 + 4095) / 4096) 0 j
          (omega arith) (omega (arith, h))
      ∙ omega (arith, few, l2_small, h)

  leaf_entry : (i : ℕ) → i < pages → word64 filled.lvl2 (i * 8) ≡ dma_fwimage + i * 4096
  unfolding fill_levels
  leaf_entry i h =
      let at : 0 + i * 8 ≡ i * 8 = omega arith in
      sym (ap (word64 (fill64 t.lvl2 0 (λ i. dma_fwimage +64 i * 0x1000) pages 0)) at)
      ∙ word64-fill64 0 (λ i. dma_fwimage +64 i * 0x1000) t.lvl2 pages 0 i (omega arith)
          (omega (arith, h))
      ∙ omega (arith, few, fw_small, h)

  lengths : (filled.lvl1.len ≡ t.lvl1.len) × (filled.lvl2.len ≡ t.lvl2.len)
  unfolding fill_levels
  lengths = (len-fill64 0 _ t.lvl1 _ 0, len-fill64 0 _ t.lvl2 _ 0)

  filled-walk : (x : ℕ) → x < size → walk filled dma_lvl2 dma_lvl1 x ≡ some (dma_fwimage + x)
  unfolding walk follow
  filled-walk x h =
      let j = x / 2 ^ 21 in
      let i = x / 2 ^ 12 in
      let in_page : j < (pages * 8 + 4095) / 4096 = omega (arith, h) in
      let step1 = entry_inside filled.lvl1 dma_lvl1 j (omega (arith, lengths, room1, few, h)) in
      let step2 = entry_inside filled.lvl2 dma_lvl2 i (omega (arith, lengths, room2, h)) in
      let place : dma_lvl2 + j * 4096 + i % 512 * 8 ≡ dma_lvl2 + i * 8 = omega arith in
      let sum : dma_fwimage + i * 4096 + x % 2 ^ 12 ≡ dma_fwimage + x = omega arith in
      rw
        (
          root_entry,
          step1,
          middle_entry j in_page,
          place,
          step2,
          leaf_entry i (omega (arith, h)),
          sum,
        )
        refl

  -- For an image of up to 1 GiB and tables with room for its entries, at addresses below 2^63,
  -- nv_gsp_radix3_fill succeeds, and the walk through its three tables leads from each byte of the
  -- image to the place of that byte in memory.
  pub radix3_fill-walk :
      (x : ℕ)
      → x < size
      → (t' : Levels) × (radix3_fill size t dma_fwimage dma_lvl2 dma_lvl1 ≡ ok t')
        × (walk t' dma_lvl2 dma_lvl1 x ≡ some (dma_fwimage + x))
  unfolding radix3_fill fill_levels
  radix3_fill-walk x h =
      (filled, rw (radix3_fill, levels_lem size some_bytes few) refl, filled-walk x h)
