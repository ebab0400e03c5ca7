-- ===== src/Gmmu/Branch.antt =====
-- The page tables of one branch: a single page, or a run of pages in one leaf table.
use rtxmac_oc.Base.{ℕ, ◌+◌, ◌*◌, bit_or, false}
use rtxmac_oc.Base.{ltb, if◌then◌else◌, for_each}
use rtxmac_oc.Base.{u32, ◌+64◌, ◌<<<◌, Option, none, some}
use rtxmac_oc.Mmio.{Mmio}
use rtxmac_oc.Gmmu.Pramin.{Bus, pramin_rd32, pramin_wr64, pramin_fill}
use rtxmac_oc.Gmmu.Entry.{pde_index, make_pte_vram, make_pde_vram}

abbrev pub page_bytes : ℕ
page_bytes = 0x1000

-- `nv_gmmu_tables`.
pub record Tables : Type 0 where
  pub pd3_phys : ℕ
  pub pd2_phys : ℕ
  pub pd1_phys : ℕ
  pub pd0_phys : ℕ
  pub spt_phys : ℕ

module _ (io : Mmio) where
  unfoldable pub zero_table : ℕ → ℕ → Bus io.State → Bus io.State
  zero_table table_phys bytes b = pramin_fill io table_phys bytes 0 b

  -- `gmmu_write_pde_chain`: PD3, PD2, PD1, then both halves of the PD0 entry.
  unfoldable pub write_pde_chain : Tables → ℕ → Bus io.State → Bus io.State
  write_pde_chain t va b =
      let b3 = pramin_wr64 io (t.pd3_phys +64 pde_index va 47 4 * 8) (make_pde_vram t.pd2_phys) b in
      let b2 =
        pramin_wr64 io (t.pd2_phys +64 pde_index va 38 512 * 8) (make_pde_vram t.pd1_phys) b3 in
      let b1 =
        pramin_wr64 io (t.pd1_phys +64 pde_index va 29 512 * 8) (make_pde_vram t.pd0_phys) b2 in
      let pd0e = t.pd0_phys +64 pde_index va 21 256 * 16 in
      pramin_wr64 io (pd0e +64 8) (make_pde_vram t.spt_phys) (pramin_wr64 io pd0e 0 b1)

  unfoldable pub zero_tables : Tables → Bus io.State → Bus io.State
  zero_tables t b = zero_table t.spt_phys (512 * 8) (
      zero_table t.pd0_phys (256 * 16) (
        zero_table t.pd1_phys (512 * 8)
          (zero_table t.pd2_phys (512 * 8) (zero_table t.pd3_phys (4 * 8) b))))

  unfoldable pub build_1page : Tables → ℕ → ℕ → Bus io.State → Bus io.State
  build_1page t va page_phys b =
      pramin_wr64 io (t.spt_phys +64 pde_index va 12 512 * 8) (make_pte_vram page_phys false false)
        (write_pde_chain t va (zero_tables t b))

  -- `none` is the -1 of a run that leaves its table.
  unfoldable pub map_range : Tables → ℕ → ℕ → ℕ → Bus io.State → Option (Bus io.State)
  map_range t va page_phys npages b =
      let is0 = pde_index va 12 512 in
      if ltb 512 (is0 + npages)
      then none
      else some (
          for_each
            (λ k.
              pramin_wr64 io (t.spt_phys +64 u32 (is0 + k) * 8)
                (make_pte_vram (page_phys +64 k * page_bytes) false false))
            npages 0 (write_pde_chain t va (zero_tables t b)))

  unfoldable pub read_pte : ℕ → ℕ → Bus io.State → ℕ × Bus io.State
  read_pte spt_phys va b =
      let pa = spt_phys +64 pde_index va 12 512 * 8 in
      let (lo, b1) = pramin_rd32 io pa b in
      let (hi, b2) = pramin_rd32 io (pa +64 4) b1 in (bit_or lo (hi <<< 32), b2)
