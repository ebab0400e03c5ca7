-- ===== src/Gmmu/Translate.antt =====
-- `nv_gmmu_map_range` and `nv_gmmu_build_1page` as the hardware sees them: the translation that the
-- tables give afterwards.
use rtxmac_oc.Base.{ℕ, ◌+◌, ◌-◌, ◌*◌, ◌/◌, ◌%◌, ◌^◌, ◌≤◌, ◌<◌, ◌≡◌, ◌∙◌, refl, arith}
use rtxmac_oc.Base.{ltb, leb, ◌&&◌, if◌then◌else◌, ◌+64◌, u32, bit_or, for_each, false}
use rtxmac_oc.Base.{Option, none, some}
use rtxmac_oc.Base.Bits.Mask.{bit_or-shifted, bit_or_comm}
use rtxmac_oc.Mmio.{Mmio}
use rtxmac_oc.Gmmu.Pramin.{Bus, pramin_rd32}
use rtxmac_oc.Gmmu.Entry.{pde_index}
use rtxmac_oc.Gmmu.Branch.{Tables, map_range, build_1page, read_pte}
use rtxmac_oc.Gmmu.Window.{Window, IsAimed, entry, word, rd32_lem}
use rtxmac_oc.Gmmu.Walk.{walk, pde_index_512}
use rtxmac_oc.Gmmu.Content.{IsTables, IsPage, within}
use rtxmac_oc.Gmmu.Mapped.{walk-IsMapped}
use rtxmac_oc.Gmmu.Leaves.{map_range-IsMapping}

module _ (io : Mmio) where
  -- On a page address below 2^64, building one page is mapping a run of one.
  pub build_1page-map_range :
      (t : Tables) (va page_phys : ℕ) (b : Bus io.State)
      → page_phys < 2 ^ 64
      → map_range io t va page_phys 1 b ≡ some (build_1page io t va page_phys b)
  unfolding map_range build_1page for_each
  build_1page-map_range t va page_phys b h =
      let index = pde_index_512 va 12 in
      let fits : ltb 512 (pde_index va 12 512 + 1) ≡ false = ground (arith, index) in
      let first : u32 (pde_index va 12 512 + 0) ≡ pde_index va 12 512 = omega (arith, index) in
      let page : page_phys +64 0 * 0x1000 ≡ page_phys = omega arith in rw (fits, first, page) refl

module _ (io : Mmio) (w : Window io) where
  -- A request that the leaf table can hold: page addresses, in the 49 bits of a virtual address.
  pub record IsMappable (va page_phys n : ℕ) : Type 0 where
    pub va_paged : va % 2 ^ 12 ≡ 0
    pub va_small : va < 2 ^ 49
    pub fits : va / 2 ^ 12 % 512 + n ≤ 512
    pub paged : page_phys % 2 ^ 12 ≡ 0
    pub small : page_phys + n * 2 ^ 12 ≤ 2 ^ 64

  -- The call succeeds; the walk from PD3 takes each byte of the `n` pages to its place and no other
  -- address anywhere; entries outside the five tables are as before.
  pub record IsTranslated (t : Tables) (va page_phys n : ℕ) (b : Bus io.State)
      (o : Option (Bus io.State)) : Type 0 where
    pub result : Bus io.State
    pub made : o ≡ some result
    pub translates :
        (address : ℕ)
        → address < 2 ^ 49
        → walk (entry io w result) t.pd3_phys address ≡ (
            if leb va address && ltb address (va + n * 2 ^ 12)
            then some (page_phys + (address - va))
            else none)
    pub others :
        (x : ℕ)
        → x % 8 ≡ 0
        → within t.pd3_phys 4096 x ≡ false
        → within t.pd2_phys 4096 x ≡ false
        → within t.pd1_phys 4096 x ≡ false
        → within t.pd0_phys 4096 x ≡ false
        → within t.spt_phys 4096 x ≡ false
        → entry io w result x ≡ entry io w b x

  -- With five different pages for tables, an aimed window and a mappable request, the mapping
  -- succeeds, the hardware's walk then translates the requested pages byte by byte and nothing else
  -- below 2^49, and entries of VRAM outside the five pages keep their values.
  pub map_range-IsTranslated :
      (t : Tables) (va page_phys n : ℕ) (b : Bus io.State)
      → IsTables t
      → IsMappable va page_phys n
      → IsAimed io w b
      → IsTranslated t va page_phys n b (map_range io t va page_phys n b)
  map_range-IsTranslated t va page_phys n b ht h a =
      let m = map_range-IsMapping io w t ht va page_phys n h.fits h.small h.paged b a in
      record {
        result = m.result;
        made = m.made;
        translates = λ address small.
            walk-IsMapped t va page_phys n address (entry io w m.result) ht m.tables h.va_paged
              h.va_small h.fits h.paged small;
        others = m.others;
      }

  word_halves : (x y : ℕ) → x < 2 ^ 32 → y < 2 ^ 32 → bit_or x (y * 2 ^ 32) ≡ x + y * 2 ^ 32
  word_halves x y hx hy = rw (bit_or_comm x (y * 2 ^ 32)) (omega (arith, bit_or-shifted 32 y x hx))

  -- Reading back a PTE returns the entry of VRAM at the place for `va` in the leaf table, whatever
  -- its 32-bit words hold, and changes no word of VRAM.
  pub read_pte-entry :
      (spt va : ℕ) (b : Bus io.State)
      → IsPage spt
      → IsAimed io w b
      → ((x : ℕ) → word io w b x < 2 ^ 32)
      → ((read_pte io spt va b).0 ≡ entry io w b (spt + va / 2 ^ 12 % 512 * 8))
        × ((x : ℕ) → word io w (read_pte io spt va b).1 x ≡ word io w b x)
  unfolding read_pte
  read_pte-entry spt va b p a small =
      let pa = spt + va / 2 ^ 12 % 512 * 8 in
      let there : spt +64 pde_index va 12 512 * 8 ≡ pa =
        omega (arith, pde_index_512 va 12, p.inside) in
      let next : pa +64 4 ≡ pa + 4 = omega (arith, p.inside) in
      let low = rd32_lem io w pa b (omega (arith, p.inside)) (omega (arith, p.aligned)) a in
      let high =
        rd32_lem io w (pa + 4) (pramin_rd32 io pa b).1 (omega (arith, p.inside))
          (omega (arith, p.aligned)) low.1 in
      rw (there, next)
        (
          rw (low.0, high.0, low.2 (pa + 4))
              (word_halves (word io w b pa) (word io w b (pa + 4)) (small _) (small _)),
          λ x. high.2 x ∙ low.2 x,
        )
