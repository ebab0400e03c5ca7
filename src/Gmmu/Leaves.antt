-- ===== src/Gmmu/Leaves.antt =====
-- `nv_gmmu_map_range`: the five tables hold what the mapping asks for, and VRAM elsewhere is kept.
use rtxmac_oc.Base.{ℕ, ◌+◌, ◌-◌, ◌*◌, ◌/◌, ◌%◌, ◌^◌, ◌≤◌, ◌<◌, ◌≡◌, ◌≢◌, ◌∙◌, ap, refl, arith}
use rtxmac_oc.Base.{ltb, leb, ◌&&◌, if◌then◌else◌, ◌+64◌, u32, for_each, false}
use rtxmac_oc.Base.{Option, some, Bool-cases, inl, inr}
use rtxmac_oc.Mmio.{Mmio}
use rtxmac_oc.Gmmu.Pramin.{Bus, pramin_wr64}
use rtxmac_oc.Gmmu.Entry.{pde_index, make_pte_vram}
use rtxmac_oc.Gmmu.Branch.{Tables, zero_tables, write_pde_chain, map_range, page_bytes}
use rtxmac_oc.Gmmu.Window.{Window, IsAimed, entry}
use rtxmac_oc.Gmmu.Writes.{IsWritten, IsRun, write_run}
use rtxmac_oc.Gmmu.Walk.{make_pte_vram-eq, pde_index_512}
use rtxmac_oc.Gmmu.Content.{
  IsPage, IsTables, within, Shows, zero_tables-Shows, chain-Shows, cleared, chained,
}
use rtxmac_oc.Gmmu.Mapped.{IsMapped}
use rtxmac_oc.Gmmu.Chain.{
  not_within, chained_pd3, chained_pd2, chained_pd1, chained_pd0, chained_spt, chained_elsewhere,
}

module _ (io : Mmio) (w : Window io) where
  module _ (t : Tables) (ht : IsTables t) (va page_phys n : ℕ) (fits : va / 2 ^ 12 % 512 + n ≤ 512)
      (small : page_phys + n * 2 ^ 12 ≤ 2 ^ 64) (paged : page_phys % 2 ^ 12 ≡ 0) where
    abbrev leaf_at : ℕ → ℕ
    leaf_at k = t.spt_phys +64 u32 (pde_index va 12 512 + k) * 8

    abbrev leaf_value : ℕ → ℕ
    leaf_value k = make_pte_vram (page_phys +64 k * page_bytes) false false

    leaf_at-eq : (k : ℕ) → k < n → leaf_at k ≡ t.spt_phys + (va / 2 ^ 12 % 512 + k) * 8
    leaf_at-eq k h = omega (arith, pde_index_512 va 12, ht.spt.inside)

    leaf_value-eq :
        (k : ℕ) → k < n → leaf_value k ≡ make_pte_vram (page_phys + k * 2 ^ 12) false false
    leaf_value-eq k h = ap (λ p. make_pte_vram p false false) (omega arith)

    leaf_small : (k : ℕ) → k < n → leaf_value k < 2 ^ 64
    leaf_small k h =
        omega (arith, leaf_value-eq k h, make_pte_vram-eq (page_phys + k * 2 ^ 12) (omega arith))

    leaves-IsRun : IsRun io w leaf_at leaf_value n
    leaves-IsRun = record {
      aligned = λ j h. omega (arith, leaf_at-eq j h, ht.spt.aligned);
      inside = λ j h. omega (arith, leaf_at-eq j h, ht.spt.inside);
      small = leaf_small;
      apart = λ j k h hk e. omega (arith, leaf_at-eq j (omega arith), leaf_at-eq k hk);
    }

    module _ (b b' : Bus io.State)
        (before : Shows io w b' (chained t va (cleared t (entry io w b)))) (c : Bus io.State)
        (after : IsWritten io w leaf_at leaf_value n b' c) where
      -- Outside the leaf table nothing has changed since the chain was written.
      kept_outside :
          (x : ℕ)
          → x % 8 ≡ 0
          → within t.spt_phys 4096 x ≡ false
          → entry io w c x ≡ chained t va (cleared t (entry io w b)) x
      kept_outside x hx out =
          after.kept x hx (λ j h e. ground (arith, leaf_at-eq j h, out)) ∙ before.content x hx

      table_entry :
          (p x : ℕ)
          → IsPage p
          → p ≢ t.spt_phys
          → p ≤ x
          → x < p + 2 ^ 12
          → x % 8 ≡ 0
          → entry io w c x ≡ chained t va (cleared t (entry io w b)) x
      table_entry p x hp ne h0 h1 hx =
          kept_outside x hx (not_within p x t.spt_phys hp ht.spt ne h0 h1)

      leaf_entries :
          (i : ℕ)
          → i < 512
          → entry io w c (t.spt_phys + i * 8) ≡ (
              if leb (va / 2 ^ 12 % 512) i && ltb i (va / 2 ^ 12 % 512 + n)
              then make_pte_vram (page_phys + (i - va / 2 ^ 12 % 512) * 2 ^ 12) false false
              else 0)
      leaf_entries i h =
          elim (Bool-cases (leb (va / 2 ^ 12 % 512) i && ltb i (va / 2 ^ 12 % 512 + n))) [
            | inl e ↦
                let k = i - va / 2 ^ 12 % 512 in
                let hk : k < n = ground arith in
                let here : t.spt_phys + i * 8 ≡ leaf_at k = ground (arith, leaf_at-eq k hk) in
                rw e (ap (entry io w c) here ∙ after.written k hk ∙ leaf_value-eq k hk)
            | inr e ↦ rw e (
                after.kept (t.spt_phys + i * 8) (omega (arith, ht.spt.aligned))
                  (λ j hj he. ground (arith, leaf_at-eq j hj, e))
                ∙ before.content (t.spt_phys + i * 8) (omega (arith, ht.spt.aligned))
                ∙ chained_spt t ht va (entry io w b) i h)
          ]

      written-IsMapped : IsMapped t va page_phys n (entry io w c)
      written-IsMapped = record {
        pd3 = λ i h.
            table_entry t.pd3_phys (t.pd3_phys + i * 8) ht.pd3 ht.pd3-spt (omega arith)
              (omega arith) (omega (arith, ht.pd3.aligned))
            ∙ chained_pd3 t ht va (entry io w b) i h;
        pd2 = λ i h.
            table_entry t.pd2_phys (t.pd2_phys + i * 8) ht.pd2 ht.pd2-spt (omega arith)
              (omega arith) (omega (arith, ht.pd2.aligned))
            ∙ chained_pd2 t ht va (entry io w b) i h;
        pd1 = λ i h.
            table_entry t.pd1_phys (t.pd1_phys + i * 8) ht.pd1 ht.pd1-spt (omega arith)
              (omega arith) (omega (arith, ht.pd1.aligned))
            ∙ chained_pd1 t ht va (entry io w b) i h;
        pd0 = λ i h.
            table_entry t.pd0_phys (t.pd0_phys + i * 16 + 8) ht.pd0 ht.pd0-spt (omega arith)
              (omega arith) (omega (arith, ht.pd0.aligned))
            ∙ chained_pd0 t ht va (entry io w b) i h;
        spt = leaf_entries;
      }

      -- VRAM outside the five pages.
      elsewhere :
          (x : ℕ)
          → x % 8 ≡ 0
          → within t.pd3_phys 4096 x ≡ false
          → within t.pd2_phys 4096 x ≡ false
          → within t.pd1_phys 4096 x ≡ false
          → within t.pd0_phys 4096 x ≡ false
          → within t.spt_phys 4096 x ≡ false
          → entry io w c x ≡ entry io w b x
      elsewhere x hx o3 o2 o1 o0 os =
          kept_outside x hx os ∙ chained_elsewhere t va (entry io w b) x o3 o2 o1 o0 os

    -- The mapping is made, and VRAM outside the five tables keeps its contents.
    pub record IsMapping (b : Bus io.State) (o : Option (Bus io.State)) : Type 0 where
      pub result : Bus io.State
      pub made : o ≡ some result
      pub tables : IsMapped t va page_phys n (entry io w result)
      pub others :
          (x : ℕ)
          → x % 8 ≡ 0
          → within t.pd3_phys 4096 x ≡ false
          → within t.pd2_phys 4096 x ≡ false
          → within t.pd1_phys 4096 x ≡ false
          → within t.pd0_phys 4096 x ≡ false
          → within t.spt_phys 4096 x ≡ false
          → entry io w result x ≡ entry io w b x

    pub map_range-IsMapping :
        (b : Bus io.State) → IsAimed io w b → IsMapping b (map_range io t va page_phys n b)
    unfolding map_range
    map_range-IsMapping b a =
        let b' = write_pde_chain io t va (zero_tables io t b) in
        let c = for_each (λ k. pramin_wr64 io (leaf_at k) (leaf_value k)) n 0 b' in
        let before = chain-Shows io w t va (cleared t (entry io w b)) (zero_tables io t b) ht (
          zero_tables-Shows io w t (entry io w b) b ht
            (record { aimed = a; content = λ x hx. refl })) in
        let after = write_run io w leaf_at leaf_value n b' leaves-IsRun before.aimed in
        record {
          result = c;
          made = ground (arith, pde_index_512 va 12, fits);
          tables = written-IsMapped b b' before c after;
          others = elsewhere b b' before c after;
        }
