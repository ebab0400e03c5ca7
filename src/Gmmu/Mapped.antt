-- ===== src/Gmmu/Mapped.antt =====
-- The contents of the tables after `nv_gmmu_map_range`, and the translation that they give.
use rtxmac_oc.Base.{ℕ, ◌+◌, ◌-◌, ◌*◌, ◌/◌, ◌%◌, ◌^◌, ◌≤◌, ◌<◌, ◌≡◌, ◌≢◌, ap, refl, arith}
use rtxmac_oc.Base.{ltb, leb, ◌&&◌, ◌==◌, ==_iff, if◌then◌else◌, true, false}
use rtxmac_oc.Base.{none, some, Bool-cases, inl, inr}
use rtxmac_oc.Gmmu.Entry.{make_pte_vram, make_pde_vram}
use rtxmac_oc.Gmmu.Branch.{Tables}
use rtxmac_oc.Gmmu.Walk.{walk, decode_pde-zero, decode_pte-zero, decode_pde-make, decode_pte-make}
use rtxmac_oc.Gmmu.Content.{IsTables}

-- What the five tables hold when `n` pages from `page_phys` on are mapped at `va`.
pub record IsMapped (t : Tables) (va page_phys n : ℕ) (memory : ℕ → ℕ) : Type 0 where
  pub pd3 :
      (i : ℕ)
      → i < 4
      → memory (t.pd3_phys + i * 8) ≡ (if va / 2 ^ 47 % 4 == i then make_pde_vram t.pd2_phys else 0)
  pub pd2 :
      (i : ℕ)
      → i < 512
      → memory (t.pd2_phys + i * 8)
        ≡ (if va / 2 ^ 38 % 512 == i then make_pde_vram t.pd1_phys else 0)
  pub pd1 :
      (i : ℕ)
      → i < 512
      → memory (t.pd1_phys + i * 8)
        ≡ (if va / 2 ^ 29 % 512 == i then make_pde_vram t.pd0_phys else 0)
  pub pd0 :
      (i : ℕ)
      → i < 256
      → memory (t.pd0_phys + i * 16 + 8)
        ≡ (if va / 2 ^ 21 % 256 == i then make_pde_vram t.spt_phys else 0)
  pub spt :
      (i : ℕ)
      → i < 512
      → memory (t.spt_phys + i * 8) ≡ (
          if leb (va / 2 ^ 12 % 512) i && ltb i (va / 2 ^ 12 % 512 + n)
          then make_pte_vram (page_phys + (i - va / 2 ^ 12 % 512) * 2 ^ 12) false false
          else 0)

-- A run of pages in one leaf table lies in one 2 MiB block.
outside_block :
    (va n address : ℕ)
    → va % 2 ^ 12 ≡ 0
    → va / 2 ^ 12 % 512 + n ≤ 512
    → va / 2 ^ 21 ≢ address / 2 ^ 21
    → (leb va address && ltb address (va + n * 2 ^ 12)) ≡ false
outside_block va n address q h ne =
    elim (Bool-cases (leb va address && ltb address (va + n * 2 ^ 12))) [
      | inl e ↦ elim (ne (ground (arith, q, h))) [ ]
      | inr e ↦ e
    ]

same_page :
    (va n address : ℕ)
    → va % 2 ^ 12 ≡ 0
    → va / 2 ^ 21 ≡ address / 2 ^ 21
    → (leb (va / 2 ^ 12 % 512) (address / 2 ^ 12 % 512)
        && ltb (address / 2 ^ 12 % 512) (va / 2 ^ 12 % 512 + n))
      ≡ (leb va address && ltb address (va + n * 2 ^ 12))
same_page va n address q e = ground arith

same_block :
    (va address : ℕ)
    → va < 2 ^ 49
    → address < 2 ^ 49
    → va / 2 ^ 47 % 4 ≡ address / 2 ^ 47 % 4
    → va / 2 ^ 38 % 512 ≡ address / 2 ^ 38 % 512
    → va / 2 ^ 29 % 512 ≡ address / 2 ^ 29 % 512
    → va / 2 ^ 21 % 256 ≡ address / 2 ^ 21 % 256
    → va / 2 ^ 21 ≡ address / 2 ^ 21
same_block va address hv ha e3 e2 e1 e0 =
    let up3 : va / 2 ^ 47 ≡ address / 2 ^ 47 = omega arith in
    let up2 : va / 2 ^ 38 ≡ address / 2 ^ 38 = omega (arith, up3) in
    let up1 : va / 2 ^ 29 ≡ address / 2 ^ 29 = omega (arith, up2) in omega (arith, up1)

leaf_byte :
    (va n address page_phys : ℕ)
    → va % 2 ^ 12 ≡ 0
    → va / 2 ^ 21 ≡ address / 2 ^ 21
    → (leb va address && ltb address (va + n * 2 ^ 12)) ≡ true
    → page_phys + (address / 2 ^ 12 % 512 - va / 2 ^ 12 % 512) * 2 ^ 12 + address % 2 ^ 12
      ≡ page_phys + (address - va)
leaf_byte va n address page_phys q e h = ground arith

-- The branch translates the mapped pages, each byte at its distance, and no other address.
pub walk-IsMapped :
    (t : Tables) (va page_phys n address : ℕ) (memory : ℕ → ℕ)
    → IsTables t
    → IsMapped t va page_phys n memory
    → va % 2 ^ 12 ≡ 0
    → va < 2 ^ 49
    → va / 2 ^ 12 % 512 + n ≤ 512
    → page_phys % 2 ^ 12 ≡ 0
    → address < 2 ^ 49
    → walk memory t.pd3_phys address ≡ (
        if leb va address && ltb address (va + n * 2 ^ 12)
        then some (page_phys + (address - va))
        else none)
unfolding walk
walk-IsMapped t va page_phys n address memory ht m qv hv hn qp ha =
    let outside = outside_block va n address qv hn in
    let pde2 = decode_pde-make t.pd2_phys ht.pd2.aligned in
    let pde1 = decode_pde-make t.pd1_phys ht.pd1.aligned in
    let pde0 = decode_pde-make t.pd0_phys ht.pd0.aligned in
    let pde = decode_pde-make t.spt_phys ht.spt.aligned in
    let pte =
      decode_pte-make (page_phys + (address / 2 ^ 12 % 512 - va / 2 ^ 12 % 512) * 2 ^ 12)
        (omega arith) in
    rw (m.pd3 (address / 2 ^ 47 % 4) (omega arith))
      (elim (Bool-cases (va / 2 ^ 47 % 4 == address / 2 ^ 47 % 4)) [
        | inr e3 ↦ rw (e3, decode_pde-zero, outside (λ s. ground arith)) refl
        | inl e3 ↦
            rw (e3, pde2, m.pd2 (address / 2 ^ 38 % 512) (omega arith))
              (elim (Bool-cases (va / 2 ^ 38 % 512 == address / 2 ^ 38 % 512)) [
                | inr e2 ↦ rw (e2, decode_pde-zero, outside (λ s. ground arith)) refl
                | inl e2 ↦
                    rw (e2, pde1, m.pd1 (address / 2 ^ 29 % 512) (omega arith))
                      (elim (Bool-cases (va / 2 ^ 29 % 512 == address / 2 ^ 29 % 512)) [
                        | inr e1 ↦ rw (e1, decode_pde-zero, outside (λ s. ground arith)) refl
                        | inl e1 ↦
                            rw (e1, pde0, m.pd0 (address / 2 ^ 21 % 256) (omega arith))
                              (elim (Bool-cases (va / 2 ^ 21 % 256 == address / 2 ^ 21 % 256)) [
                                | inr e0 ↦
                                    rw (e0, decode_pde-zero, outside (λ s. ground arith)) refl
                                | inl e0 ↦
                                    let block : va / 2 ^ 21 ≡ address / 2 ^ 21 =
                                      same_block va address hv ha ((==_iff _ _).0 e3)
                                        ((==_iff _ _).0 e2) ((==_iff _ _).0 e1)
                                        ((==_iff _ _).0 e0) in
                                    rw
                                      (
                                        e0,
                                        pde,
                                        m.spt (address / 2 ^ 12 % 512) (omega arith),
                                        same_page va n address qv block,
                                      )
                                      (elim (Bool-cases
                                        (leb va address && ltb address (va + n * 2 ^ 12))) [
                                          | inr e ↦ rw (e, decode_pte-zero) refl
                                          | inl e ↦
                                              rw (e, pte)
                                                (ap some
                                                  (leaf_byte va n address page_phys qv block e))
                                        ])
                              ])
                      ])
              ])
      ])
