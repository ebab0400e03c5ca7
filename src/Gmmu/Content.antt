-- ===== src/Gmmu/Content.antt =====
-- What the five tables of one branch hold once gmmu.c has cleared and written them.
use rtxmac_oc.Base.{ℕ, ◌+◌, ◌*◌, ◌/◌, ◌%◌, ◌^◌, ◌≤◌, ◌<◌, ◌≡◌, ◌≢◌, ◌∙◌, ap, refl, arith}
use rtxmac_oc.Base.{ltb, leb, ◌&&◌, ◌==◌, if◌then◌else◌, ◌+64◌, Bool}
use rtxmac_oc.Mmio.{Mmio}
use rtxmac_oc.Gmmu.Pramin.{Bus, pramin_wr64}
use rtxmac_oc.Gmmu.Entry.{pde_index, make_pde_vram}
use rtxmac_oc.Gmmu.Branch.{Tables, zero_table, zero_tables, write_pde_chain}
use rtxmac_oc.Gmmu.Window.{Window, IsAimed, entry, wr64-IsAimed, entry-wr64}
use rtxmac_oc.Gmmu.Writes.{entry-zero_table, zero_table-IsAimed}
use rtxmac_oc.Gmmu.Walk.{make_pde_vram-eq, pde_index_4, pde_index_256, pde_index_512}

-- A page for a table, in the VRAM that the window reaches.
pub record IsPage (phys : ℕ) : Type 0 where
  pub aligned : phys % 2 ^ 12 ≡ 0
  pub inside : phys + 2 ^ 12 ≤ 2 ^ 40

-- Five different pages.
pub record IsTables (t : Tables) : Type 0 where
  pub pd3 : IsPage t.pd3_phys
  pub pd2 : IsPage t.pd2_phys
  pub pd1 : IsPage t.pd1_phys
  pub pd0 : IsPage t.pd0_phys
  pub spt : IsPage t.spt_phys
  pub pd3-pd2 : t.pd3_phys ≢ t.pd2_phys
  pub pd3-pd1 : t.pd3_phys ≢ t.pd1_phys
  pub pd3-pd0 : t.pd3_phys ≢ t.pd0_phys
  pub pd3-spt : t.pd3_phys ≢ t.spt_phys
  pub pd2-pd1 : t.pd2_phys ≢ t.pd1_phys
  pub pd2-pd0 : t.pd2_phys ≢ t.pd0_phys
  pub pd2-spt : t.pd2_phys ≢ t.spt_phys
  pub pd1-pd0 : t.pd1_phys ≢ t.pd0_phys
  pub pd1-spt : t.pd1_phys ≢ t.spt_phys
  pub pd0-spt : t.pd0_phys ≢ t.spt_phys

abbrev pub within : ℕ → ℕ → ℕ → Bool
within table len x = leb table x && ltb x (table + len)

-- The entries after the clearing of the tables, and after the chain of PDEs for `va`.
unfoldable pub cleared : Tables → (ℕ → ℕ) → ℕ → ℕ
cleared t f x =
    if within t.spt_phys 4096 x
    then 0
    else if within t.pd0_phys 4096 x
    then 0
    else if within t.pd1_phys 4096 x
    then 0
    else if within t.pd2_phys 4096 x
    then 0
    else if within t.pd3_phys 32 x
    then 0
    else f x

unfoldable pub chained : Tables → ℕ → (ℕ → ℕ) → ℕ → ℕ
chained t va f x =
    if t.pd0_phys + va / 2 ^ 21 % 256 * 16 + 8 == x
    then make_pde_vram t.spt_phys
    else if t.pd0_phys + va / 2 ^ 21 % 256 * 16 == x
    then 0
    else if t.pd1_phys + va / 2 ^ 29 % 512 * 8 == x
    then make_pde_vram t.pd0_phys
    else if t.pd2_phys + va / 2 ^ 38 % 512 * 8 == x
    then make_pde_vram t.pd1_phys
    else if t.pd3_phys + va / 2 ^ 47 % 4 * 8 == x
    then make_pde_vram t.pd2_phys
    else f x

module _ (io : Mmio) (w : Window io) where
  -- The entries of VRAM, all of them.
  pub record Shows (b : Bus io.State) (f : ℕ → ℕ) : Type 0 where
    pub aimed : IsAimed io w b
    pub content : (x : ℕ) → x % 8 ≡ 0 → entry io w b x ≡ f x

  pub zero-Shows :
      (phys len : ℕ) (f : ℕ → ℕ) (b : Bus io.State)
      → IsPage phys
      → len ≤ 4096
      → len % 8 ≡ 0
      → Shows b f
      → Shows (zero_table io phys len b) (λ x. if within phys len x then 0 else f x)
  zero-Shows phys len f b p h hl s = record {
    aimed =
        zero_table-IsAimed io w phys len b (omega (arith, p.inside)) (omega (arith, p.aligned)) hl
          s.aimed;
    content = λ x hx.
        entry-zero_table io w phys len x b (omega (arith, p.inside)) (omega (arith, p.aligned)) hl
          hx s.aimed
        ∙ ap (λ v. if within phys len x then 0 else v) (s.content x hx);
  }

  pub put-Shows :
      (phys v : ℕ) (f : ℕ → ℕ) (b : Bus io.State)
      → phys % 8 ≡ 0
      → phys + 8 ≤ 2 ^ 40
      → v < 2 ^ 64
      → Shows b f
      → Shows (pramin_wr64 io phys v b) (λ x. if phys == x then v else f x)
  put-Shows phys v f b q h hv s = record {
    aimed = wr64-IsAimed io w phys v b h hv s.aimed;
    content = λ x hx.
        entry-wr64 io w phys v x b h q hv hx s.aimed
        ∙ ap (λ old. if phys == x then v else old) (s.content x hx);
  }

  pub zero_tables-Shows :
      (t : Tables) (f : ℕ → ℕ) (b : Bus io.State)
      → IsTables t
      → Shows b f
      → Shows (zero_tables io t b) (cleared t f)
  unfolding zero_tables cleared
  zero_tables-Shows t f b ht s = zero-Shows t.spt_phys 4096 _ _ ht.spt (omega arith) refl (
      zero-Shows t.pd0_phys 4096 _ _ ht.pd0 (omega arith) refl (
        zero-Shows t.pd1_phys 4096 _ _ ht.pd1 (omega arith) refl (
          zero-Shows t.pd2_phys 4096 _ _ ht.pd2 (omega arith) refl
            (zero-Shows t.pd3_phys 32 f b ht.pd3 (omega arith) refl s))))

  pde_small : (phys : ℕ) → IsPage phys → make_pde_vram phys < 2 ^ 64
  pde_small phys p = omega (arith, make_pde_vram-eq phys p.aligned, p.inside)

  pub chain-Shows :
      (t : Tables) (va : ℕ) (f : ℕ → ℕ) (b : Bus io.State)
      → IsTables t
      → Shows b f
      → Shows (write_pde_chain io t va b) (chained t va f)
  unfolding write_pde_chain chained
  chain-Shows t va f b ht s =
      let i3 = pde_index_4 va 47 in
      let i2 = pde_index_512 va 38 in
      let i1 = pde_index_512 va 29 in
      let i0 = pde_index_256 va 21 in
      let e3 : t.pd3_phys +64 pde_index va 47 4 * 8 ≡ t.pd3_phys + va / 2 ^ 47 % 4 * 8 =
        omega (arith, i3, ht.pd3.inside) in
      let e2 : t.pd2_phys +64 pde_index va 38 512 * 8 ≡ t.pd2_phys + va / 2 ^ 38 % 512 * 8 =
        omega (arith, i2, ht.pd2.inside) in
      let e1 : t.pd1_phys +64 pde_index va 29 512 * 8 ≡ t.pd1_phys + va / 2 ^ 29 % 512 * 8 =
        omega (arith, i1, ht.pd1.inside) in
      let e0 : t.pd0_phys +64 pde_index va 21 256 * 16 ≡ t.pd0_phys + va / 2 ^ 21 % 256 * 16 =
        omega (arith, i0, ht.pd0.inside) in
      let e0' : t.pd0_phys + va / 2 ^ 21 % 256 * 16 +64 8
          ≡ t.pd0_phys + va / 2 ^ 21 % 256 * 16 + 8 =
        omega (arith, ht.pd0.inside) in
      rw (e3, e2, e1, e0, e0')
        (put-Shows (t.pd0_phys + va / 2 ^ 21 % 256 * 16 + 8) (make_pde_vram t.spt_phys) _ _
          (omega (arith, ht.pd0.aligned)) (omega (arith, ht.pd0.inside)) (pde_small _ ht.spt)
          (put-Shows (t.pd0_phys + va / 2 ^ 21 % 256 * 16) 0 _ _ (omega (arith, ht.pd0.aligned))
            (omega (arith, ht.pd0.inside)) (omega arith)
            (put-Shows (t.pd1_phys + va / 2 ^ 29 % 512 * 8) (make_pde_vram t.pd0_phys) _ _
              (omega (arith, ht.pd1.aligned)) (omega (arith, ht.pd1.inside)) (pde_small _ ht.pd0)
              (put-Shows (t.pd2_phys + va / 2 ^ 38 % 512 * 8) (make_pde_vram t.pd1_phys) _ _
                (omega (arith, ht.pd2.aligned)) (omega (arith, ht.pd2.inside)) (pde_small _ ht.pd1)
                (put-Shows (t.pd3_phys + va / 2 ^ 47 % 4 * 8) (make_pde_vram t.pd2_phys) f b
                  (omega (arith, ht.pd3.aligned)) (omega (arith, ht.pd3.inside))
                  (pde_small _ ht.pd2) s)))))
