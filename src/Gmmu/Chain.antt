-- ===== src/Gmmu/Chain.antt =====
-- What the chain of PDEs of driver/gsp/gmmu.c leaves in each of the five tables.
use rtxmac_oc.Base.{ℕ, ◌+◌, ◌*◌, ◌/◌, ◌%◌, ◌^◌, ◌≤◌, ◌<◌, ◌≡◌, ◌≢◌, sym, refl, arith}
use rtxmac_oc.Base.{◌==◌, if◌then◌else◌, true, false}
use rtxmac_oc.Gmmu.Entry.{make_pde_vram}
use rtxmac_oc.Gmmu.Branch.{Tables}
use rtxmac_oc.Gmmu.Content.{IsPage, IsTables, within, cleared, chained}

-- Places in different pages differ, and a place is in its own page.
apart :
    (p x q y : ℕ)
    → IsPage p
    → IsPage q
    → p ≢ q
    → p ≤ x
    → x < p + 2 ^ 12
    → q ≤ y
    → y < q + 2 ^ 12
    → (y == x) ≡ false
apart p x q y hp hq ne h0 h1 h2 h3 = ground (arith, hp.aligned, hq.aligned)

pub not_within :
    (p x q : ℕ) → IsPage p → IsPage q → p ≢ q → p ≤ x → x < p + 2 ^ 12 → within q 4096 x ≡ false
not_within p x q hp hq ne h0 h1 = ground (arith, hp.aligned, hq.aligned)

not_within32 :
    (p x q : ℕ) → IsPage p → IsPage q → p ≢ q → p ≤ x → x < p + 2 ^ 12 → within q 32 x ≡ false
not_within32 p x q hp hq ne h0 h1 = ground (arith, hp.aligned, hq.aligned)

is_within : (p len x : ℕ) → p ≤ x → x < p + len → within p len x ≡ true
is_within p len x h0 h1 = ground arith

same_slot : (p i j : ℕ) → ((p + i * 8) == (p + j * 8)) ≡ (i == j)
same_slot p i j = ground arith

same_pair : (p i j : ℕ) → ((p + i * 16 + 8) == (p + j * 16 + 8)) ≡ (i == j)
same_pair p i j = ground arith

odd_slot : (p i j : ℕ) → ((p + i * 16) == (p + j * 16 + 8)) ≡ false
odd_slot p i j = ground arith

off_table : (p y x : ℕ) → p ≤ y → y < p + 4096 → within p 4096 x ≡ false → (y == x) ≡ false
off_table p y x h0 h1 o = ground arith

off_head : (p x : ℕ) → within p 4096 x ≡ false → within p 32 x ≡ false
off_head p x o = ground arith

module _ (t : Tables) (ht : IsTables t) (va : ℕ) (f : ℕ → ℕ) where
  -- Which table a place is in decides what the chain and the clearing leave there.
  pub chained_pd3 :
      (i : ℕ)
      → i < 4
      → chained t va (cleared t f) (t.pd3_phys + i * 8)
        ≡ (if va / 2 ^ 47 % 4 == i then make_pde_vram t.pd2_phys else 0)
  unfolding chained cleared
  chained_pd3 i h =
      let x = t.pd3_phys + i * 8 in
      rw
        (
          apart t.pd3_phys x t.pd0_phys (t.pd0_phys + va / 2 ^ 21 % 256 * 16 + 8) ht.pd3 ht.pd0
              ht.pd3-pd0 (omega arith) (omega arith) (omega arith) (omega arith),
          apart t.pd3_phys x t.pd0_phys (t.pd0_phys + va / 2 ^ 21 % 256 * 16) ht.pd3 ht.pd0
              ht.pd3-pd0 (omega arith) (omega arith) (omega arith) (omega arith),
          apart t.pd3_phys x t.pd1_phys (t.pd1_phys + va / 2 ^ 29 % 512 * 8) ht.pd3 ht.pd1
              ht.pd3-pd1 (omega arith) (omega arith) (omega arith) (omega arith),
          apart t.pd3_phys x t.pd2_phys (t.pd2_phys + va / 2 ^ 38 % 512 * 8) ht.pd3 ht.pd2
              ht.pd3-pd2 (omega arith) (omega arith) (omega arith) (omega arith),
          same_slot t.pd3_phys (va / 2 ^ 47 % 4) i,
          not_within t.pd3_phys x t.spt_phys ht.pd3 ht.spt ht.pd3-spt (omega arith) (omega arith),
          not_within t.pd3_phys x t.pd0_phys ht.pd3 ht.pd0 ht.pd3-pd0 (omega arith) (omega arith),
          not_within t.pd3_phys x t.pd1_phys ht.pd3 ht.pd1 ht.pd3-pd1 (omega arith) (omega arith),
          not_within t.pd3_phys x t.pd2_phys ht.pd3 ht.pd2 ht.pd3-pd2 (omega arith) (omega arith),
          is_within t.pd3_phys 32 x (omega arith) (omega arith),
        )
        refl

  pub chained_pd2 :
      (i : ℕ)
      → i < 512
      → chained t va (cleared t f) (t.pd2_phys + i * 8)
        ≡ (if va / 2 ^ 38 % 512 == i then make_pde_vram t.pd1_phys else 0)
  unfolding chained cleared
  chained_pd2 i h =
      let x = t.pd2_phys + i * 8 in
      rw
        (
          apart t.pd2_phys x t.pd0_phys (t.pd0_phys + va / 2 ^ 21 % 256 * 16 + 8) ht.pd2 ht.pd0
              ht.pd2-pd0 (omega arith) (omega arith) (omega arith) (omega arith),
          apart t.pd2_phys x t.pd0_phys (t.pd0_phys + va / 2 ^ 21 % 256 * 16) ht.pd2 ht.pd0
              ht.pd2-pd0 (omega arith) (omega arith) (omega arith) (omega arith),
          apart t.pd2_phys x t.pd1_phys (t.pd1_phys + va / 2 ^ 29 % 512 * 8) ht.pd2 ht.pd1
              ht.pd2-pd1 (omega arith) (omega arith) (omega arith) (omega arith),
          apart t.pd2_phys x t.pd3_phys (t.pd3_phys + va / 2 ^ 47 % 4 * 8) ht.pd2 ht.pd3
              (λ e. ht.pd3-pd2 (sym e)) (omega arith) (omega arith) (omega arith) (omega arith),
          same_slot t.pd2_phys (va / 2 ^ 38 % 512) i,
          not_within t.pd2_phys x t.spt_phys ht.pd2 ht.spt ht.pd2-spt (omega arith) (omega arith),
          not_within t.pd2_phys x t.pd0_phys ht.pd2 ht.pd0 ht.pd2-pd0 (omega arith) (omega arith),
          not_within t.pd2_phys x t.pd1_phys ht.pd2 ht.pd1 ht.pd2-pd1 (omega arith) (omega arith),
          not_within32 t.pd2_phys x t.pd3_phys ht.pd2 ht.pd3 (λ e. ht.pd3-pd2 (sym e)) (omega arith)
              (omega arith),
          is_within t.pd2_phys 4096 x (omega arith) (omega arith),
        )
        refl

  pub chained_pd1 :
      (i : ℕ)
      → i < 512
      → chained t va (cleared t f) (t.pd1_phys + i * 8)
        ≡ (if va / 2 ^ 29 % 512 == i then make_pde_vram t.pd0_phys else 0)
  unfolding chained cleared
  chained_pd1 i h =
      let x = t.pd1_phys + i * 8 in
      rw
        (
          apart t.pd1_phys x t.pd0_phys (t.pd0_phys + va / 2 ^ 21 % 256 * 16 + 8) ht.pd1 ht.pd0
              ht.pd1-pd0 (omega arith) (omega arith) (omega arith) (omega arith),
          apart t.pd1_phys x t.pd0_phys (t.pd0_phys + va / 2 ^ 21 % 256 * 16) ht.pd1 ht.pd0
              ht.pd1-pd0 (omega arith) (omega arith) (omega arith) (omega arith),
          apart t.pd1_phys x t.pd2_phys (t.pd2_phys + va / 2 ^ 38 % 512 * 8) ht.pd1 ht.pd2
              (λ e. ht.pd2-pd1 (sym e)) (omega arith) (omega arith) (omega arith) (omega arith),
          apart t.pd1_phys x t.pd3_phys (t.pd3_phys + va / 2 ^ 47 % 4 * 8) ht.pd1 ht.pd3
              (λ e. ht.pd3-pd1 (sym e)) (omega arith) (omega arith) (omega arith) (omega arith),
          same_slot t.pd1_phys (va / 2 ^ 29 % 512) i,
          not_within t.pd1_phys x t.spt_phys ht.pd1 ht.spt ht.pd1-spt (omega arith) (omega arith),
          not_within t.pd1_phys x t.pd0_phys ht.pd1 ht.pd0 ht.pd1-pd0 (omega arith) (omega arith),
          not_within t.pd1_phys x t.pd2_phys ht.pd1 ht.pd2 (λ e. ht.pd2-pd1 (sym e)) (omega arith)
              (omega arith),
          not_within32 t.pd1_phys x t.pd3_phys ht.pd1 ht.pd3 (λ e. ht.pd3-pd1 (sym e)) (omega arith)
              (omega arith),
          is_within t.pd1_phys 4096 x (omega arith) (omega arith),
        )
        refl

  pub chained_pd0 :
      (i : ℕ)
      → i < 256
      → chained t va (cleared t f) (t.pd0_phys + i * 16 + 8)
        ≡ (if va / 2 ^ 21 % 256 == i then make_pde_vram t.spt_phys else 0)
  unfolding chained cleared
  chained_pd0 i h =
      let x = t.pd0_phys + i * 16 + 8 in
      rw
        (
          apart t.pd0_phys x t.pd1_phys (t.pd1_phys + va / 2 ^ 29 % 512 * 8) ht.pd0 ht.pd1
              (λ e. ht.pd1-pd0 (sym e)) (omega arith) (omega arith) (omega arith) (omega arith),
          apart t.pd0_phys x t.pd2_phys (t.pd2_phys + va / 2 ^ 38 % 512 * 8) ht.pd0 ht.pd2
              (λ e. ht.pd2-pd0 (sym e)) (omega arith) (omega arith) (omega arith) (omega arith),
          apart t.pd0_phys x t.pd3_phys (t.pd3_phys + va / 2 ^ 47 % 4 * 8) ht.pd0 ht.pd3
              (λ e. ht.pd3-pd0 (sym e)) (omega arith) (omega arith) (omega arith) (omega arith),
          same_pair t.pd0_phys (va / 2 ^ 21 % 256) i,
          odd_slot t.pd0_phys (va / 2 ^ 21 % 256) i,
          not_within t.pd0_phys x t.spt_phys ht.pd0 ht.spt ht.pd0-spt (omega arith) (omega arith),
          not_within t.pd0_phys x t.pd1_phys ht.pd0 ht.pd1 (λ e. ht.pd1-pd0 (sym e)) (omega arith)
              (omega arith),
          not_within t.pd0_phys x t.pd2_phys ht.pd0 ht.pd2 (λ e. ht.pd2-pd0 (sym e)) (omega arith)
              (omega arith),
          not_within32 t.pd0_phys x t.pd3_phys ht.pd0 ht.pd3 (λ e. ht.pd3-pd0 (sym e)) (omega arith)
              (omega arith),
          is_within t.pd0_phys 4096 x (omega arith) (omega arith),
        )
        refl

  pub chained_spt : (i : ℕ) → i < 512 → chained t va (cleared t f) (t.spt_phys + i * 8) ≡ 0
  unfolding chained cleared
  chained_spt i h =
      let x = t.spt_phys + i * 8 in
      rw
        (
          apart t.spt_phys x t.pd0_phys (t.pd0_phys + va / 2 ^ 21 % 256 * 16 + 8) ht.spt ht.pd0
              (λ e. ht.pd0-spt (sym e)) (omega arith) (omega arith) (omega arith) (omega arith),
          apart t.spt_phys x t.pd0_phys (t.pd0_phys + va / 2 ^ 21 % 256 * 16) ht.spt ht.pd0
              (λ e. ht.pd0-spt (sym e)) (omega arith) (omega arith) (omega arith) (omega arith),
          apart t.spt_phys x t.pd1_phys (t.pd1_phys + va / 2 ^ 29 % 512 * 8) ht.spt ht.pd1
              (λ e. ht.pd1-spt (sym e)) (omega arith) (omega arith) (omega arith) (omega arith),
          apart t.spt_phys x t.pd2_phys (t.pd2_phys + va / 2 ^ 38 % 512 * 8) ht.spt ht.pd2
              (λ e. ht.pd2-spt (sym e)) (omega arith) (omega arith) (omega arith) (omega arith),
          apart t.spt_phys x t.pd3_phys (t.pd3_phys + va / 2 ^ 47 % 4 * 8) ht.spt ht.pd3
              (λ e. ht.pd3-spt (sym e)) (omega arith) (omega arith) (omega arith) (omega arith),
          is_within t.spt_phys 4096 x (omega arith) (omega arith),
        )
        refl

module _ (t : Tables) (va : ℕ) (f : ℕ → ℕ) where
  pub chained_elsewhere :
      (x : ℕ)
      → within t.pd3_phys 4096 x ≡ false
      → within t.pd2_phys 4096 x ≡ false
      → within t.pd1_phys 4096 x ≡ false
      → within t.pd0_phys 4096 x ≡ false
      → within t.spt_phys 4096 x ≡ false
      → chained t va (cleared t f) x ≡ f x
  unfolding chained cleared
  chained_elsewhere x o3 o2 o1 o0 os =
      rw
        (
          off_table t.pd0_phys (t.pd0_phys + va / 2 ^ 21 % 256 * 16 + 8) x (omega arith)
              (omega arith) o0,
          off_table t.pd0_phys (t.pd0_phys + va / 2 ^ 21 % 256 * 16) x (omega arith) (omega arith)
              o0,
          off_table t.pd1_phys (t.pd1_phys + va / 2 ^ 29 % 512 * 8) x (omega arith) (omega arith)
              o1,
          off_table t.pd2_phys (t.pd2_phys + va / 2 ^ 38 % 512 * 8) x (omega arith) (omega arith)
              o2,
          off_table t.pd3_phys (t.pd3_phys + va / 2 ^ 47 % 4 * 8) x (omega arith) (omega arith) o3,
          os,
          o0,
          o1,
          o2,
          off_head t.pd3_phys x o3,
        )
        refl
