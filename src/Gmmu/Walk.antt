-- ===== src/Gmmu/Walk.antt =====
-- The hardware's view of the tables of driver/gsp/gmmu.c, and the entries that mean something to it.
use rtxmac_oc.Base.{ℕ, ◌+◌, ◌*◌, ◌/◌, ◌%◌, ◌^◌, ◌≡◌, refl, arith}
use rtxmac_oc.Base.{◌==◌, if◌then◌else◌, Option, none, some, false}
use rtxmac_oc.Base.Bits.Mask.{bit_or-shifted, bit_and-low}
use rtxmac_oc.Gmmu.Entry.{pde_index, make_pte_vram, make_pde_vram}

-- A PDE names a table in VRAM when its aperture, bits 1 and 2, is 1; bit 0 stays clear.
unfoldable pub decode_pde : ℕ → Option ℕ
decode_pde e = if e % 8 == 2 then some (e / 2 ^ 8 * 2 ^ 12) else none

-- A PTE names a page in VRAM when it is valid, bit 0, and its aperture is 0.
unfoldable pub decode_pte : ℕ → Option ℕ
decode_pte e = if e % 8 == 1 then some (e / 2 ^ 8 * 2 ^ 12) else none

abbrev pub and_then {ℓ κ} : {A : Type ℓ} {B : Type κ} → Option A → (A → Option B) → Option B
and_then none f = none
and_then (some a) f = f a

-- The translation of an address: PD3, PD2, PD1, the second half of the PD0 entry, the small-page
-- table, over the 64-bit entries of VRAM.
unfoldable pub walk : (ℕ → ℕ) → ℕ → ℕ → Option ℕ
walk memory root va = and_then (decode_pde (memory (root + va / 2 ^ 47 % 4 * 8))) (λ pd2.
    and_then (decode_pde (memory (pd2 + va / 2 ^ 38 % 512 * 8))) (λ pd1.
      and_then (decode_pde (memory (pd1 + va / 2 ^ 29 % 512 * 8))) (λ pd0.
        and_then (decode_pde (memory (pd0 + va / 2 ^ 21 % 256 * 16 + 8))) (λ spt.
          and_then (decode_pte (memory (spt + va / 2 ^ 12 % 512 * 8)))
            (λ page. some (page + va % 2 ^ 12))))))

pub make_pde_vram-eq : (phys : ℕ) → phys % 2 ^ 12 ≡ 0 → make_pde_vram phys ≡ phys / 16 + 2
unfolding make_pde_vram
make_pde_vram-eq phys h =
    let split : phys / 2 ^ 4 ≡ phys / 2 ^ 12 * 2 ^ 8 = omega arith in
    rw split (omega (arith, bit_or-shifted 8 (phys / 2 ^ 12) 2 (omega arith)))

pub make_pte_vram-eq :
    (phys : ℕ) → phys % 2 ^ 12 ≡ 0 → make_pte_vram phys false false ≡ phys / 16 + 1
unfolding make_pte_vram
make_pte_vram-eq phys h =
    let split : phys / 2 ^ 4 ≡ phys / 2 ^ 12 * 2 ^ 8 = omega arith in
    rw split (omega (arith, bit_or-shifted 8 (phys / 2 ^ 12) 1 (omega arith)))

-- The hardware reads back the table or the page that an entry was made for, and nothing in zero.
pub decode_pde-make : (phys : ℕ) → phys % 2 ^ 12 ≡ 0 → decode_pde (make_pde_vram phys) ≡ some phys
unfolding decode_pde
decode_pde-make phys h = rw (make_pde_vram-eq phys h) (ground arith)

pub decode_pte-make :
    (phys : ℕ) → phys % 2 ^ 12 ≡ 0 → decode_pte (make_pte_vram phys false false) ≡ some phys
unfolding decode_pte
decode_pte-make phys h = rw (make_pte_vram-eq phys h) (ground arith)

pub pde_index_4 : (va shift : ℕ) → pde_index va shift 4 ≡ va / 2 ^ shift % 4
unfolding pde_index
pde_index_4 va shift = omega (arith, bit_and-low 2 (va / 2 ^ shift))

pub pde_index_512 : (va shift : ℕ) → pde_index va shift 512 ≡ va / 2 ^ shift % 512
unfolding pde_index
pde_index_512 va shift = omega (arith, bit_and-low 9 (va / 2 ^ shift))

pub pde_index_256 : (va shift : ℕ) → pde_index va shift 256 ≡ va / 2 ^ shift % 256
unfolding pde_index
pde_index_256 va shift = omega (arith, bit_and-low 8 (va / 2 ^ shift))

-- A cleared entry names nothing.
pub decode_pde-zero : decode_pde 0 ≡ none
unfolding decode_pde
decode_pde-zero = refl

pub decode_pte-zero : decode_pte 0 ≡ none
unfolding decode_pte
decode_pte-zero = refl
