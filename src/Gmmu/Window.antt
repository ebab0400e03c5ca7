-- ===== src/Gmmu/Window.antt =====
-- What the hardware promises of the PRAMIN window, as gmmu.h describes it, and what follows for
-- reads and writes of VRAM by physical address.
use rtxmac_oc.Base.{ℕ, ◌+◌, ◌-◌, ◌*◌, ◌/◌, ◌%◌, ◌^◌, ◌≤◌, ◌<◌, ◌≡◌, ◌∙◌, ap, sym, refl, arith}
use rtxmac_oc.Base.{◌⊎◌, inl, inr}
use rtxmac_oc.Base.{bit_and, ◌==◌, Bool-cases, if◌then◌else◌, u32, ◌>>>◌}
use rtxmac_oc.Base.{◌+64◌, ◌+32◌}
use rtxmac_oc.Base.Bits.Mask.{bit_and-low, bit_or-zero}
use rtxmac_oc.Base.Bits.Align.{bit_and-not64_low}
use rtxmac_oc.Mmio.{Mmio}
use rtxmac_oc.Gmmu.Pramin.{Bus, aim, pramin_rd32, pramin_wr32, pramin_wr64}

-- VRAM as 32-bit words at multiples of 4, and the physical address at which the window is aimed.
-- The window register takes the base in units of 64 KiB in its low 24 bits, target 0 above them.
pub record Window (io : Mmio) : Type 0 where
  pub vram : io.State → ℕ → ℕ
  pub aimed_at : io.State → ℕ
  pub aim_at : (v : ℕ) (s : io.State) → v < 2 ^ 24 → aimed_at (io.wr 0x1700 v s) ≡ v * 2 ^ 16
  pub aim_keeps : (v x : ℕ) (s : io.State) → vram (io.wr 0x1700 v s) x ≡ vram s x
  pub store :
      (off v x : ℕ) (s : io.State)
      → off < 2 ^ 20
      → off % 4 ≡ 0
      → v < 2 ^ 32
      → x % 4 ≡ 0
      → vram (io.wr (0x700000 + off) v s) x ≡ (if aimed_at s + off == x then v else vram s x)
  pub store_keeps :
      (off v : ℕ) (s : io.State) → off < 2 ^ 20 → aimed_at (io.wr (0x700000 + off) v s) ≡ aimed_at s
  pub load :
      (off : ℕ) (s : io.State)
      → off < 2 ^ 20
      → off % 4 ≡ 0
      → (io.rd (0x700000 + off) s).0 ≡ vram s (aimed_at s + off)
  pub load_keeps :
      (off x : ℕ) (s : io.State)
      → off < 2 ^ 20
      → (vram (io.rd (0x700000 + off) s).1 x ≡ vram s x)
        × (aimed_at (io.rd (0x700000 + off) s).1 ≡ aimed_at s)

module _ (io : Mmio) (w : Window io) where
  -- The cached base is the one in the register, or the initial `~0`, which is no base.
  abbrev pub IsAimed : Bus io.State → Type 0
  IsAimed b = (b.win_base ≡ 2 ^ 64 - 1) ⊎ (w.aimed_at b.dev ≡ b.win_base)

  -- The 32-bit word at a physical address.
  abbrev pub word : Bus io.State → ℕ → ℕ
  word b x = w.vram b.dev x

  record AimsAt (phys : ℕ) (b b' : Bus io.State) : Type 0 where
    cached : b'.win_base ≡ phys - phys % 2 ^ 20
    base : w.aimed_at b'.dev ≡ phys - phys % 2 ^ 20
    same : (x : ℕ) → word b' x ≡ word b x

  aim-AimsAt :
      (phys : ℕ) (b : Bus io.State) → phys < 2 ^ 40 → IsAimed b → AimsAt phys b (aim io phys b)
  unfolding aim
  aim-AimsAt phys b h a =
      let base = bit_and-not64_low 20 phys (omega arith) (omega arith) in
      let reg = bit_or-zero (u32 ((phys - phys % 2 ^ 20) >>> 16)) in
      elim (Bool-cases (b.win_base == phys - phys % 2 ^ 20)) [
        | inl e ↦
            rw (base, e)
              (record { cached = ground arith; base = ground (arith, a); same = λ x. refl })
        | inr e ↦
            rw (base, e, reg)
              (record {
                cached = refl;
                base =
                    omega
                      (arith, w.aim_at (u32 ((phys - phys % 2 ^ 20) >>> 16)) b.dev (omega arith));
                same = λ x. w.aim_keeps (u32 ((phys - phys % 2 ^ 20) >>> 16)) x b.dev;
              })
      ]

  offset_lem : (phys : ℕ) → 0x700000 +32 u32 (bit_and phys 0xfffff) ≡ 0x700000 + phys % 2 ^ 20
  offset_lem phys = omega (arith, bit_and-low 20 phys)

  -- A write of one word changes that word and no other.
  pub wr32_lem :
      (phys v x : ℕ) (b : Bus io.State)
      → phys < 2 ^ 40
      → phys % 4 ≡ 0
      → v < 2 ^ 32
      → x % 4 ≡ 0
      → IsAimed b
      → word (pramin_wr32 io phys v b) x ≡ (if phys == x then v else word b x)
  unfolding pramin_wr32
  wr32_lem phys v x b h q hv hx a =
      let m = aim-AimsAt phys b h a in
      rw (offset_lem phys) (
        ground (
          arith,
          w.store (phys % 2 ^ 20) v x (aim io phys b).dev (omega arith) (omega arith) hv hx,
          m.base,
          m.same x,
        ))

  pub wr32-IsAimed :
      (phys v : ℕ) (b : Bus io.State)
      → phys < 2 ^ 40
      → IsAimed b
      → IsAimed (pramin_wr32 io phys v b)
  unfolding pramin_wr32
  wr32-IsAimed phys v b h a =
      let m = aim-AimsAt phys b h a in
      rw (offset_lem phys) (
        inr (
          w.store_keeps (phys % 2 ^ 20) v (aim io phys b).dev (omega arith)
          ∙ (m.base ∙ sym m.cached)))

  -- The 64-bit entry at a physical address.
  abbrev pub entry : Bus io.State → ℕ → ℕ
  entry b x = word b x + word b (x + 4) * 2 ^ 32

  -- A read of a word returns it and leaves VRAM alone.
  pub rd32_lem :
      (phys : ℕ) (b : Bus io.State)
      → phys < 2 ^ 40
      → phys % 4 ≡ 0
      → IsAimed b
      → ((pramin_rd32 io phys b).0 ≡ word b phys)
        × IsAimed (pramin_rd32 io phys b).1
        × ((x : ℕ) → word (pramin_rd32 io phys b).1 x ≡ word b x)
  unfolding pramin_rd32
  rd32_lem phys b h q a =
      let m = aim-AimsAt phys b h a in
      let s = (aim io phys b).dev in
      let off = phys % 2 ^ 20 in
      let there : w.aimed_at s + off ≡ phys = omega (arith, m.base) in
      rw (offset_lem phys) (
        w.load off s (omega arith) (omega arith) ∙ ap (w.vram s) there ∙ m.same phys,
        inr ((w.load_keeps off 0 s (omega arith)).1 ∙ (m.base ∙ sym m.cached)),
        λ x. (w.load_keeps off x s (omega arith)).0 ∙ m.same x,
      )

  wr64_halves :
      (phys v : ℕ) (b : Bus io.State)
      → phys < 2 ^ 40
      → v < 2 ^ 64
      → pramin_wr64 io phys v b
        ≡ pramin_wr32 io (phys + 4) (v / 2 ^ 32) (pramin_wr32 io phys (v % 2 ^ 32) b)
  unfolding pramin_wr64
  wr64_halves phys v b h hv =
      let next : phys +64 4 ≡ phys + 4 = omega arith in
      let low : u32 (bit_and v 0xffffffff) ≡ v % 2 ^ 32 = omega (arith, bit_and-low 32 v) in
      let high : u32 (v >>> 32) ≡ v / 2 ^ 32 = omega arith in rw (next, low, high)

  -- A write of an entry changes its two words and no other.
  pub wr64_lem :
      (phys v x : ℕ) (b : Bus io.State)
      → phys + 8 ≤ 2 ^ 40
      → phys % 8 ≡ 0
      → v < 2 ^ 64
      → x % 4 ≡ 0
      → IsAimed b
      → word (pramin_wr64 io phys v b) x
        ≡ (if phys == x then v % 2 ^ 32 else if phys + 4 == x then v / 2 ^ 32 else word b x)
  wr64_lem phys v x b h q hv hx a = rw (wr64_halves phys v b (omega arith) hv) (
      ground (
        arith,
        wr32_lem (phys + 4) (v / 2 ^ 32) x (pramin_wr32 io phys (v % 2 ^ 32) b),
        wr32_lem phys (v % 2 ^ 32) x b,
        wr32-IsAimed phys (v % 2 ^ 32) b (omega arith) a,
      ))

  pub wr64-IsAimed :
      (phys v : ℕ) (b : Bus io.State)
      → phys + 8 ≤ 2 ^ 40
      → v < 2 ^ 64
      → IsAimed b
      → IsAimed (pramin_wr64 io phys v b)
  wr64-IsAimed phys v b h hv a = rw (wr64_halves phys v b (omega arith) hv) (
      wr32-IsAimed (phys + 4) (v / 2 ^ 32) _ (omega arith)
        (wr32-IsAimed phys (v % 2 ^ 32) b (omega arith) a))

  -- An entry that has been written reads back, and entries elsewhere keep their value.
  pub entry-wr64 :
      (phys v x : ℕ) (b : Bus io.State)
      → phys + 8 ≤ 2 ^ 40
      → phys % 8 ≡ 0
      → v < 2 ^ 64
      → x % 8 ≡ 0
      → IsAimed b
      → entry (pramin_wr64 io phys v b) x ≡ (if phys == x then v else entry b x)
  entry-wr64 phys v x b h q hv hx a = ground (
    arith,
    wr64_lem phys v x b h q hv (omega arith) a,
    wr64_lem phys v (x + 4) b h q hv (omega arith) a,
  )
