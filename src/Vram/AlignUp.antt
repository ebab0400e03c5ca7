-- ===== src/Vram/AlignUp.antt =====
-- `align_up` of vram.c: rounding up to a power of two, and when it overflows.
use rtxmac_oc.Base.{ℕ, ◌+◌, ◌-◌, ◌%◌, ◌^◌, ◌≤◌, ◌<◌, bit_and, ◌≡◌, true, some, none, arith}
use rtxmac_oc.Base.{ltb, not64, ◌-64◌, if◌then◌else◌}
use mathlib.Core.Path.{subst}
use rtxmac_oc.Base.Bits.Mask.{power_of_two}
use rtxmac_oc.Base.Bits.Align.{bit_and-not64_low, IsAligned, RoundsUp, RoundsUp-sub_mod}
use rtxmac_oc.Base.Bits.Align.{aligned_gap, pow-IsAligned}
use native.Mathlib.Nat.{pow-le-pow_right}
use native.Mathlib.Decide.{dec_lt}
use rtxmac_oc.Vram.Defs.{alignment_valid, align_up}

-- An alignment that the operations accept: a power of two, a page at least.
pub record IsAlignment (a : ℕ) : Type 0 where
  pub exponent : ℕ
  pub power : a ≡ 2 ^ exponent
  pub page : 4096 ≤ a
  pub word : a < 2 ^ 64
  pub narrow : exponent ≤ 64

exponent_below : (k : ℕ) → 2 ^ k < 2 ^ 64 → k ≤ 64
exponent_below k h = elim (dec_lt 64 k) [
  | yes big ↦
      absurd (omega (arith, pow-le-pow_right {n = 2} (omega arith) {i = 64} {j = k} (omega arith)))
  | no small ↦ omega arith
]

alignment_tests :
    (a : ℕ) → a < 2 ^ 64 → alignment_valid a ≡ true → (4096 ≤ a) × (bit_and a (a - 1) ≡ 0)
unfolding alignment_valid
alignment_tests a w h =
    let page : 4096 ≤ a = ground arith in
    let pred : (a + 2 ^ 64 - 1) % 2 ^ 64 ≡ a - 1 = omega arith in (page, ground (arith, pred))

pub alignment_valid-IsAlignment : (a : ℕ) → a < 2 ^ 64 → alignment_valid a ≡ true → IsAlignment a
alignment_valid-IsAlignment a w h =
    let (page, zero_and) = alignment_tests a w h in
    let pow : (k : ℕ) × (a ≡ 2 ^ k) = power_of_two a (omega arith) zero_and in
    record {
      exponent = pow.0;
      power = pow.1;
      page = page;
      word = w;
      narrow = exponent_below pow.0 (omega (arith, pow.1));
    }

-- The value in the branch that does not overflow.
align_up_value :
    (v a : ℕ)
    → IsAlignment a
    → v + a ≤ 2 ^ 64
    → bit_and ((v + a) % 2 ^ 64 -64 1) (not64 (a -64 1)) ≡ v + a - 1 - (v + a - 1) % a
align_up_value v a al h =
    rw (sum, mask, bit_and-not64_low al.exponent (v + a - 1) al.narrow (omega arith), ← al.power)
  where
    sum : (v + a) % 2 ^ 64 -64 1 ≡ v + a - 1
    sum = omega (arith, al.page)

    mask : not64 (a -64 1) ≡ 2 ^ 64 - 1 - (2 ^ al.exponent - 1)
    mask = omega (arith, al.page, al.word, al.power)

pub align_up_lem :
    (v a : ℕ)
    → IsAlignment a
    → v < 2 ^ 64
    → align_up v a ≡ (if ltb (2 ^ 64) (v + a) then none else some (v + a - 1 - (v + a - 1) % a))
unfolding align_up
align_up_lem v a al w = elim (dec_lt (2 ^ 64) (v + a)) [
  | yes over ↦ ground arith
  | no fits ↦ ground (arith, align_up_value v a al (omega arith))
]

-- 2^64 is itself a multiple of every alignment.
word-IsAligned : (a : ℕ) → IsAlignment a → IsAligned a (2 ^ 64)
word-IsAligned a al = rw al.power (pow-IsAligned al.exponent 64 al.narrow)

-- Where `align_up` gives a value it is the least multiple that is not below.
pub align_up-RoundsUp :
    (v a : ℕ) {c : ℕ}
    → IsAlignment a
    → v < 2 ^ 64
    → align_up v a ≡ some c
    → RoundsUp a v c × (c < 2 ^ 64)
align_up-RoundsUp v a {c} al w h = elim (dec_lt (2 ^ 64) (v + a)) [
  | yes over ↦ absurd (ground (arith, align_up_lem v a al w))
  | no fits ↦
      let e : v + a - 1 - (v + a - 1) % a ≡ c = ground (arith, align_up_lem v a al w) in
      (
        subst (RoundsUp a v) e (RoundsUp-sub_mod a v (omega (arith, al.page))),
        omega (arith, e, al.page),
      )
]

-- Where it overflows no word from `v` on is a multiple.
pub align_up-none :
    (v a y : ℕ)
    → IsAlignment a
    → v < 2 ^ 64
    → align_up v a ≡ none
    → IsAligned a y
    → v ≤ y
    → 2 ^ 64 ≤ y
align_up-none v a y al w h q le = elim (dec_lt (2 ^ 64) (v + a)) [
  | yes over ↦ elim (dec_lt y (2 ^ 64)) [
    | yes below ↦ absurd (
        omega (
          arith,
          al.page,
          aligned_gap a y (2 ^ 64) (omega (arith, al.page)) q (word-IsAligned a al) below,
        ))
    | no above ↦ omega arith
  ]
  | no fits ↦ absurd (ground (arith, align_up_lem v a al w))
]
