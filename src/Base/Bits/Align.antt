-- ===== src/Base/Bits/Align.antt =====
-- `x & ~(2^k - 1)` rounds a word down to a multiple of `2^k`, and `(x + a - 1) & ~(a - 1)` up.
use Prim.Native.Nat.{ℕ, zero, suc, ◌+◌, ◌-◌, ◌*◌, ◌/◌, ◌%◌, ◌^◌, ◌≤◌, ◌<◌, bit_and}
use mathlib.Core.Path.{◌≡◌}
use native.Mathlib.Nat.{pow-suc, one-le-pow, mod-le, mod-lt}
use native.Mathlib.Nat.{div-add-mod', mul-mod_left, mod-eq_of_lt, div-lt_iff_lt-mul}
use native.Mathlib.Decide.{dec_lt}
use native.Mathlib.Omega.{arith}
use rtxmac_oc.Base.Bits.Digits.{bit_and_step}
use rtxmac_oc.Base.Bits.Mask.{bit_and-low, mod-two_pow_suc}

-- The mask of the bits from `k` up to `w`, at every width.
pub bit_and-high : (k w x : ℕ) → k ≤ w → x < 2 ^ w → bit_and x (2 ^ w - 2 ^ k) ≡ x - x % 2 ^ k
bit_and-high zero w x h b = omega (arith, bit_and-low w x, mod-eq_of_lt b)
bit_and-high (suc k) zero x h b = elim h [ ]
bit_and-high (suc k) (suc w) x h b = ground (
  arith,
  bit_and_step x (2 ^ suc w - 2 ^ suc k),
  halves,
  pow-suc 2 k,
  pow-suc 2 w,
  mod-two_pow_suc k x,
  mod-le (x / 2) (2 ^ k),
  bit_and-high k w (x / 2) (omega arith) (omega (arith, pow-suc 2 w)),
)
  where
    halves : (2 ^ suc w - 2 ^ suc k) / 2 ≡ 2 ^ w - 2 ^ k
    halves = omega (arith, pow-suc 2 k, pow-suc 2 w)

-- `x & ~(2^k - 1)` on `uint64_t`.
pub bit_and-not64_low :
    (k x : ℕ) → k ≤ 64 → x < 2 ^ 64 → bit_and x (2 ^ 64 - 1 - (2 ^ k - 1)) ≡ x - x % 2 ^ k
bit_and-not64_low k x h b =
    let same : 2 ^ 64 - 1 - (2 ^ k - 1) ≡ 2 ^ 64 - 2 ^ k =
      omega (arith, one-le-pow k 2 (omega arith)) in
    rw same (bit_and-high k 64 x h b)

-- The multiples of `a`: what a rounded address is one of.
abbrev pub IsAligned : ℕ → ℕ → Type 0
IsAligned a x = x % a ≡ 0

-- Rounding down gives a multiple.
pub IsAligned-sub_mod : (a x : ℕ) → 0 < a → IsAligned a (x - x % a)
IsAligned-sub_mod a x h = rw base (mul-mod_left (x / a) a)
  where
    base : x - x % a ≡ x / a * a
    base = omega (arith, div-add-mod' x a)

-- Two multiples of `a` that differ by less than `a` are one.
pub aligned_gap : (a x y : ℕ) → 0 < a → IsAligned a x → IsAligned a y → x < y → x + a ≤ y
aligned_gap a x y h p q lt = omega (arith, div-add-mod' x a, div-add-mod' y a, step)
  where
    fewer : x / a < y / a
    fewer = (div-lt_iff_lt-mul h).1 (omega (arith, div-add-mod' y a))

    step : (x / a + 1) * a ≤ y / a * a
    step = grind (arith, fewer)

-- Rounding up: the least multiple that is not below `v`.
pub record RoundsUp (a v c : ℕ) : Type 0 where
  pub above : v ≤ c
  pub near : c < v + a
  pub aligned : IsAligned a c
  pub least : (y : ℕ) → IsAligned a y → v ≤ y → c ≤ y

pub RoundsUp-sub_mod : (a v : ℕ) → 0 < a → RoundsUp a v (v + a - 1 - (v + a - 1) % a)
RoundsUp-sub_mod a v h = record {
  above = omega (arith, mod-lt (v + a - 1) h);
  near = omega arith;
  aligned = IsAligned-sub_mod a (v + a - 1) h;
  least = λ y q le. elim (dec_lt y c) [
    | yes lt ↦ absurd (omega (arith, aligned_gap a y c h q (IsAligned-sub_mod a (v + a - 1) h) lt))
    | no ge ↦ omega arith
  ];
}
  where
    c : ℕ
    c = v + a - 1 - (v + a - 1) % a

-- A power of two is a multiple of the smaller ones.
pub pow-IsAligned : (k w : ℕ) → k ≤ w → IsAligned (2 ^ k) (2 ^ w)
pow-IsAligned zero w h = omega arith
pow-IsAligned (suc k) zero h = elim h [ ]
pow-IsAligned (suc k) (suc w) h =
    let half : 2 ^ suc w / 2 ≡ 2 ^ w = omega (arith, pow-suc 2 w) in
    rw (mod-two_pow_suc k (2 ^ suc w), half, pow-IsAligned k w (omega arith))
      (omega (arith, pow-suc 2 w))
