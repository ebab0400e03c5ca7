-- ===== src/Base/Bits/Single.antt =====
-- A single bit, and the number of bits that are set.
use Prim.Native.Nat.{ℕ, zero, suc, ◌+◌, ◌-◌, ◌*◌, ◌/◌, ◌%◌, ◌^◌, ◌≤◌, ◌<◌, bit_and}
use mathlib.Core.Path.{◌≡◌, refl, ap, ◌∙◌}
use native.Mathlib.Nat.{pow-suc, div-div-eq-div-mul}
use native.Mathlib.Decide.{ℕ_discrete}
use native.Mathlib.Omega.{arith}
use rtxmac_oc.Base.Bits.Digits.{bit_and_step}
use rtxmac_oc.Base.Bits.Mask.{bit_and-zero, bit_and_self, mod-two_pow_suc}

-- `v & (1 << k)`.
pub bit_and-two_pow : (k v : ℕ) → bit_and v (2 ^ k) ≡ v / 2 ^ k % 2 * 2 ^ k
bit_and-two_pow zero v = omega (arith, bit_and_step v 1, bit_and-zero (v / 2))
bit_and-two_pow (suc k) v =
    let double : 2 * 2 ^ k ≡ 2 ^ suc k = omega (arith, pow-suc 2 k) in
    let half : v / 2 / 2 ^ k ≡ v / 2 ^ suc k =
      div-div-eq-div-mul v 2 (2 ^ k) ∙ ap (λ t. v / t) double in
    let power : 2 ^ suc k / 2 ≡ 2 ^ k = omega (arith, double) in
    let rest : bit_and (v / 2) (2 ^ suc k / 2) ≡ v / 2 ^ suc k % 2 * 2 ^ k =
      rw power (bit_and-two_pow k (v / 2) ∙ ap (λ t. t % 2 * 2 ^ k) half) in
    let even : 2 ^ suc k % 2 ≡ 0 = omega (arith, double) in
    bit_and_step v (2 ^ suc k)
    ∙ ground (arith, rest, even, double, ap (λ t. v / 2 ^ suc k % 2 * t) double)

-- The bits set among the lowest `n`.
unfoldable pub ones : ℕ → ℕ → ℕ
ones zero v = 0
ones (suc n) v = v % 2 + ones n (v / 2)

-- `v & (v - 1)` clears the lowest bit that is set.
pub ones-clear_lowest : (n v : ℕ) → 0 < v → v < 2 ^ n → ones n (bit_and v (v - 1)) + 1 ≡ ones n v
unfolding ones
ones-clear_lowest zero v pos h = absurd (omega arith)
ones-clear_lowest (suc n) v pos h =
    let step = bit_and_step v (v - 1) in
    elim (ℕ_discrete (v % 2) 0) [
      | no odd ↦
          let half : (v - 1) / 2 ≡ v / 2 = omega arith in
          let rest : bit_and v (v - 1) / 2 ≡ v / 2 =
            omega (arith, step, ap (bit_and (v / 2)) half, bit_and_self (v / 2)) in
          let low : bit_and v (v - 1) % 2 ≡ 0 = omega (arith, step) in rw (rest, low) (omega arith)
      | yes even ↦
          let half : (v - 1) / 2 ≡ v / 2 - 1 = omega arith in
          let rest : bit_and v (v - 1) / 2 ≡ bit_and (v / 2) (v / 2 - 1) =
            omega (arith, step, ap (bit_and (v / 2)) half) in
          let low : bit_and v (v - 1) % 2 ≡ 0 = omega (arith, step) in
          rw (rest, low)
            (omega (arith, ones-clear_lowest n (v / 2) (omega arith) (omega (arith, pow-suc 2 n))))
    ]

pub ones-mod : (n v : ℕ) → ones n (v % 2 ^ n) ≡ ones n v
unfolding ones
ones-mod zero v = refl
ones-mod (suc n) v =
    let split = mod-two_pow_suc n v in
    let low : v % 2 ^ suc n % 2 ≡ v % 2 = omega (arith, split) in
    let rest : v % 2 ^ suc n / 2 ≡ v / 2 % 2 ^ n = omega (arith, split) in
    rw (low, rest, ones-mod n (v / 2)) refl

pub ones-zero : (n : ℕ) → ones n 0 ≡ 0
unfolding ones
ones-zero zero = refl
ones-zero (suc n) = omega (arith, ones-zero n)

pub ones-le : (n v : ℕ) → ones n v ≤ n
unfolding ones
ones-le zero v = omega arith
ones-le (suc n) v = omega (arith, ones-le n (v / 2))

pub ones-low : (k n v : ℕ) → k ≤ n → ones n (v % 2 ^ k) ≡ ones k v
unfolding ones
ones-low zero n v h = let nothing : v % 2 ^ 0 ≡ 0 = omega arith in rw nothing (ones-zero n)
ones-low (suc k) zero v h = absurd (omega arith)
ones-low (suc k) (suc n) v h =
    let split = mod-two_pow_suc k v in
    let low : v % 2 ^ suc k % 2 ≡ v % 2 = omega (arith, split) in
    let rest : v % 2 ^ suc k / 2 ≡ v / 2 % 2 ^ k = omega (arith, split) in
    rw (low, rest, ones-low k n (v / 2) (omega (arith, h))) refl

-- A number is at most `n`, so that halving is structural.
zero-bit_and : (n b : ℕ) → b ≤ n → bit_and 0 b ≡ 0
zero-bit_and n zero h = refl
zero-bit_and zero (suc b) h = absurd (omega arith)
zero-bit_and (suc n) (suc b) h =
    omega (arith, bit_and_step 0 (suc b), zero-bit_and n (suc b / 2) (omega arith))

and-le_below : (n a b : ℕ) → a ≤ n → bit_and a b ≤ a
and-le_below n zero b h = omega (arith, zero-bit_and b b (omega arith))
and-le_below zero (suc a) b h = absurd (omega arith)
and-le_below (suc n) (suc a) b h =
    omega (arith, bit_and_step (suc a) b, and-le_below n (suc a / 2) (b / 2) (omega arith))

pub bit_and_le : (a b : ℕ) → bit_and a b ≤ a
bit_and_le a b = and-le_below a a b (omega arith)
