-- ===== src/Base/Bits/Mask.antt =====
-- `x & (2^k - 1)`, `(q << k) | r` and the test of a power of two.
use Prim.Native.Nat.{ℕ, zero, suc, ◌+◌, ◌-◌, ◌*◌, ◌/◌, ◌%◌, ◌^◌, ◌≤◌, ◌<◌, bit_and, bit_or}
use Prim.Native.Nat.{max}
use mathlib.Core.Logic.{◌↔◌}
use mathlib.Core.Path.{◌≡◌, refl, ap, ◌∙◌}
use native.Mathlib.Nat.{pow-suc, one-le-pow, mod-lt, mod-add-div', add-mul-mod_self_right}
use native.Mathlib.Nat.{mod-eq_of_lt}
use native.Mathlib.Decide.{dec_lt}
use native.Mathlib.Omega.{arith}
use rtxmac_oc.Base.Bits.Digits.{bit_and_step, bit_or_step}

-- A number is at most `n` in these, so that halving is structural.
and-zero_below : (n a : ℕ) → a ≤ n → bit_and a 0 ≡ 0
and-zero_below n zero h = refl
and-zero_below zero (suc a) h = elim h [ ]
and-zero_below (suc n) (suc a) h =
    omega (arith, bit_and_step (suc a) 0, and-zero_below n (suc a / 2) (omega arith))

pub bit_and-zero : (a : ℕ) → bit_and a 0 ≡ 0
bit_and-zero a = and-zero_below a a (omega arith)

or-zero_below : (n a : ℕ) → a ≤ n → bit_or a 0 ≡ a
or-zero_below n zero h = refl
or-zero_below zero (suc a) h = elim h [ ]
or-zero_below (suc n) (suc a) h =
    omega (arith, bit_or_step (suc a) 0, or-zero_below n (suc a / 2) (omega arith))

pub bit_or-zero : (a : ℕ) → bit_or a 0 ≡ a
bit_or-zero a = or-zero_below a a (omega arith)

and-self_below : (n a : ℕ) → a ≤ n → bit_and a a ≡ a
and-self_below n zero h = refl
and-self_below zero (suc a) h = elim h [ ]
and-self_below (suc n) (suc a) h =
    omega (arith, bit_and_step (suc a) (suc a), and-self_below n (suc a / 2) (omega arith))

pub bit_and_self : (a : ℕ) → bit_and a a ≡ a
bit_and_self a = and-self_below a a (omega arith)

-- A remainder by `2^(k+1)` from the remainder of the half.
pub mod-two_pow_suc : (k a : ℕ) → a % 2 ^ suc k ≡ a / 2 % 2 ^ k * 2 + a % 2
mod-two_pow_suc k a =
    let x = a / 2 % 2 ^ k * 2 + a % 2 in
    let q = a / 2 / 2 ^ k in
    let below : x < 2 ^ suc k =
      omega (arith, pow-suc 2 k, mod-lt (a / 2) (one-le-pow k 2 (omega arith))) in
    let split : a ≡ x + q * 2 ^ suc k =
      omega
        (arith, pow-suc 2 k, ap (λ (t : ℕ). q * t) (pow-suc 2 k), mod-add-div' (a / 2) (2 ^ k)) in
    (ap (λ (t : ℕ). t % 2 ^ suc k) split ∙ add-mul-mod_self_right x q (2 ^ suc k))
    ∙ mod-eq_of_lt below

half_mask : (k : ℕ) → (2 ^ suc k - 1) / 2 ≡ 2 ^ k - 1
half_mask k = omega (arith, pow-suc 2 k, one-le-pow k 2 (omega arith))

-- `x & (2^k - 1)` is the remainder.
pub bit_and-low : (k a : ℕ) → bit_and a (2 ^ k - 1) ≡ a % 2 ^ k
bit_and-low zero a = omega (arith, bit_and-zero a)
bit_and-low (suc k) a = ground (
  arith,
  bit_and_step a (2 ^ suc k - 1),
  half_mask k,
  pow-suc 2 k,
  one-le-pow k 2,
  bit_and-low k (a / 2),
  mod-two_pow_suc k a,
)

-- `(q << k) | r` is a sum where `r` fits in `k` bits.
pub bit_or-shifted : (k q r : ℕ) → r < 2 ^ k → bit_or (q * 2 ^ k) r ≡ q * 2 ^ k + r
bit_or-shifted zero q r h = ground (arith, bit_or-zero q)
bit_or-shifted (suc k) q r h = ground (
  arith,
  bit_or_step (q * 2 ^ suc k) r,
  pow-suc 2 k,
  ap (λ (t : ℕ). q * t) (pow-suc 2 k),
  bit_or-shifted k q (r / 2),
)

-- `a & (a - 1)` is 0 for the powers of two alone (and for 0).
power_below : (n a : ℕ) → a ≤ n → 0 < a → bit_and a (a - 1) ≡ 0 → (k : ℕ) × (a ≡ 2 ^ k)
power_below zero a h p e = absurd (omega arith)
power_below (suc n) a h p e = elim (dec_lt 1 a) [
  | yes big ↦ elim (dec_lt (a % 2) 1) [
    | yes even ↦
        let half : (k : ℕ) × (a / 2 ≡ 2 ^ k) =
          power_below n (a / 2) (omega arith) (omega arith)
            (ground (arith, bit_and_step a (a - 1))) in
        (suc half.0, omega (arith, half.1, pow-suc 2 half.0))
    | no odd ↦ absurd (ground (arith, bit_and_step a (a - 1), bit_and_self (a / 2)))
  ]
  | no small ↦ (0, omega arith)
]

pub power_of_two : (a : ℕ) → 0 < a → bit_and a (a - 1) ≡ 0 → (k : ℕ) × (a ≡ 2 ^ k)
power_of_two a = power_below a a (omega arith)

or_half : (a b : ℕ) → bit_or a b / 2 ≡ bit_or (a / 2) (b / 2)
or_half a b = omega (arith, bit_or_step a b)

or_low : (a b : ℕ) → bit_or a b % 2 ≡ max (a % 2) (b % 2)
or_low a b = omega (arith, bit_or_step a b)

-- `a | b` is a multiple of `2^k` exactly when both are.
pub mod-bit_or : (k a b : ℕ) → (bit_or a b % 2 ^ k ≡ 0) ↔ ((a % 2 ^ k ≡ 0) × (b % 2 ^ k ≡ 0))
mod-bit_or zero a b = (λ h. omega arith, λ h. omega arith)
mod-bit_or (suc k) a b = (
  λ h.
      let halves =
        (mod-bit_or k (a / 2) (b / 2)).0
          (rw (← or_half a b) (omega (arith, mod-two_pow_suc k (bit_or a b)))) in
      omega (
        arith,
        halves,
        or_low a b,
        mod-two_pow_suc k (bit_or a b),
        mod-two_pow_suc k a,
        mod-two_pow_suc k b,
      ),
  λ h.
      let half =
        (mod-bit_or k (a / 2) (b / 2)).1
          (omega (arith, mod-two_pow_suc k a, mod-two_pow_suc k b)) in
      rw (mod-two_pow_suc k (bit_or a b), or_half a b, half)
        (omega (arith, or_low a b, mod-two_pow_suc k a, mod-two_pow_suc k b)),
)

or-comm_below : (n a b : ℕ) → a ≤ n → b ≤ n → bit_or a b ≡ bit_or b a
or-comm_below zero a b h k = let e : a ≡ b = omega arith in rw e
or-comm_below (suc n) a b h k = omega (
  arith,
  bit_or_step a b,
  bit_or_step b a,
  or-comm_below n (a / 2) (b / 2) (omega arith) (omega arith),
)

pub bit_or_comm : (a b : ℕ) → bit_or a b ≡ bit_or b a
bit_or_comm a b = or-comm_below (a + b) a b (omega arith) (omega arith)
