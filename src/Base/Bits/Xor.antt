-- ===== src/Base/Bits/Xor.antt =====
-- Exclusive or: a group in which every number is its own inverse, digit by digit.
use Prim.Native.Nat.{ℕ, zero, suc, ◌+◌, ◌*◌, ◌/◌, ◌%◌, ◌^◌, ◌≤◌, ◌<◌, bit_xor, differ}
use mathlib.Core.Path.{◌≡◌, refl, sym, ap, ◌∙◌}
use native.Mathlib.Nat.{pow-suc, div-div-eq-div-mul}
use native.Mathlib.Omega.{arith}
use native.Mathlib.Decide.{ℕ_discrete}
use rtxmac_oc.Base.Bits.Digits.{bit_xor_step}
use rtxmac_oc.Base.Bits.Mask.{mod-two_pow_suc}

digit_sum : (a b : ℕ) → a < 2 → b < 2 → differ a b ≡ (a + b) % 2
digit_sum a b h k = elim (ℕ_discrete a 0) [
  | yes ea ↦ elim (ℕ_discrete b 0) [
    | yes eb ↦ rw (ea, eb) refl
    | no nb ↦ let eb : b ≡ 1 = omega (arith, k, nb) in rw (ea, eb) refl
  ]
  | no na ↦
      let ea : a ≡ 1 = omega (arith, h, na) in
      elim (ℕ_discrete b 0) [
        | yes eb ↦ rw (ea, eb) refl
        | no nb ↦ let eb : b ≡ 1 = omega (arith, k, nb) in rw (ea, eb) refl
      ]
]

-- The step, with the lowest digit as a sum.
xor_step : (x y : ℕ) → bit_xor x y ≡ bit_xor (x / 2) (y / 2) * 2 + (x + y) % 2
xor_step x y =
    omega (arith, bit_xor_step x y, digit_sum (x % 2) (y % 2) (omega arith) (omega arith))

xor_low : (x y : ℕ) → bit_xor x y % 2 ≡ (x + y) % 2
xor_low x y = omega (arith, xor_step x y)

pub xor_half : (x y : ℕ) → bit_xor x y / 2 ≡ bit_xor (x / 2) (y / 2)
xor_half x y = ground (arith, xor_step x y)

-- Numbers are at most `n` in these, so that halving is structural.
comm_below : (n x y : ℕ) → x ≤ n → y ≤ n → bit_xor x y ≡ bit_xor y x
comm_below zero x y h k = let e : x ≡ y = omega (arith, h, k) in rw e refl
comm_below (suc n) x y h k = ground (
  arith,
  xor_step x y,
  xor_step y x,
  comm_below n (x / 2) (y / 2) (omega (arith, h)) (omega (arith, k)),
)

pub bit_xor_comm : (x y : ℕ) → bit_xor x y ≡ bit_xor y x
bit_xor_comm x y = comm_below (x + y) x y (omega arith) (omega arith)

self_below : (n x : ℕ) → x ≤ n → bit_xor x x ≡ 0
self_below n zero h = refl
self_below zero (suc x) h = absurd (omega (arith, h))
self_below (suc n) (suc x) h =
    ground (arith, xor_step (suc x) (suc x), self_below n (suc x / 2) (omega (arith, h)))

pub bit_xor_self : (x : ℕ) → bit_xor x x ≡ 0
bit_xor_self x = self_below x x (omega arith)

zero_below : (n x : ℕ) → x ≤ n → bit_xor x 0 ≡ x
zero_below n zero h = refl
zero_below zero (suc x) h = absurd (omega (arith, h))
zero_below (suc n) (suc x) h =
    ground (arith, xor_step (suc x) 0, zero_below n (suc x / 2) (omega (arith, h)))

pub bit_xor-zero : (x : ℕ) → bit_xor x 0 ≡ x
bit_xor-zero x = zero_below x x (omega arith)

assoc_below :
    (n x y z : ℕ) → x ≤ n → y ≤ n → z ≤ n → bit_xor (bit_xor x y) z ≡ bit_xor x (bit_xor y z)
assoc_below zero x y z h k l =
    let ex : x ≡ 0 = omega (arith, h) in
    let ey : y ≡ 0 = omega (arith, k) in let ez : z ≡ 0 = omega (arith, l) in rw (ex, ey, ez) refl
assoc_below (suc n) x y z h k l =
    let half =
      assoc_below n (x / 2) (y / 2) (z / 2) (omega (arith, h)) (omega (arith, k))
        (omega (arith, l)) in
    let left : bit_xor (bit_xor x y) z / 2 ≡ bit_xor (bit_xor (x / 2) (y / 2)) (z / 2) =
      xor_half (bit_xor x y) z ∙ ap (λ t. bit_xor t (z / 2)) (xor_half x y) in
    let right : bit_xor x (bit_xor y z) / 2 ≡ bit_xor (x / 2) (bit_xor (y / 2) (z / 2)) =
      xor_half x (bit_xor y z) ∙ ap (bit_xor (x / 2)) (xor_half y z) in
    let low : bit_xor (bit_xor x y) z % 2 ≡ bit_xor x (bit_xor y z) % 2 =
      ground (arith, xor_low (bit_xor x y) z, xor_low x y, xor_low x (bit_xor y z), xor_low y z) in
    omega (arith, half, left, right, low)

pub bit_xor_assoc : (x y z : ℕ) → bit_xor (bit_xor x y) z ≡ bit_xor x (bit_xor y z)
bit_xor_assoc x y z = assoc_below (x + y + z) x y z (omega arith) (omega arith) (omega arith)

-- It commutes with taking the high and the low part.
pub bit_xor-div : (k x y : ℕ) → bit_xor x y / 2 ^ k ≡ bit_xor (x / 2 ^ k) (y / 2 ^ k)
bit_xor-div zero x y =
    let one : (t : ℕ) → t / 2 ^ 0 ≡ t = λ t. omega arith in
    rw (one x, one y, one (bit_xor x y)) refl
bit_xor-div (suc k) x y =
    let halves : (t : ℕ) → t / 2 ^ suc k ≡ t / 2 / 2 ^ k =
      λ t. sym (div-div-eq-div-mul t 2 (2 ^ k) ∙ ap (λ p. t / p) (omega (arith, pow-suc 2 k))) in
    rw (halves x, halves y, halves (bit_xor x y), xor_half x y) (bit_xor-div k (x / 2) (y / 2))

pub bit_xor-mod : (k x y : ℕ) → bit_xor x y % 2 ^ k ≡ bit_xor (x % 2 ^ k) (y % 2 ^ k)
bit_xor-mod zero x y =
    let nothing : (t : ℕ) → t % 2 ^ 0 ≡ 0 = λ t. omega arith in
    rw (nothing x, nothing y, nothing (bit_xor x y)) refl
bit_xor-mod (suc k) x y =
    let sx = mod-two_pow_suc k x in
    let sy = mod-two_pow_suc k y in
    let sxy = mod-two_pow_suc k (bit_xor x y) in
    let hx : x % 2 ^ suc k / 2 ≡ x / 2 % 2 ^ k = omega (arith, sx) in
    let hy : y % 2 ^ suc k / 2 ≡ y / 2 % 2 ^ k = omega (arith, sy) in
    let hxy : bit_xor x y / 2 % 2 ^ k ≡ bit_xor (x / 2 % 2 ^ k) (y / 2 % 2 ^ k) =
      ap (λ t. t % 2 ^ k) (xor_half x y) ∙ bit_xor-mod k (x / 2) (y / 2) in
    let step = xor_step (x % 2 ^ suc k) (y % 2 ^ suc k) in
    let lx : x % 2 ^ suc k % 2 ≡ x % 2 = omega (arith, sx) in
    let ly : y % 2 ^ suc k % 2 ≡ y % 2 = omega (arith, sy) in
    let both : bit_xor (x % 2 ^ suc k) (y % 2 ^ suc k)
        ≡ bit_xor (x / 2 % 2 ^ k) (y / 2 % 2 ^ k) * 2 + (x + y) % 2 =
      step ∙ rw (hx, hy) (omega (arith, lx, ly)) in
    omega (arith, sxy, hxy, both, xor_low x y)

-- A high part and a low part do not meet.
pub bit_xor_above : (k q r : ℕ) → r < 2 ^ k → bit_xor (q * 2 ^ k) r ≡ q * 2 ^ k + r
bit_xor_above zero q r h =
    let nothing : r ≡ 0 = omega (arith, h) in rw nothing (omega (arith, bit_xor-zero (q * 2 ^ 0)))
bit_xor_above (suc k) q r h =
    let double : q * 2 ^ suc k ≡ q * 2 ^ k * 2 = omega (arith, ap (λ t. q * t) (pow-suc 2 k)) in
    let half : q * 2 ^ suc k / 2 ≡ q * 2 ^ k = omega (arith, double) in
    let rest : bit_xor (q * 2 ^ suc k / 2) (r / 2) ≡ q * 2 ^ k + r / 2 =
      rw half (bit_xor_above k q (r / 2) (omega (arith, h, pow-suc 2 k))) in
    omega (arith, xor_step (q * 2 ^ suc k) r, rest, double)
