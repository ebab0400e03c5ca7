-- ===== src/Base/Bits/Digits.antt =====
-- One step of the digit recursion: what an operation does to the lowest digit and to the rest.
use Prim.Native.Nat.{ℕ, zero, suc, ◌+◌, ◌-◌, ◌*◌, ◌/◌, ◌%◌, ◌≤◌, min, max, bit_and, bit_or, bit_xor}
use Prim.Native.Nat.{digits, differ, bit_and-bitwise, bit_or-bitwise, bit_xor-bitwise}
use mathlib.Core.Path.{◌≡◌, refl, ◌∙◌}
use native.Mathlib.Omega.{arith}

module _ (z : ℕ → ℕ) (op : ℕ → ℕ → ℕ) where
  -- A count of digits to go that covers the first number can be any larger.
  spare_digit : (n a b : ℕ) → a ≤ n → digits z op (suc n) a b ≡ digits z op n a b
  spare_digit zero zero b h = refl
  spare_digit zero (suc a) b h = elim h [ ]
  spare_digit (suc n) zero b h = refl
  spare_digit (suc n) (suc a) b h = rw (spare_digit n (suc a / 2) (b / 2) (omega arith))

  spare_digits : (k n m a b : ℕ) → a ≤ n → m ≡ k + n → digits z op m a b ≡ digits z op n a b
  spare_digits zero n m a b h e = let e' : m ≡ n = omega arith in rw e'
  spare_digits (suc k) n m a b h e =
      let e' : m ≡ suc (k + n) = omega arith in
      rw e' (spare_digit (k + n) a b (omega arith) ∙ spare_digits k n (k + n) a b h refl)

  low_digit :
      (a b : ℕ)
      → digits z op (suc a) (suc a) b
        ≡ digits z op (suc a / 2) (suc a / 2) (b / 2) * 2 + op (suc a % 2) (b % 2)
  low_digit a b =
      let h = suc a / 2 in
      omega (arith, spare_digits (a - h) h a h (b / 2) (omega arith) (omega arith))

differ-zero : (y : ℕ) → differ 0 y ≡ y
differ-zero y = refl

pub bit_xor_step : (x y : ℕ) → bit_xor x y ≡ bit_xor (x / 2) (y / 2) * 2 + differ (x % 2) (y % 2)
bit_xor_step (suc x) y = simp bit_xor-bitwise (low_digit (λ rest. rest) differ x y)
bit_xor_step zero y = simp bit_xor-bitwise (omega (arith, differ-zero (y % 2)))

pub bit_or_step : (x y : ℕ) → bit_or x y ≡ bit_or (x / 2) (y / 2) * 2 + max (x % 2) (y % 2)
bit_or_step (suc x) y = simp bit_or-bitwise (low_digit (λ rest. rest) max x y)
bit_or_step zero y = simp bit_or-bitwise (omega arith)

pub bit_and_step : (x y : ℕ) → bit_and x y ≡ bit_and (x / 2) (y / 2) * 2 + min (x % 2) (y % 2)
bit_and_step (suc x) y = simp bit_and-bitwise (low_digit (λ rest. 0) min x y)
bit_and_step zero y = simp bit_and-bitwise (omega arith)
