-- ===== src/Base/Loops.antt =====
-- `for (i = start; rounds--; i++) body` over a state.
use Prim.Native.Nat.{ℕ, zero, suc, ◌+◌, ◌≤◌, ◌<◌}
use mathlib.Core.Path.{◌≡◌}
use native.Mathlib.Omega.{arith}

module _ {ℓ} {S : Type ℓ} (body : ℕ → S → S) where
  unfoldable pub for_each : ℕ → ℕ → S → S
  for_each zero i s = s
  for_each (suc rounds) i s = for_each rounds (i + 1) (body i s)

  -- What each round hands on to the next holds at the end.
  pub for_each_inv {κ} :
      (P : ℕ → S → Type κ) (rounds i stop : ℕ) (s : S)
      → i + rounds ≡ stop
      → ((j : ℕ) (t : S) → i ≤ j → j < stop → P j t → P (j + 1) (body j t))
      → P i s
      → P stop (for_each rounds i s)
  unfolding for_each
  for_each_inv P zero i stop s e keep h = let e' : i ≡ stop = omega arith in rw (← e') h
  for_each_inv P (suc rounds) i stop s e keep h =
      for_each_inv P rounds (i + 1) stop (body i s) (omega arith)
        (λ j t le lt p. keep j t (omega arith) lt p) (keep i s (omega arith) (omega arith) h)
