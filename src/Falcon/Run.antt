-- ===== src/Falcon/Run.antt =====
-- Register sequences over a platform that may end early with a code, and the polling loop that they
-- share.
use rtxmac_oc.Base.{
  ℕ, zero, suc, ◌+◌, ◌/◌, leb, Bool, true, false, if◌then◌else◌, ◌+32◌, Option, none, some, Result,
  ok, err,
}
use rtxmac_oc.Mmio.{Mmio}

-- NV_ERR_TIMEOUT and NV_ERR_STATE; NV_OK is a value.
pub data Code : Type 0 where
  timed_out bad_state : Code

-- `none`: a loop is still running when its rounds are used up.
abbrev pub Run : Type 0 → Type 0 → Type 0
Run State A = State → Option (Result Code A × State)

module _ {State : Type 0} where
  -- `if (rc != NV_OK) return rc;`
  unfoldable pub carry :
      {A B : Type 0}
      → Option (Result Code A × State)
      → (A → Run State B)
      → Option (Result Code B × State)
  carry none next = none
  carry (some (ok a, t)) next = next a t
  carry (some (err e, t)) next = some (err e, t)

  infixl 5 ◌>>=◌ ◌>>◌
  unfoldable pub ◌>>=◌ : {A B : Type 0} → Run State A → (A → Run State B) → Run State B
  (run >>= next) s = carry (run s) next

  unfoldable pub ◌>>◌ : {B : Type 0} → Run State (Unit {0}) → Run State B → Run State B
  run >> next = run >>= λ u. next

  unfoldable pub return : {A : Type 0} → A → Run State A
  return a s = some (ok a, s)

  unfoldable pub fail : {A : Type 0} → Code → Run State A
  fail e s = some (err e, s)

module _ (io : Mmio) where
  unfoldable pub rd : ℕ → Run io.State ℕ
  rd off s = some (ok (io.rd off s).0, (io.rd off s).1)

  unfoldable pub wr : ℕ → ℕ → Run io.State (Unit {0})
  wr off v s = some (ok tt, io.wr off v s)

  unfoldable pub udelay : ℕ → Run io.State (Unit {0})
  udelay us s = some (ok tt, io.udelay us s)

  -- `for (;;) { if (ready) ...; if (waited >= timeout) ...; udelay(step); waited += step; }`: whether
  -- the register became ready.
  unfoldable pub poll : ℕ → (ℕ → Bool) → ℕ → ℕ → ℕ → ℕ → Run io.State Bool
  poll reg ready timeout step zero waited s = none
  poll reg ready timeout step (suc rounds) waited s =
      let v = (io.rd reg s).0 in
      let t = (io.rd reg s).1 in
      let again = poll reg ready timeout step rounds (waited +32 step) (io.udelay step t) in
      if ready v
      then some (ok true, t)
      else if leb timeout waited
      then some (ok false, t)
      else again

  -- Enough rounds for `waited` to reach the timeout.
  abbrev pub rounds_for : ℕ → ℕ → ℕ
  rounds_for timeout step = timeout / step + 2

  unfoldable pub wait_for : ℕ → (ℕ → Bool) → ℕ → ℕ → Run io.State (Unit {0})
  wait_for reg ready timeout step =
      poll reg ready timeout step (rounds_for timeout step) 0 >>= λ came.
      if came then return tt else fail timed_out
