-- ===== src/Falcon/Poll.antt =====
-- The polling loop: it ends, and what it reports is what the register showed.
use rtxmac_oc.Base.{ℕ, zero, suc, ◌+◌, ◌*◌, ◌/◌, ◌^◌, ◌≤◌, ◌<◌, ◌≡◌, refl, arith, ◌⊎◌, inl, inr}
use rtxmac_oc.Base.{leb, Bool, true, false, ◌+32◌, Option, some, Result, ok, err, Bool-cases}
use native.Mathlib.Nat.{lt-div-mul-add}
use rtxmac_oc.Mmio.{Mmio}
use rtxmac_oc.Falcon.Run.{Code, timed_out, carry, ◌>>=◌, return, fail, poll, wait_for, rounds_for}

pub rounds_enough : (timeout step : ℕ) → 0 < step → timeout + step ≤ (timeout / step + 2) * step
rounds_enough timeout step pos = grind (arith, lt-div-mul-add {a = timeout} {b = step} pos)

module _ (io : Mmio) (reg : ℕ) (step : ℕ) where
  -- The platform at the `j`-th read of the loop, and after it.
  unfoldable pub at_read : ℕ → io.State → io.State
  at_read zero s = s
  at_read (suc j) s = at_read j (io.udelay step (io.rd reg s).1)

  abbrev pub reading : ℕ → io.State → ℕ
  reading j s = (io.rd reg (at_read j s)).0

  abbrev pub after_read : ℕ → io.State → io.State
  after_read j s = (io.rd reg (at_read j s)).1

  module _ (ready : ℕ → Bool) (timeout : ℕ) where
    -- The loop ends after `count` delays: at the first reading that is ready, or with none ready when
    -- the delays have reached the timeout, one step beyond it at most.
    pub record IsPolled (waited : ℕ) (s : io.State) (o : Option (Result Code Bool × io.State))
        : Type 0 where
      pub count : ℕ
      pub before : (j : ℕ) → j < count → ready (reading j s) ≡ false
      pub soon : waited + count * step < timeout + step
      pub outcome :
          ((ready (reading count s) ≡ true) × (o ≡ some (ok true, after_read count s)))
          ⊎ ((ready (reading count s) ≡ false)
              × (timeout ≤ waited + count * step)
              × (o ≡ some (ok false, after_read count s)))

    next-IsPolled :
        (waited : ℕ) (s : io.State) (o : Option (Result Code Bool × io.State))
        → ready (reading 0 s) ≡ false
        → IsPolled (waited + step) (io.udelay step (io.rd reg s).1) o
        → IsPolled waited s o
    unfolding at_read
    next-IsPolled waited s o not_ready p =
        let sum : waited + step + p.count * step ≡ waited + suc p.count * step = grind arith in
        record {
          count = suc p.count;
          before = earlier;
          soon = rw (← sum) p.soon;
          outcome = rw (← sum) p.outcome;
        }
      where
        earlier : (j : ℕ) → j < suc p.count → ready (reading j s) ≡ false
        earlier zero h = not_ready
        earlier (suc j) h = p.before j (omega arith)

    pub poll-IsPolled :
        (rounds waited : ℕ) (s : io.State)
        → 0 < step
        → timeout + step ≤ 2 ^ 32
        → waited < timeout + step
        → timeout + step ≤ waited + rounds * step
        → IsPolled waited s (poll io reg ready timeout step rounds waited s)
    unfolding poll at_read
    poll-IsPolled zero waited s pos small h enough = absurd (omega arith)
    poll-IsPolled (suc rounds) waited s pos small h enough =
        elim (Bool-cases (ready (io.rd reg s).0)) [
          | inl e ↦ rw e (record {
            count = 0;
            before = λ j lt. elim lt [ ];
            soon = omega arith;
            outcome = inl (e, refl);
          })
          | inr e ↦ elim (Bool-cases (leb timeout waited)) [
            | inl late ↦
                rw (e, late)
                  (record {
                    count = 0;
                    before = λ j lt. elim lt [ ];
                    soon = omega arith;
                    outcome = inr (e, ground (arith, late), refl);
                  })
            | inr early ↦
                let sum : waited +32 step ≡ waited + step = ground (arith, early, small) in
                rw (e, early, sum)
                  (next-IsPolled waited s _ e (
                    poll-IsPolled rounds (waited + step) _ pos small (ground (arith, early))
                      (grind (arith, enough))))
          ]
        ]

    -- A wait of `driver/gsp/falcon.c`: it ends, having read the register until it was ready or the
    -- delays had reached the timeout.
    pub record IsWaited (s : io.State) (o : Option (Result Code (Unit {0}) × io.State))
        : Type 0 where
      pub count : ℕ
      pub before : (j : ℕ) → j < count → ready (reading j s) ≡ false
      pub soon : count * step < timeout + step
      pub outcome :
          ((ready (reading count s) ≡ true) × (o ≡ some (ok tt, after_read count s)))
          ⊎ ((ready (reading count s) ≡ false)
              × (timeout ≤ count * step)
              × (o ≡ some (err timed_out, after_read count s)))

    wait_of_poll :
        (s : io.State)
        → IsPolled 0 s (poll io reg ready timeout step (rounds_for io timeout step) 0 s)
        → IsWaited s (wait_for io reg ready timeout step s)
    unfolding wait_for ◌>>=◌ carry return fail
    wait_of_poll s p = record {
      count = p.count;
      before = p.before;
      soon = omega (arith, p.soon);
      outcome = elim p.outcome [
        | inl (e, o) ↦ inl (e, rw (o, wait_for, ◌>>=◌) refl)
        | inr (e, late, o) ↦ inr (e, omega (arith, late), rw (o, wait_for, ◌>>=◌) refl)
      ];
    }

    -- If the step is positive and the timeout and one step are at most 2^32 microseconds, the wait ends: with success
    -- at the first reading that is ready, or with a timeout when no reading has been ready up to the
    -- one at or behind the timeout, at most one step behind it.
    pub wait_for-IsWaited :
        (s : io.State)
        → 0 < step
        → timeout + step ≤ 2 ^ 32
        → IsWaited s (wait_for io reg ready timeout step s)
    wait_for-IsWaited s pos small = wait_of_poll s (
        poll-IsPolled (rounds_for io timeout step) 0 s pos small (omega arith)
          (omega (arith, rounds_enough timeout step pos)))
