-- ===== src/Falcon/Ends.antt =====
-- Every register sequence of falcon.c comes to an end.
use rtxmac_oc.Base.{ℕ, zero, suc, ◌+◌, ◌^◌, ◌≤◌, ◌<◌, ◌≡◌, refl, arith, inl, inr}
use rtxmac_oc.Base.{Bool, true, false, if◌then◌else◌, Option, none, some, Result, ok, err}
use rtxmac_oc.Mmio.{Mmio}
use rtxmac_oc.Falcon.Run.{
  Code, Run, carry, ◌>>=◌, ◌>>◌, return, fail, rd, wr, udelay, poll, wait_for, rounds_for,
}
use rtxmac_oc.Falcon.Defs.{reset_engine, wait_mem_scrubbing, start, write_mailbox0}
use rtxmac_oc.Falcon.Defs.{write_mailbox1, read_mailbox0, write_given, boot}
use rtxmac_oc.Falcon.Defs.{choose_falcon, select_core_ga102, program_brom_ga102, reset_ga102}
use rtxmac_oc.Falcon.Defs.{gsp_reset_riscv, wait_gfw_boot_completed}
use rtxmac_oc.Falcon.Load.{Memory, Target, imem_secure, dmem, dma_reset, dma_blocks, dma_wr}
use rtxmac_oc.Falcon.Load.{dma_load_ga102}
use rtxmac_oc.Falcon.Poll.{poll-IsPolled, rounds_enough}

-- From every state of the platform a result is reached.
pub record Ends {State A : Type 0} (run : Run State A) : Type 0 where
  pub result : State → Result Code A × State
  pub reached : (s : State) → run s ≡ some (result s)

module _ {State A : Type 0} where
  pub return-Ends : (a : A) → Ends {State = State} (return a)
  unfolding return
  return-Ends a = record { result = λ s. (ok a, s); reached = λ s. refl }

  pub fail-Ends : (e : Code) → Ends {State = State} {A = A} (fail e)
  unfolding fail
  fail-Ends e = record { result = λ s. (err e, s); reached = λ s. refl }

module _ {State A B : Type 0} where
  unfoldable after :
      (A → State → Result Code B × State) → Result Code A × State → Result Code B × State
  after next (ok a, t) = next a t
  after next (err e, t) = (err e, t)

  pub bind-Ends :
      (run : Run State A) (next : A → Run State B)
      → Ends run
      → ((a : A) → Ends (next a))
      → Ends (run >>= next)
  unfolding ◌>>=◌ carry after
  bind-Ends run next r n = record {
    result = λ s. after (λ a t. (n a).result t) (r.result s);
    reached = λ s. rw (r.reached s, ◌>>=◌) (then_reached (r.result s));
  }
    where
      then_reached :
          (v : Result Code A × State) → carry (some v) next ≡ some (after (λ a t. (n a).result t) v)
      then_reached (ok a, t) = (n a).reached t
      then_reached (err e, t) = refl

module _ {State B : Type 0} where
  pub seq-Ends :
      (run : Run State (Unit {0})) (next : Run State B) → Ends run → Ends next → Ends (run >> next)
  unfolding ◌>>◌
  seq-Ends run next r n = bind-Ends run (λ u. next) r (λ u. n)

  pub if-Ends : (test : Bool) (x y : Run State B) → Ends x → Ends y → Ends (if test then x else y)
  if-Ends true x y hx hy = hx
  if-Ends false x y hx hy = hy

module _ (io : Mmio) where
  pub rd-Ends : (off : ℕ) → Ends (rd io off)
  unfolding rd
  rd-Ends off = record { result = λ s. (ok (io.rd off s).0, (io.rd off s).1); reached = λ s. refl }

  pub wr-Ends : (off v : ℕ) → Ends (wr io off v)
  unfolding wr
  wr-Ends off v = record { result = λ s. (ok tt, io.wr off v s); reached = λ s. refl }

  pub udelay-Ends : (us : ℕ) → Ends (udelay io us)
  unfolding udelay
  udelay-Ends us = record { result = λ s. (ok tt, io.udelay us s); reached = λ s. refl }

  poll_at-Ends :
      (reg step : ℕ) (ready : ℕ → Bool) (timeout : ℕ)
      → 0 < step
      → timeout + step ≤ 2 ^ 32
      → (s : io.State)
      → (r : Result Code Bool × io.State) × (poll io reg ready timeout step
            (rounds_for io timeout step)
            0
            s
          ≡ some r)
  poll_at-Ends reg step ready timeout pos small s =
      let p =
        poll-IsPolled io reg step ready timeout (rounds_for io timeout step) 0 s pos small
          (omega arith) (omega (arith, rounds_enough timeout step pos)) in
      elim p.outcome [ inl (e, o) ↦ (_, o) | inr (e, late, o) ↦ (_, o) ]

  pub poll-Ends :
      (reg step : ℕ) (ready : ℕ → Bool) (timeout : ℕ)
      → 0 < step
      → timeout + step ≤ 2 ^ 32
      → Ends (poll io reg ready timeout step (rounds_for io timeout step) 0)
  poll-Ends reg step ready timeout pos small = record {
    result = λ s. (poll_at-Ends reg step ready timeout pos small s).0;
    reached = λ s. (poll_at-Ends reg step ready timeout pos small s).1;
  }

  pub wait_for-Ends :
      (reg step : ℕ) (ready : ℕ → Bool) (timeout : ℕ)
      → 0 < step
      → timeout + step ≤ 2 ^ 32
      → Ends (wait_for io reg ready timeout step)
  unfolding wait_for
  wait_for-Ends reg step ready timeout pos small =
      bind-Ends _ _ (poll-Ends reg step ready timeout pos small)
        λ came. if-Ends came _ _ (return-Ends tt) (fail-Ends _)

  -- The waits of falcon.c, in steps of 10 microseconds.
  tens-Ends :
      (reg : ℕ) (ready : ℕ → Bool) (timeout : ℕ)
      → timeout + 10 ≤ 2 ^ 32
      → Ends (wait_for io reg ready timeout 10)
  tens-Ends reg ready timeout small = wait_for-Ends reg 10 ready timeout (omega arith) small

  reset_engine-Ends : (base : ℕ) → Ends (reset_engine io base)
  unfolding reset_engine
  reset_engine-Ends base = bind-Ends _ _ (rd-Ends _) λ v. seq-Ends _ _ (wr-Ends _ _) (
      seq-Ends _ _ (udelay-Ends _)
        (bind-Ends _ _ (rd-Ends _) λ w. seq-Ends _ _ (wr-Ends _ _) (udelay-Ends _)))

  start-Ends : (base : ℕ) → Ends (start io base)
  unfolding start
  start-Ends base = bind-Ends _ _ (rd-Ends _) λ v. if-Ends _ _ _ (wr-Ends _ _) (wr-Ends _ _)

  given-Ends :
      (write : ℕ → Run io.State (Unit {0})) (value : Option ℕ)
      → ((v : ℕ) → Ends (write v))
      → Ends (write_given io write value)
  unfolding write_given
  given-Ends write none h = return-Ends tt
  given-Ends write (some v) h = h v

  mailbox0-Ends : (base v : ℕ) → Ends (write_mailbox0 io base v)
  unfolding write_mailbox0
  mailbox0-Ends base v = wr-Ends _ _

  mailbox1-Ends : (base v : ℕ) → Ends (write_mailbox1 io base v)
  unfolding write_mailbox1
  mailbox1-Ends base v = wr-Ends _ _

  read_mailbox0-Ends : (base : ℕ) → Ends (read_mailbox0 io base)
  unfolding read_mailbox0
  read_mailbox0-Ends base = rd-Ends _

  boot-Ends :
      (base : ℕ) (mbox0 mbox1 : Option ℕ) (timeout : ℕ)
      → timeout + 10 ≤ 2 ^ 32
      → Ends (boot io base mbox0 mbox1 timeout)
  unfolding boot
  boot-Ends base mbox0 mbox1 timeout small =
      seq-Ends _ _ (given-Ends _ mbox0 (mailbox0-Ends base)) (
        seq-Ends _ _ (given-Ends _ mbox1 (mailbox1-Ends base)) (
          seq-Ends _ _ (start-Ends base) (
            bind-Ends _ _ (poll-Ends _ 10 _ timeout (omega arith) small)
              λ halted. bind-Ends _ _ (read_mailbox0-Ends base) λ v. return-Ends _)))

  scrubbing-Ends :
      (base timeout : ℕ) → timeout + 10 ≤ 2 ^ 32 → Ends (wait_mem_scrubbing io base timeout)
  unfolding wait_mem_scrubbing
  scrubbing-Ends base timeout small = tens-Ends _ _ timeout small

  choose_falcon-Ends :
      (base timeout : ℕ) → timeout + 10 ≤ 2 ^ 32 → Ends (choose_falcon io base timeout)
  unfolding choose_falcon
  choose_falcon-Ends base timeout small = seq-Ends _ _ (wr-Ends _ _) (tens-Ends _ _ timeout small)

  select_core-Ends :
      (base timeout : ℕ) → timeout + 10 ≤ 2 ^ 32 → Ends (select_core_ga102 io base timeout)
  unfolding select_core_ga102
  select_core-Ends base timeout small =
      bind-Ends _ _ (rd-Ends _)
        λ v. if-Ends _ _ _ (choose_falcon-Ends base timeout small) (return-Ends tt)

  reset_ga102-Ends :
      (base falcon2_base boot0 timeout : ℕ)
      → timeout + 10 ≤ 2 ^ 32
      → Ends (reset_ga102 io base falcon2_base boot0 timeout)
  unfolding reset_ga102
  reset_ga102-Ends base falcon2_base boot0 timeout small = bind-Ends _ _ (rd-Ends _) λ ignored.
      bind-Ends _ _ (poll-Ends _ 10 _ 150 (omega arith) (omega arith)) λ ready.
        seq-Ends _ _ (reset_engine-Ends base) (
          seq-Ends _ _ (scrubbing-Ends base timeout small) (
            seq-Ends _ _ (select_core-Ends falcon2_base timeout small)
              (seq-Ends _ _ (scrubbing-Ends base timeout small) (wr-Ends _ _))))

  blocks-Ends :
      (base dst fb_src cmd timeout num i : ℕ)
      → timeout + 10 ≤ 2 ^ 32
      → Ends (dma_blocks io base dst fb_src cmd timeout num i)
  unfolding dma_blocks
  blocks-Ends base dst fb_src cmd timeout zero i small = return-Ends tt
  blocks-Ends base dst fb_src cmd timeout (suc num) i small = seq-Ends _ _ (wr-Ends _ _) (
      seq-Ends _ _ (wr-Ends _ _) (
        seq-Ends _ _ (wr-Ends _ _) (
          seq-Ends _ _ (tens-Ends _ _ timeout small)
            (blocks-Ends base dst fb_src cmd timeout num (i + 1) small))))

  dma_wr-Ends :
      (base dma_addr : ℕ) (mem : Memory) (t : Target) (timeout : ℕ)
      → timeout + 10 ≤ 2 ^ 32
      → Ends (dma_wr io base dma_addr mem t timeout)
  unfolding dma_wr
  dma_wr-Ends base dma_addr mem t timeout small = if-Ends _ _ _ (fail-Ends _) (
      seq-Ends _ _ (wr-Ends _ _)
        (seq-Ends _ _ (wr-Ends _ _) (blocks-Ends _ _ _ _ timeout _ 0 small)))

  dma_reset-Ends : (base : ℕ) → Ends (dma_reset io base)
  unfolding dma_reset
  dma_reset-Ends base = bind-Ends _ _ (rd-Ends _) λ v. seq-Ends _ _ (wr-Ends _ _) (wr-Ends _ _)

  brom-Ends : (base pkc mask id : ℕ) → Ends (program_brom_ga102 io base pkc mask id)
  unfolding program_brom_ga102
  brom-Ends base pkc mask id =
      seq-Ends _ _ (wr-Ends _ _)
        (seq-Ends _ _ (wr-Ends _ _) (seq-Ends _ _ (wr-Ends _ _) (wr-Ends _ _)))

  dma_load_ga102-Ends :
      (base falcon2_base dma_addr : ℕ) (imem data_mem : Target) (pkc mask id boot_addr timeout : ℕ)
      → timeout + 10 ≤ 2 ^ 32
      → Ends
          (dma_load_ga102 io base falcon2_base dma_addr imem data_mem pkc mask id boot_addr timeout)
  unfolding dma_load_ga102
  dma_load_ga102-Ends base falcon2_base dma_addr imem data_mem pkc mask id boot_addr timeout small =
      seq-Ends _ _ (dma_reset-Ends base) (
        bind-Ends _ _ (rd-Ends _) λ v. seq-Ends _ _ (wr-Ends _ _) (
          seq-Ends _ _ (dma_wr-Ends base dma_addr imem_secure imem timeout small) (
            seq-Ends _ _ (dma_wr-Ends base dma_addr dmem data_mem timeout small)
              (seq-Ends _ _ (brom-Ends falcon2_base pkc mask id) (wr-Ends _ _)))))

  riscv-Ends :
      (base falcon2_base timeout : ℕ)
      → timeout + 10 ≤ 2 ^ 32
      → Ends (gsp_reset_riscv io base falcon2_base timeout)
  unfolding gsp_reset_riscv
  riscv-Ends base falcon2_base timeout small = seq-Ends _ _ (reset_engine-Ends base) (
      seq-Ends _ _ (scrubbing-Ends base timeout small) (bind-Ends _ _ (rd-Ends _) λ v. wr-Ends _ _))

  gfw-Ends : (timeout : ℕ) → timeout + 1000 ≤ 2 ^ 32 → Ends (wait_gfw_boot_completed io timeout)
  unfolding wait_gfw_boot_completed
  gfw-Ends timeout small = wait_for-Ends _ 1000 _ timeout (omega arith) small

  -- With a timeout that leaves a millisecond below 2^32 microseconds, these come to an end from every
  -- state of the platform and whatever it answers: a start of a processor with the wait for its halt,
  -- the reset of a processor, the load of a program with parts of any length, the reset to RISC-V and
  -- the wait for the GFW.
  pub sequences_end :
      (base falcon2_base timeout : ℕ) (mbox0 mbox1 : Option ℕ) (boot0 dma_addr : ℕ)
      (imem data_mem : Target) (pkc mask id boot_addr : ℕ)
      → timeout + 1000 ≤ 2 ^ 32
      → Ends (boot io base mbox0 mbox1 timeout)
        × (Ends (reset_ga102 io base falcon2_base boot0 timeout)
            × (Ends (
                  dma_load_ga102 io base falcon2_base dma_addr imem data_mem pkc mask id boot_addr
                    timeout)
                × (Ends (gsp_reset_riscv io base falcon2_base timeout)
                    × Ends (wait_gfw_boot_completed io timeout))))
  sequences_end base falcon2_base timeout mbox0 mbox1 boot0 dma_addr imem data_mem pkc mask id
        boot_addr small =
      let tens : timeout + 10 ≤ 2 ^ 32 = omega (arith, small) in
      (
        boot-Ends base mbox0 mbox1 timeout tens,
        (
          reset_ga102-Ends base falcon2_base boot0 timeout tens,
          (
            dma_load_ga102-Ends base falcon2_base dma_addr imem data_mem pkc mask id boot_addr
                timeout tens,
            (riscv-Ends base falcon2_base timeout tens, gfw-Ends timeout small),
          ),
        ),
      )
