-- ===== src/Falcon/Writes.antt =====
-- The register writes of a transfer, in their order.
use rtxmac_oc.Base.{ℕ, zero, suc, ◌+◌, ◌*◌, ◌/◌, ◌%◌, ◌^◌, ◌<◌, ◌≡◌, refl, sym, arith, bit_and}
use rtxmac_oc.Base.{◌≢◌, ◌⊎◌, ◌==◌, List, [], ◌∷◌, ◌++◌}
use rtxmac_oc.Base.{Bool, true, false, leb, if◌then◌else◌, ◌+32◌, ◌>>>◌, u32, Option, none, some}
use rtxmac_oc.Base.{Result, ok, err, Bool-cases, inl, inr}
use mathlib.Core.List.{append_assoc, append-nil}
use rtxmac_oc.Base.Bits.Mask.{bit_and-low}
use rtxmac_oc.Mmio.{Mmio}
use rtxmac_oc.Falcon.Run.{
  Code, bad_state, Run, carry, ◌>>=◌, ◌>>◌, return, fail, wr, poll, wait_for,
}
use rtxmac_oc.Falcon.Load.{
  Memory, imem_secure, imem_nonsecure, dmem, is_imem, is_secure, Target, dma_source,
  transfer_command, dma_blocks, dma_wr,
}

-- A platform that notes the writes made to it.
abbrev pub recorded : Mmio → Mmio
recorded io = record {
  State = io.State × List (ℕ × ℕ);
  rd = λ off s. ((io.rd off s.0).0, ((io.rd off s.0).1, s.1));
  wr = λ off v s. (io.wr off v s.0, s.1 ++ ((off, v) ∷ []));
  udelay = λ us s. (io.udelay us s.0, s.1);
}

module _ (S : Type 0) {A : Type 0} where
  abbrev Noted : List (ℕ × ℕ) → Option (Result Code A × (S × List (ℕ × ℕ))) → Type 0
  Noted log none = Unit
  Noted log (some (ok a, (s, l))) = l ≡ log
  Noted log (some (err e, (s, l))) = Unit

  -- Whenever the sequence succeeds, it has made these writes, in this order, and no other.
  pub record Writes (run : Run (S × List (ℕ × ℕ)) A) (ws : List (ℕ × ℕ)) : Type 0 where
    pub noted : (s : S) (log : List (ℕ × ℕ)) → Noted (log ++ ws) (run (s, log))

module _ {S A B : Type 0} where
  carry-Noted :
      (r : Option (Result Code A × (S × List (ℕ × ℕ)))) (next : A → Run (S × List (ℕ × ℕ)) B)
      (log ws vs : List (ℕ × ℕ))
      → Noted S (log ++ ws) r
      → ((a : A) → Writes S (next a) vs)
      → Noted S (log ++ (ws ++ vs)) (carry r next)
  unfolding carry
  carry-Noted none next log ws vs n w = tt
  carry-Noted (some (ok a, (s, l))) next log ws vs n w =
      rw (n, ← append_assoc log ws vs) ((w a).noted s (log ++ ws))
  carry-Noted (some (err e, (s, l))) next log ws vs n w = tt

  bind-Writes :
      (run : Run (S × List (ℕ × ℕ)) A) (next : A → Run (S × List (ℕ × ℕ)) B) (ws vs : List (ℕ × ℕ))
      → Writes S run ws
      → ((a : A) → Writes S (next a) vs)
      → Writes S (run >>= next) (ws ++ vs)
  unfolding ◌>>=◌
  bind-Writes run next ws vs r n = record {
    noted = λ s log. carry-Noted (run (s, log)) next log ws vs (r.noted s log) n;
  }

module _ {S B : Type 0} where
  seq-Writes :
      (run : Run (S × List (ℕ × ℕ)) (Unit {0})) (next : Run (S × List (ℕ × ℕ)) B)
      (ws vs : List (ℕ × ℕ))
      → Writes S run ws
      → Writes S next vs
      → Writes S (run >> next) (ws ++ vs)
  unfolding ◌>>◌
  seq-Writes run next ws vs r n = bind-Writes run (λ u. next) ws vs r (λ u. n)

  if-Writes :
      (test : Bool) (x y : Run (S × List (ℕ × ℕ)) B) (ws : List (ℕ × ℕ))
      → Writes S x ws
      → Writes S y ws
      → Writes S (if test then x else y) ws
  if-Writes true x y ws hx hy = hx
  if-Writes false x y ws hx hy = hy

  return-Writes : (b : B) → Writes S (return b) []
  unfolding return
  return-Writes b = record { noted = λ s log. sym (append-nil log) }

  fail-Writes : (e : Code) (ws : List (ℕ × ℕ)) → Writes S (fail {A = B} e) ws
  unfolding fail
  fail-Writes e ws = record { noted = λ s log. tt }

-- A program's bytes are addressed from the start of the image, data from the bytes themselves.
abbrev pub source_of : Memory → ℕ → Target → ℕ × ℕ
source_of imem_secure dma_addr t = (dma_addr, t.src_start)
source_of imem_nonsecure dma_addr t = (dma_addr, t.src_start)
source_of dmem dma_addr t = ((dma_addr + t.src_start) % 2 ^ 64, 0)

-- Blocks of 256 bytes are size 6 in bits 10:8; bit 4 is the program memory, bit 2 its secure part.
abbrev pub command_of : Memory → ℕ
command_of imem_secure = 0x614
command_of imem_nonsecure = 0x610
command_of dmem = 0x600

dma_source-eq :
    (mem : Memory) (dma_addr : ℕ) (t : Target)
    → dma_source mem dma_addr t ≡ source_of mem dma_addr t
unfolding dma_source is_imem
dma_source-eq imem_secure dma_addr t = refl
dma_source-eq imem_nonsecure dma_addr t = refl
dma_source-eq dmem dma_addr t = refl

transfer_command-eq : (mem : Memory) → transfer_command mem ≡ command_of mem
unfolding transfer_command is_imem is_secure
transfer_command-eq imem_secure = refl
transfer_command-eq imem_nonsecure = refl
transfer_command-eq dmem = refl

module _ (io : Mmio) where
  wr-Writes : (off v : ℕ) → Writes io.State (wr (recorded io) off v) ((off, v) ∷ [])
  unfolding wr
  wr-Writes off v = record { noted = λ s log. refl }

  poll-Noted :
      (reg : ℕ) (ready : ℕ → Bool) (timeout step rounds waited : ℕ) (s : io.State)
      (log : List (ℕ × ℕ))
      → Noted io.State log (poll (recorded io) reg ready timeout step rounds waited (s, log))
  unfolding poll
  poll-Noted reg ready timeout step zero waited s log = tt
  poll-Noted reg ready timeout step (suc rounds) waited s log =
      elim (Bool-cases (ready (io.rd reg s).0)) [
        | inl e ↦ rw e refl
        | inr e ↦ elim (Bool-cases (leb timeout waited)) [
          | inl late ↦ rw (e, late) refl
          | inr early ↦
              rw (e, early)
                (poll-Noted reg ready timeout step rounds (waited +32 step)
                  (io.udelay step (io.rd reg s).1) log)
        ]
      ]

  wait_for-Writes :
      (reg : ℕ) (ready : ℕ → Bool) (timeout step : ℕ)
      → Writes io.State (wait_for (recorded io) reg ready timeout step) []
  unfolding wait_for
  wait_for-Writes reg ready timeout step =
      bind-Writes _ _ [] []
        (record {
          noted = λ s log. rw (append-nil log) (poll-Noted reg ready timeout step _ 0 s log);
        })
        λ came. if-Writes came _ _ [] (return-Writes tt) (fail-Writes _ [])

  -- The three writes that start each block, for `num` blocks from block `i` on.
  unfoldable pub block_writes : ℕ → ℕ → ℕ → ℕ → ℕ → ℕ → List (ℕ × ℕ)
  block_writes base dst fb_src cmd zero i = []
  block_writes base dst fb_src cmd (suc num) i =
      (base +32 0x114, (dst + i * 256) % 2 ^ 32)
      ∷ (base +32 0x11c, (fb_src + i * 256) % 2 ^ 32)
      ∷ (base +32 0x118, cmd)
      ∷ block_writes base dst fb_src cmd num (i + 1)

  blocks-Writes :
      (base dst fb_src cmd timeout num i : ℕ)
      → Writes io.State
          (dma_blocks (recorded io) base dst fb_src cmd timeout num i)
          (block_writes base dst fb_src cmd num i)
  unfolding dma_blocks block_writes
  blocks-Writes base dst fb_src cmd timeout zero i = return-Writes tt
  blocks-Writes base dst fb_src cmd timeout (suc num) i =
      let at_dst : dst +32 u32 (i * 256) ≡ (dst + i * 256) % 2 ^ 32 = omega arith in
      let at_src : fb_src +32 u32 (i * 256) ≡ (fb_src + i * 256) % 2 ^ 32 = omega arith in
      rw (← at_dst, ← at_src)
        (seq-Writes _ _ _ _ (wr-Writes _ _) (
          seq-Writes _ _ _ _ (wr-Writes _ _) (
            seq-Writes _ _ _ _ (wr-Writes _ _) (
              seq-Writes _ _ [] _ (wait_for-Writes _ _ timeout 10)
                (blocks-Writes base dst fb_src cmd timeout num (i + 1))))))

  -- On any platform, a transfer of less than 2^32 - 255 bytes whose source for the bus is no multiple
  -- of 256 is refused and touches nothing; one with such a source that succeeds has written the source
  -- address, that of the image for a program and that of the bytes for data, then for every block of
  -- 256 bytes in order its place in the processor's memory, its place at the source and the command of
  -- the memory, as many blocks as cover the bytes, and nothing else.
  pub dma_wr-Writes :
      (base dma_addr : ℕ) (mem : Memory) (t : Target) (timeout : ℕ)
      → t.len + 255 < 2 ^ 32
      → (((source_of mem dma_addr t).0 % 256 ≢ 0)
          × ((s : io.State × List (ℕ × ℕ))
              → dma_wr (recorded io) base dma_addr mem t timeout s ≡ some (err bad_state, s)))
        ⊎ (((source_of mem dma_addr t).0 % 256 ≡ 0)
            × Writes io.State (dma_wr (recorded io) base dma_addr mem t timeout) (
                (base +32 0x110, (source_of mem dma_addr t).0 / 2 ^ 8 % 2 ^ 32)
                ∷ (base +32 0x128, (source_of mem dma_addr t).0 / 2 ^ 40 % 2 ^ 9)
                ∷ block_writes base t.dst_start
                    (source_of mem dma_addr t).1
                    (command_of mem)
                    ((t.len + 255) / 256)
                    0))
  unfolding dma_wr fail
  dma_wr-Writes base dma_addr mem t timeout small =
      let start = (source_of mem dma_addr t).0 in
      let high : start / 2 ^ 40 % 2 ^ 9 ≡ u32 (bit_and (start >>> 40) 0x1ff) =
        omega (arith, bit_and-low 9 (start / 2 ^ 40)) in
      let num : t.len +32 255 ≡ t.len + 255 = omega arith in
      let source = dma_source-eq mem dma_addr t in
      elim (Bool-cases (start % 256 == 0)) [
        | inr crooked ↦ inl (ground (arith, crooked), λ s. rw (source, crooked) refl)
        | inl straight ↦ inr (
          ground (arith, straight),
          rw (source, straight, transfer_command-eq mem, high, num)
              (seq-Writes _ _ _ _ (wr-Writes _ _) (
                seq-Writes _ _ _ _ (wr-Writes _ _)
                  (blocks-Writes base t.dst_start _ _ timeout ((t.len + 255) / 256) 0))),
        )
      ]
