-- ===== src/GspExec/Queue.antt =====
-- What stands in VRAM when the doorbell rings.
use rtxmac_oc.Base.{ℕ, zero, suc, ◌+◌, ◌*◌, ◌/◌, ◌%◌, ◌^◌, ◌≤◌, ◌<◌, ◌≡◌, refl, ap, ◌∙◌, arith}
use rtxmac_oc.Base.{◌≢◌, ◌⊎◌, inl, ◌==◌, if◌then◌else◌}
use rtxmac_oc.Base.{u32, ◌+32◌, ◌+64◌, List, [], ◌∷◌, length, get_or}
use native.Mathlib.Nat as Nat
use rtxmac_oc.Mmio.{Mmio}
use rtxmac_oc.Gmmu.Pramin.{Bus, pramin_wr32}
use rtxmac_oc.Gmmu.Window.{Window, IsAimed, word, wr32_lem, wr32-IsAimed}
use rtxmac_oc.GspFifo.Pushbuffer.{gpfifo_entry}
use rtxmac_oc.GspFifo.Copy.{gpfifo_entry-eq}
use rtxmac_oc.GspExec.Defs.{GpuContext, write_words, next_put, queue_words}

-- Values of 32 bits.
pub record AreWords (ws : List ℕ) : Type 0 where
  pub each : (j : ℕ) → j < length ws → get_or ws j 0 < 2 ^ 32

-- The places that a copy uses lie below 2^40, at words, apart from one another.
pub record IsPlaced (gpu : GpuContext) (nd : ℕ) : Type 0 where
  pub words :
      (gpu.sem_phys % 4 ≡ 0)
      × (gpu.pb_phys % 4 ≡ 0)
      × (gpu.ring_phys % 4 ≡ 0)
      × (gpu.userd_phys % 4 ≡ 0)
  pub below :
      (gpu.sem_phys + 4 ≤ 2 ^ 40)
      × (gpu.pb_phys + nd * 4 ≤ 2 ^ 40)
      × (gpu.ring_phys + gpu.ring_entries * 8 ≤ 2 ^ 40)
      × (gpu.userd_phys + 0x90 ≤ 2 ^ 40)
  pub entries : (0 < gpu.ring_entries) × (gpu.ring_entries < 2 ^ 29)
  pub sem_pb : (gpu.sem_phys < gpu.pb_phys) ⊎ (gpu.pb_phys + nd * 4 ≤ gpu.sem_phys)
  pub sem_ring :
      (gpu.sem_phys < gpu.ring_phys) ⊎ (gpu.ring_phys + gpu.ring_entries * 8 ≤ gpu.sem_phys)
  pub sem_userd : gpu.sem_phys ≢ gpu.userd_phys + 0x8c
  pub pb_ring :
      (gpu.pb_phys + nd * 4 ≤ gpu.ring_phys) ⊎ (gpu.ring_phys + gpu.ring_entries * 8 ≤ gpu.pb_phys)
  pub pb_userd :
      (gpu.userd_phys + 0x8c < gpu.pb_phys) ⊎ (gpu.pb_phys + nd * 4 ≤ gpu.userd_phys + 0x8c)
  pub ring_userd :
      (gpu.userd_phys + 0x8c < gpu.ring_phys)
      ⊎ (gpu.ring_phys + gpu.ring_entries * 8 ≤ gpu.userd_phys + 0x8c)

module _ (io : Mmio) (w : Window io) where
  record AreWritten (phys i : ℕ) (ws : List ℕ) (b t : Bus io.State) : Type 0 where
    aimed : IsAimed io w t
    written : (j : ℕ) → j < length ws → word io w t (phys + (i + j) * 4) ≡ get_or ws j 0
    kept :
        (x : ℕ)
        → x % 4 ≡ 0
        → (x < phys + i * 4) ⊎ (phys + (i + length ws) * 4 ≤ x)
        → word io w t x ≡ word io w b x

  write_words-AreWritten :
      (phys i : ℕ) (ws : List ℕ) (b : Bus io.State)
      → phys % 4 ≡ 0
      → phys + (i + length ws) * 4 ≤ 2 ^ 40
      → AreWords ws
      → IsAimed io w b
      → AreWritten phys i ws b (write_words io phys ws i b)
  unfolding write_words
  write_words-AreWritten phys i [] b q h small a = record {
    aimed = a;
    written = λ j lt. elim lt [ ];
    kept = λ x hx out. refl;
  }
  write_words-AreWritten phys i (v ∷ ws) b q h small a =
      let there : phys +64 i * 4 ≡ phys + i * 4 = omega (arith, h) in
      let m = pramin_wr32 io (phys + i * 4) v b in
      let r =
        write_words-AreWritten phys (i + 1) ws m q (omega (arith, h))
          (record { each = λ j lt. small.each (suc j) (omega (arith, lt)) })
          (wr32-IsAimed io w (phys + i * 4) v b (omega (arith, h)) a) in
      let one = λ (x : ℕ) (hx : x % 4 ≡ 0).
        wr32_lem io w (phys + i * 4) v x b (omega (arith, h)) (omega (arith, q))
          (small.each 0 (omega arith)) hx a in
      rw there (record {
        aimed = r.aimed;
        written = all m r one;
        kept = λ x hx out. r.kept x hx (ground (arith, out)) ∙ one x hx ∙ ground (arith, out);
      })
    where
      all :
          (m : Bus io.State)
          → AreWritten phys (i + 1) ws m (write_words io phys ws (i + 1) m)
          → ((x : ℕ) → x % 4 ≡ 0 → word io w m x ≡ (if phys + i * 4 == x then v else word io w b x))
          → (j : ℕ) → j < length (v ∷ ws)
          → word io w (write_words io phys ws (i + 1) m) (phys + (i + j) * 4) ≡ get_or (v ∷ ws) j 0
      all m r one zero lt =
          r.kept (phys + (i + 0) * 4) (omega (arith, q)) (inl (omega arith))
          ∙ one (phys + (i + 0) * 4) (omega (arith, q))
          ∙ ground arith
      all m r one (suc j) lt =
          let at : i + suc j ≡ i + 1 + j = omega arith in rw at (r.written j (omega (arith, lt)))

  -- The place of the next entry in the ring.
  abbrev pub entry_place : GpuContext → ℕ
  entry_place gpu = gpu.ring_phys + gpu.gp_put % gpu.ring_entries * 8

  -- Everything is in place for the GPU, and no other word has changed.
  pub record IsQueued (gpu : GpuContext) (pb : List ℕ) (b t : Bus io.State) : Type 0 where
    pub aimed : IsAimed io w t
    pub semaphore : word io w t gpu.sem_phys ≡ 0
    pub pushbuffer : (j : ℕ) → j < length pb → word io w t (gpu.pb_phys + j * 4) ≡ get_or pb j 0
    pub entry :
        (word io w t (entry_place gpu) ≡ (gpfifo_entry gpu.pb_va (length pb)).0)
        × (word io w t (entry_place gpu + 4) ≡ (gpfifo_entry gpu.pb_va (length pb)).1)
    pub put : word io w t (gpu.userd_phys + 0x8c) ≡ (gpu.gp_put + 1) % gpu.ring_entries
    pub kept :
        (x : ℕ)
        → x % 4 ≡ 0
        → x ≢ gpu.sem_phys
        → (x < gpu.pb_phys) ⊎ (gpu.pb_phys + length pb * 4 ≤ x)
        → (x < entry_place gpu) ⊎ (entry_place gpu + 8 ≤ x)
        → x ≢ gpu.userd_phys + 0x8c
        → word io w t x ≡ word io w b x

  module _ (gpu : GpuContext) (pb : List ℕ) (b : Bus io.State) (placed : IsPlaced gpu (length pb))
      (small : AreWords pb) (va : gpu.pb_va < 2 ^ 40) (whole : gpu.pb_va % 4 ≡ 0)
      (few : length pb < 2 ^ 21) (put_small : gpu.gp_put < gpu.ring_entries)
      (a : IsAimed io w b) where
    abbrev cleared : Bus io.State
    cleared = pramin_wr32 io gpu.sem_phys 0 b

    abbrev body : Bus io.State
    body = write_words io gpu.pb_phys pb 0 cleared

    body-AreWritten : AreWritten gpu.pb_phys 0 pb cleared body
    body-AreWritten =
        write_words-AreWritten gpu.pb_phys 0 pb cleared placed.words.1
          (omega (arith, placed.below.1)) small
          (wr32-IsAimed io w gpu.sem_phys 0 b (omega (arith, placed.below.0)) a)

    abbrev entry_words : ℕ × ℕ
    entry_words = (gpu.pb_va % 2 ^ 32, length pb * 2 ^ 10 + gpu.pb_va / 2 ^ 32)

    abbrev at_entry : Bus io.State
    at_entry =
        pramin_wr32 io (entry_place gpu + 4) entry_words.1
          (pramin_wr32 io (entry_place gpu) entry_words.0 body)

    abbrev final : Bus io.State
    final = pramin_wr32 io (gpu.userd_phys + 0x8c) ((gpu.gp_put + 1) % gpu.ring_entries) at_entry

    slot_inside :
        (gpu.gp_put % gpu.ring_entries ≡ gpu.gp_put)
        × (entry_place gpu + 8 ≤ gpu.ring_phys + gpu.ring_entries * 8)
        × (entry_place gpu % 4 ≡ 0)
    slot_inside =
        let e : gpu.gp_put % gpu.ring_entries ≡ gpu.gp_put = Nat.mod-eq_of_lt put_small in
        rw e (refl, omega (arith, put_small), omega (arith, placed.words.2))

    queue-eq : queue_words io gpu pb b ≡ final
    unfolding queue_words next_put
    queue-eq =
        let s = slot_inside in
        let n = placed.entries in
        let slot : gpu.ring_phys +64 u32 (gpu.gp_put % gpu.ring_entries * 8) ≡ entry_place gpu =
          omega (arith, s.1, n.1, placed.below.2, put_small, s.0) in
        let next : entry_place gpu +64 4 ≡ entry_place gpu + 4 =
          omega (arith, s.1, placed.below.2) in
        let put : gpu.userd_phys +64 0x8c ≡ gpu.userd_phys + 0x8c = omega (arith, placed.below.3) in
        let sum : gpu.gp_put +32 1 ≡ gpu.gp_put + 1 = omega (arith, put_small, n.1) in
        rw (slot, next, put, sum, gpfifo_entry-eq gpu.pb_va (length pb) va whole few) refl

    words_small : ((gpu.gp_put + 1) % gpu.ring_entries < 2 ^ 32) × (entry_words.1 < 2 ^ 32)
    words_small =
        let n = placed.entries in
        let r = Nat.mod-lt (gpu.gp_put + 1) n.0 in (omega (arith, r, n.1), omega (arith, few, va))

    -- A word of the final state: that of the last write that meets it.
    final_word :
        (x : ℕ)
        → x % 4 ≡ 0
        → word io w final x ≡ (
            if gpu.userd_phys + 0x8c == x
            then (gpu.gp_put + 1) % gpu.ring_entries
            else if entry_place gpu + 4 == x
            then entry_words.1
            else if entry_place gpu == x
            then entry_words.0
            else word io w body x)
    final_word x hx =
        let s = slot_inside in
        let a2 = body-AreWritten.aimed in
        let a3 =
          wr32-IsAimed io w (entry_place gpu) entry_words.0 body
            (omega (arith, s.1, placed.below.2)) a2 in
        let m3 = pramin_wr32 io (entry_place gpu) entry_words.0 body in
        let a4 =
          wr32-IsAimed io w (entry_place gpu + 4) entry_words.1 m3
            (omega (arith, s.1, placed.below.2)) a3 in
        let big = words_small in
        let first =
          wr32_lem io w (gpu.userd_phys + 0x8c) ((gpu.gp_put + 1) % gpu.ring_entries) x at_entry
            (omega (arith, placed.below.3)) (omega (arith, placed.words.3)) big.0 hx a4 in
        let second =
          wr32_lem io w (entry_place gpu + 4) entry_words.1 x m3
            (omega (arith, s.1, placed.below.2)) (omega (arith, s.2)) big.1 hx a3 in
        let third =
          wr32_lem io w (entry_place gpu) entry_words.0 x body (omega (arith, s.1, placed.below.2))
            s.2 (omega arith) hx a2 in
        rw (first, second, third) refl

    pub queue-IsQueued : IsQueued gpu pb b (queue_words io gpu pb b)
    queue-IsQueued =
        let s = slot_inside in
        let n = placed.entries in
        let cleared_word = λ (x : ℕ) (hx : x % 4 ≡ 0).
          wr32_lem io w gpu.sem_phys 0 x b (omega (arith, placed.below.0)) placed.words.0
            (omega arith) hx a in
        let e = gpfifo_entry-eq gpu.pb_va (length pb) va whole few in
        let e0 : (gpfifo_entry gpu.pb_va (length pb)).0 ≡ entry_words.0 = ap (λ p. p.0) e in
        let e1 : (gpfifo_entry gpu.pb_va (length pb)).1 ≡ entry_words.1 = ap (λ p. p.1) e in
        rw queue-eq (record {
          aimed = wr32-IsAimed io w _ _ at_entry (omega (arith, placed.below.3)) (
              wr32-IsAimed io w _ _ _ (omega (arith, s.1, placed.below.2)) (
                wr32-IsAimed io w _ _ body (omega (arith, s.1, placed.below.2))
                  body-AreWritten.aimed));
          semaphore =
              final_word gpu.sem_phys placed.words.0
              ∙ ground (
                arith,
                s.1,
                s.2,
                placed.sem_userd,
                placed.sem_ring,
                body-AreWritten.kept gpu.sem_phys placed.words.0 (ground (arith, placed.sem_pb)),
                cleared_word gpu.sem_phys placed.words.0,
              );
          pushbuffer = λ j h.
              let at : gpu.pb_phys + (0 + j) * 4 ≡ gpu.pb_phys + j * 4 = omega arith in
              let there : word io w body (gpu.pb_phys + j * 4) ≡ get_or pb j 0 =
                rw (← at) (body-AreWritten.written j h) in
              final_word (gpu.pb_phys + j * 4) (omega (arith, placed.words.1))
              ∙ ground (arith, h, s.1, placed.pb_userd, placed.pb_ring, there);
          entry = (
            final_word (entry_place gpu) s.2 ∙ ground (arith, s.1, placed.ring_userd, e0),
            final_word (entry_place gpu + 4) (omega (arith, s.2))
                ∙ ground (arith, s.1, placed.ring_userd, e1),
          );
          put = final_word (gpu.userd_phys + 0x8c) (omega (arith, placed.words.3)) ∙ ground arith;
          kept = λ x hx h1 h2 h3 h4.
              final_word x hx
              ∙ ground (
                arith,
                h1,
                h2,
                h3,
                h4,
                s.2,
                body-AreWritten.kept x hx (ground (arith, h2)),
                cleared_word x hx,
              );
        })
