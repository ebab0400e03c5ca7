-- ===== src/GspRpc/Shared.antt =====
-- The shared memory after its set-up.
use rtxmac_oc.Base.{ℕ, ◌+◌, ◌*◌, ◌%◌, ◌^◌, ◌≤◌, ◌<◌, ◌≡◌, refl, sym, ap, ◌∙◌, arith, ◌⊎◌, inl}
use rtxmac_oc.Base.{inr, List, [], ◌∷◌, get_or}
use rtxmac_oc.Base.{ok, err, ltb, Bool-cases, ◌+64◌}
use rtxmac_oc.Bytes.Defs.{Buffer, byte, word32, word64}
use rtxmac_oc.Bytes.Words.{word64-eq}
use rtxmac_oc.Bytes.Stores.{
  put_words, byte-put_words, word32-put_words, word32-put_words_apart, word32-put_words_before,
}
use rtxmac_oc.Bytes.Fill.{fill, byte-fill, byte-fill_outside, fill64, byte-fill64, word64-fill64}
use rtxmac_oc.GspRpc.Defs.{bounds, ShmLayout, shm_compute, zero_bytes, init_queue_hdr, shm_init}

-- The header of an empty queue.
abbrev pub header_words : List ℕ
header_words = 0 ∷ 0x40000 ∷ 0x1000 ∷ 63 ∷ 0 ∷ 1 ∷ 32 ∷ 0x1000 ∷ 0 ∷ []

-- One page of entries for 129 pages, then the two queues of 256 KiB.
abbrev pub shared_layout : ShmLayout
shared_layout = record {
  ptes_nr = 129;
  ptes_size = 0x1000;
  cmdq_off = 0x1000;
  msgq_off = 0x41000;
  total_size = 0x81000;
  msg_count = 63;
}

compute_lem : shm_compute ≡ shared_layout
unfolding shm_compute
compute_lem = refl

header-eq : (m : Buffer) (q : ℕ) → init_queue_hdr m q 63 ≡ put_words m q header_words
unfolding init_queue_hdr put_words
header-eq m q = grind arith

-- The entries of the table name the pages of the region in order, both queues have the header of an
-- empty queue, the rest of the region is clear and what follows it is as it was.
pub record IsShared (buf : Buffer) (dma_base : ℕ) (m : Buffer) : Type 0 where
  pub table : (i : ℕ) → i < 129 → word64 m (i * 8) ≡ (dma_base + i * 4096) % 2 ^ 64
  pub commands : (k : ℕ) → k < 9 → word32 m (0x1000 + 4 * k) ≡ get_or header_words k 0 % 2 ^ 32
  pub messages : (k : ℕ) → k < 9 → word32 m (0x41000 + 4 * k) ≡ get_or header_words k 0 % 2 ^ 32
  pub clear :
      (x : ℕ)
      → 129 * 8 ≤ x
      → x < 0x81000
      → (x < 0x1000) ⊎ (0x1000 + 36 ≤ x)
      → (x < 0x41000) ⊎ (0x41000 + 36 ≤ x)
      → byte m x ≡ 0
  pub kept : (x : ℕ) → 0x81000 ≤ x → byte m x ≡ byte buf x

module _ (buf : Buffer) (dma_base : ℕ) where
  abbrev entry : ℕ → ℕ
  entry i = dma_base +64 i * 4096

  abbrev cleared : Buffer
  cleared = zero_bytes buf 0 0x81000

  abbrev tabled : Buffer
  tabled = fill64 cleared 0 entry 129 0

  abbrev first_queue : Buffer
  first_queue = put_words tabled 0x1000 header_words

  abbrev both_queues : Buffer
  both_queues = put_words first_queue 0x41000 header_words

  zero_inside : (x : ℕ) → x < 0x81000 → byte cleared x ≡ 0
  unfolding zero_bytes
  zero_inside x h =
      let at : 0 + x ≡ x = omega arith in
      sym (ap (byte (fill buf 0 (λ i. 0) 0x81000 0)) at)
      ∙ byte-fill 0 (λ i. 0) buf 0x81000 0 x (omega arith) (omega (arith, h))

  zero_outside : (x : ℕ) → 0x81000 ≤ x → byte cleared x ≡ byte buf x
  unfolding zero_bytes
  zero_outside x h = byte-fill_outside 0 (λ i. 0) buf 0x81000 0 x (inr (omega (arith, h)))

  low_word : (x : ℕ) → x + 4 ≤ 0x1000 → word32 both_queues x ≡ word32 tabled x
  low_word x h =
      word32-put_words_before first_queue 0x41000 header_words x (omega (arith, h))
      ∙ word32-put_words_before tabled 0x1000 header_words x h

  outside :
      (x : ℕ)
      → 129 * 8 ≤ x
      → (x < 0x1000) ⊎ (0x1000 + 36 ≤ x)
      → (x < 0x41000) ⊎ (0x41000 + 36 ≤ x)
      → byte both_queues x ≡ byte cleared x
  outside x low a b =
      byte-put_words first_queue 0x41000 header_words x b
      ∙ byte-put_words tabled 0x1000 header_words x a
      ∙ byte-fill64 0 entry cleared 129 0 x (inr (omega (arith, low)))

  queues-IsShared : IsShared buf dma_base both_queues
  queues-IsShared = record {
    table = λ i h.
        let low = low_word (i * 8) (omega (arith, h)) in
        let high = low_word (i * 8 + 4) (omega (arith, h)) in
        let at : 0 + i * 8 ≡ i * 8 = omega arith in
        let filled : word64 tabled (i * 8) ≡ (dma_base + i * 4096) % 2 ^ 64 =
          sym (ap (word64 tabled) at)
          ∙ word64-fill64 0 entry cleared 129 0 i (omega arith) (omega (arith, h))
          ∙ omega arith in
        omega (arith, word64-eq both_queues (i * 8), word64-eq tabled (i * 8), low, high, filled);
    commands = λ k h.
        word32-put_words_apart first_queue 0x41000 header_words (0x1000 + 4 * k)
          (inl (omega (arith, h)))
        ∙ word32-put_words tabled 0x1000 header_words k h;
    messages = λ k h. word32-put_words first_queue 0x41000 header_words k h;
    clear = λ x low high a b. outside x low a b ∙ zero_inside x high;
    kept = λ x h.
        outside x (omega (arith, h)) (inr (omega (arith, h))) (inr (omega (arith, h)))
        ∙ zero_outside x h;
  }

  -- nv_gsp_shm_init refuses a buffer shorter than the region of 129 pages and sets the region up in
  -- any other: a table entry for each page, two empty queues behind the table, zeros elsewhere, and
  -- nothing behind the region.
  pub shm_init-IsShared :
      ((buf.len < 0x81000) × (shm_init buf dma_base ≡ err bounds))
      ⊎ ((0x81000 ≤ buf.len)
          × (m : Buffer) × (shm_init buf dma_base ≡ ok (m, shared_layout))
          × IsShared buf dma_base m)
  unfolding shm_init
  shm_init-IsShared = elim (Bool-cases (ltb buf.len 0x81000)) [
    | inl short ↦ inl (ground (arith, short), rw (compute_lem, short) refl)
    | inr long ↦ inr (
      ground (arith, long),
      both_queues,
      rw (compute_lem, long) (rw (header-eq tabled 0x1000, header-eq first_queue 0x41000) refl),
      queues-IsShared,
    )
  ]
