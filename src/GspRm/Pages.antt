-- ===== src/GspRm/Pages.antt =====
-- The list of pages that nv_gsp_rm_vram_memlist sends.
use rtxmac_oc.Base.{ℕ, ◌+◌, ◌*◌, ◌/◌, ◌%◌, ◌^◌, ◌≤◌, ◌<◌, ◌≡◌, refl, ◌∙◌, arith}
use rtxmac_oc.Base.{◌≢◌, ◌⊎◌, inl, inr, ltb, ◌==◌, ◌||◌, not, Bool-cases}
use rtxmac_oc.Base.{ap, List, [], ◌∷◌, get_or, bit_and, some, none, err, ◌+64◌, ◌+32◌, ◌>>>◌, u32}
use rtxmac_oc.Base.Bits.Mask.{bit_and-low}
use rtxmac_oc.Bytes.Defs.{Buffer, byte, word32, word64}
use rtxmac_oc.Bytes.Words.{word64-eq}
use rtxmac_oc.Bytes.Stores.{
  put32, put_words, word32-put_words, byte-put64, word64-put64, word32-put32, word32-put32_apart,
}
use rtxmac_oc.Bytes.Fill.{
  store64, store64-put64, word64-fill64_before, fill64, byte-fill64, word64-fill64,
}
use rtxmac_oc.GspRpc.Defs.{zero_bytes}
use rtxmac_oc.GspRpc.Message.{word32-same}
use rtxmac_oc.GspRm.Channel.{Gsp, Channel, bad_argument, bounds, rpc_call}
use rtxmac_oc.GspRm.Object.{Scratch, after_call}
use rtxmac_oc.GspRm.Memory.{memlist_request, memlist_of, rm_vram_memlist}

-- The client, the parent, the object, its class, the flags for contiguous pages in video memory, and
-- the descriptor's kind.
abbrev pub list_words : ℕ → ℕ → List ℕ
list_words h_client h_device = h_client ∷ h_device ∷ 0x00ca0001 ∷ 0x82 ∷ 0x40000200 ∷ 0 ∷ 6 ∷ []

-- The request names the object, gives its length and the number of its pages, twice, and its entries
-- are the numbers of consecutive pages.
pub record IsList (h_client h_device phys size : ℕ) (req : Buffer) : Type 0 where
  pub named :
      (k : ℕ) → k < 7 → word32 req (4 * k) ≡ get_or (list_words h_client h_device) k 0 % 2 ^ 32
  pub length_of : word64 req 32 ≡ size
  pub counted : word32 req 40 ≡ size / 4096
  pub described : word32 req 44 ≡ size / 4096 * 2 ^ 16
  pub entry : (i : ℕ) → i < size / 4096 → word64 req (48 + i * 8) ≡ phys / 4096 + i

-- A word before the loop's entries keeps its value.
word32-fill64_before :
    (m : Buffer) (f : ℕ → ℕ) (off left x : ℕ)
    → x + 4 ≤ off
    → word32 (fill64 m off f left 0) x ≡ word32 m x
word32-fill64_before m f off left x h =
    word32-same m (fill64 m off f left 0) x
      λ y low high. byte-fill64 off f m left 0 y (inl (omega (arith, h, high)))

word64-put32_before : (m : Buffer) (p d x : ℕ) → x + 8 ≤ p → word64 (put32 m p d) x ≡ word64 m x
word64-put32_before m p d x h = omega (
  arith,
  word64-eq (put32 m p d) x,
  word64-eq m x,
  word32-put32_apart m p d x (inl (omega (arith, h))),
  word32-put32_apart m p d (x + 4) (inl (omega (arith, h))),
)

module _ (req : Buffer) (h_client h_device phys size pages req_len : ℕ) where
  abbrev request : Buffer
  request = memlist_request req h_client h_device phys size pages req_len

  -- The words before the length.
  abbrev named_words : Buffer
  named_words = put_words (zero_bytes req 0 req_len) 0 (list_words h_client h_device)

  memlist_request-IsList :
      pages < 2 ^ 16
      → phys < 2 ^ 64
      → size < 2 ^ 64
      → pages ≡ size / 4096
      → IsList h_client h_device phys size request
  unfolding memlist_request put_words
  memlist_request-IsList few small word whole =
      let low = bit_and-low 16 pages in
      record {
        named = λ k h.
            word32-fill64_before _ (λ i. phys >>> 12 +64 i) 48 pages (4 * k) (omega (arith, h))
            ∙ word32-put32_apart _ 44 _ (4 * k) (inl (omega (arith, h)))
            ∙ word32-put32_apart _ 40 _ (4 * k) (inl (omega (arith, h)))
            ∙ word32-same named_words (store64 named_words 32 size) (4 * k) (λ y from to.
              ap (λ b. byte b y) (store64-put64 named_words 32 size)
              ∙ byte-put64 named_words 32 size y (inl (omega (arith, to, h))))
            ∙ (let plain : 0 + 4 * k ≡ 4 * k = omega arith in
                rw (← plain) (
                  word32-put_words (zero_bytes req 0 req_len) 0 (list_words h_client h_device) k
                    h));
        length_of =
            word64-fill64_before 48 (λ i. phys >>> 12 +64 i) _ pages 0 32 (omega arith)
            ∙ word64-put32_before _ 44 _ 32 (omega arith)
            ∙ word64-put32_before _ 40 pages 32 (omega arith)
            ∙ ap (λ b. word64 b 32) (store64-put64 named_words 32 size)
            ∙ word64-put64 named_words 32 size
            ∙ omega (arith, word);
        counted =
            word32-fill64_before _ (λ i. phys >>> 12 +64 i) 48 pages 40 (omega arith)
            ∙ word32-put32_apart _ 44 _ 40 (inl (omega arith))
            ∙ word32-put32 _ 40 pages
            ∙ omega (arith, few, whole);
        described =
            word32-fill64_before _ (λ i. phys >>> 12 +64 i) 48 pages 44 (omega arith)
            ∙ word32-put32 _ 44 _
            ∙ omega (arith, few, low, whole);
        entry = λ i h.
            word64-fill64 48 (λ j. phys >>> 12 +64 j) _ pages 0 i (omega arith)
              (omega (arith, h, whole))
            ∙ omega (arith, h, few, small, whole);
      }

module _ (gsp : Gsp) (held : Scratch) (h_client h_device phys size : ℕ)
    (ch : Channel gsp.State) where
  -- For a place below 2^64 and a size below 2^40 bytes, nv_gsp_rm_vram_memlist refuses an empty range,
  -- a place or a size that is not of whole pages, and more than 1018 pages; otherwise it asks the GSP
  -- for an object of exactly the size and the consecutive pages of the range.
  pub memlist-IsList :
      phys < 2 ^ 64
      → size < 2 ^ 40
      → (((size ≡ 0) ⊎ (size % 4096 ≢ 0) ⊎ (phys % 4096 ≢ 0))
          × (rm_vram_memlist gsp held h_client h_device phys size ch ≡ some (err bad_argument, ch)))
        ⊎ ((1018 < size / 4096)
            × (size % 4096 ≡ 0)
            × (phys % 4096 ≡ 0)
            × (rm_vram_memlist gsp held h_client h_device phys size ch ≡ some (err bounds, ch)))
        ⊎ ((0 < size)
            × (size % 4096 ≡ 0)
            × (phys % 4096 ≡ 0)
            × (size / 4096 ≤ 1018)
            × (req : Buffer) × IsList h_client h_device phys size req
            × (rm_vram_memlist gsp held h_client h_device phys size ch
                ≡ after_call gsp memlist_of
                    (rpc_call gsp 4 (some req) (48 + size / 4096 * 8) none 0 4000000 ch)))
  unfolding rm_vram_memlist
  memlist-IsList at few =
      let in_size = bit_and-low 12 size in
      let in_phys = bit_and-low 12 phys in
      let pages : u32 (size >>> 12) ≡ size / 4096 = omega (arith, few) in
      let len : 48 +32 u32 (size / 4096 * 8) ≡ 48 + size / 4096 * 8 = omega (arith, few) in
      elim (Bool-cases
        ((size == 0) || not (bit_and size 0xfff == 0) || not (bit_and phys 0xfff == 0))) [
          | inl bad ↦ inl (ground (arith, bad, in_size, in_phys), rw bad refl)
          | inr good ↦ elim (Bool-cases (ltb 8192 (48 + size / 4096 * 8))) [
            | inl long ↦ inr (
                inl (
                  ground (arith, long),
                  ground (arith, good, in_size),
                  ground (arith, good, in_phys),
                  rw (good, pages, len, long) refl,
                ))
            | inr fits ↦
                let few_pages : size / 4096 < 2 ^ 16 = ground (arith, fits) in
                inr (
                  inr (
                    ground (arith, good),
                    ground (arith, good, in_size),
                    ground (arith, good, in_phys),
                    ground (arith, fits),
                    memlist_request held.req h_client h_device phys size (size / 4096)
                        (48 + size / 4096 * 8),
                    memlist_request-IsList held.req h_client h_device phys size (size / 4096)
                        (48 + size / 4096 * 8) few_pages at (omega (arith, few)) refl,
                    rw (good, pages, len, fits) refl,
                  ))
          ]
        ]
