-- ===== src/Fwsec/Patch.antt =====
-- The FRTS command in the image.
use rtxmac_oc.Base.{ℕ, zero, suc, ◌+◌, ◌*◌, ◌%◌, ◌^◌, ◌≤◌, ◌<◌, ◌≡◌, ◌≢◌, refl, sym, ap, ◌∙◌}
use rtxmac_oc.Base.{arith, ◌⊎◌, inl}
use rtxmac_oc.Base.{==_iff, List, [], ◌∷◌, get_or, u32, ◌>>>◌}
use rtxmac_oc.Bytes.Defs.{Buffer, byte, word32}
use rtxmac_oc.Bytes.Ensures.{Ensures, Ensures-weaken, guard-Ensures, if-Ensures, bind-Ensures}
use rtxmac_oc.Bytes.Ensures.{ld8_value-Ensures, ld32_value-Ensures, fits-le}
use rtxmac_oc.Bytes.Stores.{put32, put64, len-put32, byte-put32, word32-put32, word32-put32_apart}
use rtxmac_oc.Bytes.Stores.{put_words, len-put_words, byte-put_words, word32-put_words}
use rtxmac_oc.Bytes.Stores.{word32-put_words_apart, st32-Ensures, st64-Ensures}
use rtxmac_oc.Bytes.Stores.{st32_value-Ensures}
use rtxmac_oc.Fwsec.Defs.{Error, Desc, put_command, patch_mapper, patch_entries, patch_frts}

-- ReadVbios {1, 24, 0, 0, 2} and FrtsRegion {1, 20, address, size, framebuffer}, the address and the
-- size in pages of 4 KiB.
abbrev pub command_words : ℕ → ℕ → List ℕ
command_words addr size =
    1 ∷ 24 ∷ 0 ∷ 0 ∷ 0 ∷ 2 ∷ 1 ∷ 20 ∷ u32 (addr >>> 12) ∷ u32 (size >>> 12) ∷ 2 ∷ []

put_command-Ensures :
    (m : Buffer) (rv addr size : ℕ)
    → rv + 44 ≤ m.len
    → Ensures {E = Error}
        (λ m'. m' ≡ put_words m rv (command_words addr size))
        (put_command m rv addr size)
unfolding put_command put_words put64
put_command-Ensures m rv addr size h =
    let P = λ (m' : Buffer). m' ≡ put_words m rv (command_words addr size) in
    st32-Ensures P m rv _ _ (omega arith) λ m0 e0 l0.
      st32-Ensures P m0 (rv + 4) _ _ (omega arith) λ m1 e1 l1.
        st64-Ensures P m1 (rv + 8) _ _ (omega arith) λ m2 e2 l2.
          st32-Ensures P m2 (rv + 16) _ _ (omega arith) λ m3 e3 l3.
            st32-Ensures P m3 (rv + 20) _ _ (omega arith) λ m4 e4 l4.
              st32-Ensures P m4 (rv + 24) _ _ (omega arith) λ m5 e5 l5.
                st32-Ensures P m5 (rv + 24 + 4) _ _ (omega arith) λ m6 e6 l6.
                  st32-Ensures P m6 (rv + 24 + 8) _ _ (omega arith) λ m7 e7 l7.
                    st32-Ensures P m7 (rv + 24 + 12) _ _ (omega arith) λ m8 e8 l8.
                      Ensures-weaken _ (st32_value-Ensures m8 (rv + 24 + 16) 2 (omega arith))
                        λ m9 e9. e9 ∙ rw (e8, e7, e6, e5, e4, e3, e2, e1, e0) (grind arith)

module _ (ucode : Buffer) (d : Desc) (addr size : ℕ) where
  -- Where the mapper at `mapper` has its command buffer.
  abbrev pub command_at : ℕ → ℕ
  command_at mapper = d.imem_load_size + word32 ucode (mapper + 8)

  -- The image with the command in the mapper at `mapper`.
  pub record IsFilled (mapper : ℕ) (m : Buffer) : Type 0 where
    pub mapper_inside : mapper + 48 ≤ ucode.len
    pub command_inside : command_at mapper + 44 ≤ ucode.len
    pub filled :
        m ≡ put_words (put32 ucode (mapper + 44) 0x15) (command_at mapper) (command_words addr size)

  mapper-Ensures :
      (dmem_base : ℕ)
      → Ensures (IsFilled (d.imem_load_size + dmem_base)) (patch_mapper ucode d dmem_base addr size)
  unfolding patch_mapper
  mapper-Ensures dmem_base =
      let mapper = d.imem_load_size + dmem_base in
      guard-Ensures _ _ _ _ λ inside.
        let mapper_fits = fits-le mapper 48 ucode.len inside in
        st32-Ensures _ ucode (mapper + 44) _ _ (omega arith) λ m e l.
          bind-Ensures _ _ _ _ (ld32_value-Ensures m (mapper + 8) (omega arith)) λ v ev.
            guard-Ensures _ _ _ _ λ fit.
              let command_fits = fits-le (d.imem_load_size + v) 44 ucode.len fit in
              let same : v ≡ word32 ucode (mapper + 8) =
                ev
                ∙ ap (λ b. word32 b (mapper + 8)) e
                ∙ word32-put32_apart ucode (mapper + 44) 0x15 (mapper + 8) (inl (omega arith)) in
              Ensures-weaken _
                (put_command-Ensures m (d.imem_load_size + v) addr size (omega (arith, l)))
                λ m' e'. record {
                  mapper_inside = mapper_fits;
                  command_inside = omega (arith, same);
                  filled = e' ∙ rw (same, e) refl;
                }

  -- The first of `n` entries from `off` on that is the DMEM mapper's, and the image with its command.
  pub record IsFirst (step n off : ℕ) (m : Buffer) : Type 0 where
    pub index : ℕ
    pub listed : index < n
    pub before : (j : ℕ) → j < index → word32 ucode (off + j * step) ≢ 4
    pub mapper_entry : word32 ucode (off + index * step) ≡ 4
    pub entry_inside : off + index * step + 8 ≤ ucode.len
    pub mapper_filled : IsFilled (d.imem_load_size + word32 ucode (off + index * step + 4)) m

  entries-Ensures :
      (step n off : ℕ) → Ensures (IsFirst step n off) (patch_entries ucode d addr size step n off)
  unfolding patch_entries
  entries-Ensures step zero off = record { holds = tt }
  entries-Ensures step (suc n) off = guard-Ensures _ _ _ _ λ inside.
      let fit = fits-le off 8 ucode.len inside in
      bind-Ensures _ _ _ _ (ld32_value-Ensures ucode off (omega arith)) λ id e.
        bind-Ensures _ _ _ _ (ld32_value-Ensures ucode (off + 4) (omega arith)) λ base eb.
          if-Ensures _ _ _ _
            (λ other. Ensures-weaken _ (entries-Ensures step n (off + step)) λ m f. record {
              index = suc f.index;
              listed = omega (arith, f.listed);
              before = λ j lt. earlier j f.index f.before (λ is. ground (arith, other, is, e)) lt;
              mapper_entry = rw (shift f.index) f.mapper_entry;
              entry_inside = rw (shift f.index) f.entry_inside;
              mapper_filled = rw (shift f.index) f.mapper_filled;
            })
            (λ mine. Ensures-weaken _ (mapper-Ensures base) λ m f.
              let here : off + 0 * step ≡ off = omega arith in
              record {
                index = 0;
                listed = omega arith;
                before = λ j lt. absurd (omega (arith, lt));
                mapper_entry = rw (here, sym e) (ground (arith, mine));
                entry_inside = omega (arith, fit);
                mapper_filled = rw (here, sym eb) f;
              })
    where
      shift : (i : ℕ) → off + suc i * step ≡ off + step + i * step
      shift i = omega arith

      earlier :
          (j i : ℕ)
          → ((j' : ℕ) → j' < i → word32 ucode (off + step + j' * step) ≢ 4)
          → word32 ucode off ≢ 4
          → j < suc i
          → word32 ucode (off + j * step) ≢ 4
      earlier zero i before first lt =
          let here : off + 0 * step ≡ off = omega arith in rw here first
      earlier (suc j) i before first lt = rw (shift j) (before j (omega (arith, lt)))

  -- Where the application interface table starts, and its first entry.
  abbrev table_at : ℕ
  table_at = d.imem_load_size + d.interface_offset

  abbrev first_entry : ℕ
  first_entry = table_at + byte ucode (table_at + 1)

  -- The image with the patch: an entry of the table names the mapper, the mapper has the command FRTS
  -- and its buffer the eleven words, and nothing else has changed.
  pub record IsPatched (m : Buffer) : Type 0 where
    pub version : byte ucode table_at ≡ 1
    pub entry : IsFirst (byte ucode (table_at + 2)) (byte ucode (table_at + 3)) first_entry m
    pub mapper : ℕ
    pub named :
        mapper
        ≡ d.imem_load_size
          + word32 ucode (first_entry + entry.index * byte ucode (table_at + 2) + 4)
    pub words :
        (i : ℕ)
        → i < 11
        → word32 m (command_at mapper + 4 * i) ≡ get_or (command_words addr size) i 0 % 2 ^ 32
    pub init_command :
        (mapper + 48 ≤ command_at mapper) ⊎ (command_at mapper + 44 ≤ mapper + 44)
        → word32 m (mapper + 44) ≡ 0x15
    pub kept :
        (x : ℕ)
        → (x < mapper + 44) ⊎ (mapper + 48 ≤ x)
        → (x < command_at mapper) ⊎ (command_at mapper + 44 ≤ x)
        → byte m x ≡ byte ucode x
    pub same_len : m.len ≡ ucode.len

  filled-IsPatched :
      (m : Buffer)
      → byte ucode table_at ≡ 1
      → IsFirst (byte ucode (table_at + 2)) (byte ucode (table_at + 3)) first_entry m
      → IsPatched m
  filled-IsPatched m one f =
      let mapper =
        d.imem_load_size + word32 ucode (first_entry + f.index * byte ucode (table_at + 2) + 4) in
      let started = put32 ucode (mapper + 44) 0x15 in
      let e = f.mapper_filled.filled in
      record {
        version = one;
        entry = f;
        mapper = mapper;
        named = refl;
        words = λ i h.
            rw e (word32-put_words started (command_at mapper) (command_words addr size) i h);
        init_command = λ apart. rw e (
            word32-put_words_apart started (command_at mapper) (command_words addr size)
              (mapper + 44) (ground (arith, apart))
            ∙ word32-put32 ucode (mapper + 44) 0x15);
        kept = λ x away apart. rw e (
            byte-put_words started (command_at mapper) (command_words addr size) x apart
            ∙ byte-put32 ucode (mapper + 44) 0x15 x (ground (arith, away)));
        same_len = rw e (
            len-put_words started (command_at mapper) (command_words addr size)
            ∙ len-put32 ucode (mapper + 44) 0x15);
      }

  -- For any image, descriptor, address and size, the patch makes no access outside the image. When it
  -- succeeds, the first entry for the DMEM mapper in the table that the descriptor names leads to the
  -- mapper; the mapper's initial command is FRTS unless the command buffer lies over it, the buffer
  -- that the mapper names holds the command with the pages of the region, and every other byte is as
  -- it was.
  pub patch_frts-Ensures : Ensures IsPatched (patch_frts ucode d addr size)
  unfolding patch_frts
  patch_frts-Ensures = guard-Ensures _ _ _ _ λ inside.
      let fit = fits-le table_at 4 ucode.len inside in
      bind-Ensures _ _ _ _ (ld8_value-Ensures ucode table_at (omega arith)) λ version ev.
        bind-Ensures _ _ _ _ (ld8_value-Ensures ucode (table_at + 1) (omega arith)) λ header eh.
          bind-Ensures _ _ _ _ (ld8_value-Ensures ucode (table_at + 2) (omega arith)) λ step es.
            bind-Ensures _ _ _ _ (ld8_value-Ensures ucode (table_at + 3) (omega arith)) λ count ec.
              guard-Ensures _ _ _ _ λ is_one.
                Ensures-weaken _ (entries-Ensures step count (table_at + header)) λ m f.
                  filled-IsPatched m (sym ev ∙ (==_iff version 1).0 is_one)
                    (rw (sym es, sym ec, sym eh) f)
