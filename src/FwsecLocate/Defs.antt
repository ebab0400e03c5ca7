-- ===== src/FwsecLocate/Defs.antt =====
-- The functions of fwsec_locate.c. The buffer is what can be read, `len` the length that the caller
-- gives; a comparison of four or two bytes is that of the word that they make.
use rtxmac_oc.Base.{ℕ, zero, suc, ◌+◌, ◌-◌, ◌*◌, bit_and, Bool, true, false, not, ltb, ◌==◌, ◌&&◌}
use rtxmac_oc.Base.{◌||◌, if◌then◌else◌, not64, Option, none, some, List, [], ◌∷◌, ok, err}
use rtxmac_oc.Bytes.Defs.{Buffer, Outcome, code, guard, ◌>>=◌, ◌>>◌, ld8, ld16, ld32, fits}

-- NV_FWSEC_LOC_ERR_*.
pub data Error : Type 0 where
  bounds no_signature no_image parse : Error

-- `struct image`.
pub record Image : Type 0 where
  pub off : ℕ
  pub size : ℕ
  pub code_type : ℕ
  pub last : Bool

module _ (buf : Buffer) (len : ℕ) where
  -- The size and the flag that an NPDE block gives, where it stands; `size` and `last` are those of PCIR.
  unfoldable pub npde_size : ℕ → ℕ → ℕ → Bool → Outcome Error (ℕ × Bool)
  npde_size npde_off code_type size last = do
    m ← ld32 buf npde_off
    if not (m == 0x4544504e) then ok (size, last) else do
      subimg ← ld16 buf (npde_off + 0x08)
      npde_last ← ld8 buf (npde_off + 0x0a)
      ok (
        (if subimg == 0 then size else subimg * 512),
        (if (subimg == 0) || (code_type == 0x70) then last else not (bit_and npde_last 0x80 == 0)),
      )

  unfoldable pub image_size_and_last : ℕ → ℕ → Outcome Error (ℕ × Bool)
  image_size_and_last pcir_off code_type = do
    pcir_len ← ld16 buf (pcir_off + 0x0a)
    image_blk ← ld16 buf (pcir_off + 0x10)
    pcir_last ← ld8 buf (pcir_off + 0x15)
    let last = if code_type == 0x70 then true else not (bit_and pcir_last 0x80 == 0)
    let npde_off = bit_and (pcir_off + pcir_len + 0x0f) (not64 0x0f)
    if not (fits npde_off 0x0b len)
        then ok (image_blk * 512, last)
        else npde_size npde_off code_type (image_blk * 512) last

  -- The image whose PCIR block stands at `pcir`, or none where the loop stops.
  unfoldable pub image_of : ℕ → ℕ → Outcome Error (Option Image)
  image_of off pcir = do
    m ← ld32 buf pcir
    if not (m == 0x52494350) && not (m == 0x5344504e) then ok none else do
      code_type ← ld8 buf (pcir + 0x14)
      s ← image_size_and_last pcir code_type
      ok (some (record { off = off; size = s.0; code_type = code_type; last = s.1 }))

  -- The image at `off`, or none where the loop stops.
  unfoldable pub image_at : ℕ → Outcome Error (Option Image)
  image_at off = if not (fits off 0x1a len) then ok none else do
    sig ← ld16 buf off
    pcir_ptr ← ld16 buf (off + 0x18)
    if not (sig == 0xaa55) && not (sig == 0x4e56)
        then ok none
        else if not (fits (off + pcir_ptr) 0x16 len)
        then ok none
        else image_of off (off + pcir_ptr)

  -- The loop over the images, from the one at `off` on.
  unfoldable pub walk_images : ℕ → ℕ → Outcome Error (List Image)
  walk_images zero off = ok []
  walk_images (suc rounds) off = image_at off >>= λ found. elim found [
    | none ↦ ok []
    | some im ↦ elim ((im.size == 0) || im.last) [
      | true ↦ ok (im ∷ [])
      | false ↦
          walk_images rounds (bit_and (off + im.size + 511) (not64 511)) >>= λ rest. ok (im ∷ rest)
    ]
  ]

  -- The first image of a type.
  unfoldable pub first_of : ℕ → List Image → Option Image
  first_of code_type [] = none
  first_of code_type (im ∷ ims) =
      let later = first_of code_type ims in if im.code_type == code_type then some im else later

  -- The loop of `find_bit`, from `img + i` on.
  unfoldable pub find_bit : ℕ → ℕ → ℕ → Outcome Error ℕ
  find_bit img zero i = err (code no_signature)
  find_bit img (suc rounds) i = ld32 buf (img + i) >>= λ low. ld16 buf (img + i + 4) >>= λ high.
      elim ((low == 0x4942b8ff) && (high == 0x54)) [
        | true ↦ ok i
        | false ↦ find_bit img rounds (i + 1)
      ]

  -- The loop over the BIT tokens of the image at `img`, from the one at `e` on.
  unfoldable pub find_token : ℕ → ℕ → ℕ → ℕ → ℕ → Outcome Error ℕ
  find_token img size step zero e = err (code parse)
  find_token img size step (suc rounds) e = elim (fits e 6 size) [
    | false ↦ err (code parse)
    | true ↦ ld8 buf (img + e) >>= λ id. elim (id == 0x70) [
      | true ↦ ld16 buf (img + e + 4)
      | false ↦ find_token img size step rounds (e + step)
    ]
  ]

  -- The loop over the entries of the table of ucodes, from the one at `e` on.
  unfoldable pub find_ucode : ℕ → ℕ → ℕ → Outcome Error ℕ
  find_ucode step zero e = err (code parse)
  find_ucode step (suc rounds) e = elim (fits e 6 len) [
    | false ↦ err (code parse)
    | true ↦ ld8 buf e >>= λ id. elim (id == 0x85) [
      | true ↦ ld32 buf (e + 2)
      | false ↦ find_ucode step rounds (e + step)
    ]
  ]

  -- From the images on.
  unfoldable pub locate_in : Image → Image → Outcome Error ℕ
  locate_in pci_at fwsec = do
    let abs = pci_at.off
    let size = pci_at.size
    guard (fits abs size len) bounds
    bit_off ← find_bit abs (size - 5) 0
    header_size ← ld8 buf (abs + bit_off + 8)
    token_size ← ld8 buf (abs + bit_off + 9)
    token_count ← ld8 buf (abs + bit_off + 10)
    tok_off ← find_token abs size token_size token_count (bit_off + header_size)
    guard (fits tok_off 4 size) bounds
    falcon_ptr ← ld32 buf (abs + tok_off)
    guard (not (ltb falcon_ptr size)) bounds
    let plt_abs = fwsec.off + (falcon_ptr - size)
    guard (fits plt_abs 4 len) bounds
    hdr_len ← ld8 buf (plt_abs + 1)
    entry_len ← ld8 buf (plt_abs + 2)
    entries ← ld8 buf (plt_abs + 3)
    ucode_ptr ← find_ucode entry_len entries (plt_abs + hdr_len)
    guard (not (ltb ucode_ptr size)) bounds
    let desc_abs = fwsec.off + (ucode_ptr - size)
    guard (fits desc_abs 4 len) bounds
    ok desc_abs

  unfoldable pub locate_among : List Image → Outcome Error ℕ
  locate_among [] = err (code no_signature)
  locate_among (im ∷ ims) = elim (first_of 0x00 (im ∷ ims)) [
    | none ↦ err (code no_image)
    | some pci_at ↦ elim (first_of 0xe0 (im ∷ ims)) [
      | none ↦ err (code no_image)
      | some fwsec ↦ locate_in pci_at fwsec
    ]
  ]

  unfoldable pub locate : Outcome Error ℕ
  locate = walk_images 32 0 >>= locate_among
