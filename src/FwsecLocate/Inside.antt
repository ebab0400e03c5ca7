-- ===== src/FwsecLocate/Inside.antt =====
-- The search stays inside the VBIOS, but for five bytes behind it.
use rtxmac_oc.Base.{ℕ, zero, suc, ◌+◌, ◌-◌, ◌≤◌, ◌≡◌, refl, arith, bit_and, Bool, true, false}
use rtxmac_oc.Base.{not, ◌==◌, ◌&&◌, ◌||◌, Option, none, some, List, [], ◌∷◌, not64}
use native.Mathlib.Decide.{dec_lt}
use rtxmac_oc.Bytes.Defs.{Buffer, Outcome, fits}
use rtxmac_oc.Bytes.Ensures.{
  Ensures, Ensures-weaken, guard-Ensures, if-Ensures, bind-Ensures, ok-Ensures, ld8-Ensures,
  ld16-Ensures, ld32-Ensures, ld16_value-Ensures, ld32_value-Ensures, fits-le,
}
use rtxmac_oc.FwsecLocate.Defs.{
  Error, Image, npde_size, image_size_and_last, image_of, image_at, walk_images, first_of, find_bit,
  find_token, find_ucode, locate_in, locate_among, locate,
}

-- Nothing is said of the value.
record Any {A : Type 0} (a : A) : Type 0 where
  said : Unit {0}

abbrev Safe : {A : Type 0} → Outcome Error A → Type 0
Safe r = Ensures Any r

elim-Ensures :
    {A : Type 0} (P : A → Type 0) (test : Bool) (x y : Outcome Error A)
    → (test ≡ true → Ensures P x)
    → (test ≡ false → Ensures P y)
    → Ensures P (elim test [ true ↦ x | false ↦ y ])
elim-Ensures P true x y hx hy = hx refl
elim-Ensures P false x y hx hy = hy refl

option-Ensures :
    {A B : Type 0} (P : A → Type 0) (found : Option B) (x : Outcome Error A)
    (f : B → Outcome Error A)
    → Ensures P x
    → ((b : B) → Ensures P (f b))
    → Ensures P (elim found [ none ↦ x | some b ↦ f b ])
option-Ensures P none x f hx hf = hx
option-Ensures P (some b) x f hx hf = hf b

-- The first four bytes at `desc` are inside.
abbrev pub IsInside : ℕ → ℕ → Type 0
IsInside len desc = desc + 4 ≤ len

module _ (buf : Buffer) (len : ℕ) (room : len + 5 ≤ buf.len) where
  npde-Safe :
      (off code_type size : ℕ) (last : Bool)
      → off + 0x0b ≤ len
      → Safe (npde_size buf len off code_type size last)
  unfolding npde_size
  npde-Safe off code_type size last h = ld32-Ensures _ buf off _ (omega (arith, h, room)) λ m hm.
      if-Ensures _ (not (m == 0x4544504e)) _ _ (λ a. ok-Ensures _ _ (record { said = tt }))
        λ b. ld16-Ensures _ buf (off + 8) _ (omega (arith, h, room)) λ v hv.
          ld8-Ensures _ buf (off + 10) _ (omega (arith, h, room))
            λ w hw. ok-Ensures _ _ (record { said = tt })

  size-Safe :
      (pcir code_type : ℕ) → pcir + 0x16 ≤ len → Safe (image_size_and_last buf len pcir code_type)
  unfolding image_size_and_last
  size-Safe pcir code_type h = ld16-Ensures _ buf (pcir + 10) _ (omega (arith, h, room)) λ a ha.
      ld16-Ensures _ buf (pcir + 16) _ (omega (arith, h, room)) λ b hb.
        ld8-Ensures _ buf (pcir + 21) _ (omega (arith, h, room)) λ c hc.
          if-Ensures _ (not (fits (bit_and (pcir + a + 0x0f) (not64 0x0f)) 0x0b len)) _ _
            (λ out. ok-Ensures _ _ (record { said = tt }))
            λ inside. npde-Safe _ code_type _ _ (fits-le _ 0x0b len (ground (arith, inside)))

  image_of-Safe : (off pcir : ℕ) → pcir + 0x16 ≤ len → Safe (image_of buf len off pcir)
  unfolding image_of
  image_of-Safe off pcir h = ld32-Ensures _ buf pcir _ (omega (arith, h, room)) λ m hm.
      if-Ensures _ (not (m == 0x52494350) && not (m == 0x5344504e)) _ _
        (λ a. ok-Ensures _ _ (record { said = tt }))
        λ b. ld8-Ensures _ buf (pcir + 20) _ (omega (arith, h, room)) λ c hc.
          bind-Ensures _ _ _ _ (size-Safe pcir c h) λ s hs. ok-Ensures _ _ (record { said = tt })

  image_at-Safe : (off : ℕ) → Safe (image_at buf len off)
  unfolding image_at
  image_at-Safe off =
      if-Ensures _ (not (fits off 0x1a len)) _ _ (λ a. ok-Ensures _ _ (record { said = tt }))
        λ inside.
          let fit = fits-le off 0x1a len (ground (arith, inside)) in
          ld16-Ensures _ buf off _ (omega (arith, fit, room)) λ sig hs.
            ld16-Ensures _ buf (off + 24) _ (omega (arith, fit, room)) λ ptr hp.
              if-Ensures _ (not (sig == 0xaa55) && not (sig == 0x4e56)) _ _
                (λ a. ok-Ensures _ _ (record { said = tt }))
                λ b.
                  if-Ensures _ (not (fits (off + ptr) 0x16 len)) _ _
                    (λ a. ok-Ensures _ _ (record { said = tt }))
                    λ c. image_of-Safe off _ (fits-le _ 0x16 len (ground (arith, c)))

  walk-Safe : (rounds off : ℕ) → Safe (walk_images buf len rounds off)
  unfolding walk_images
  walk-Safe zero off = ok-Ensures _ _ (record { said = tt })
  walk-Safe (suc rounds) off =
      bind-Ensures _ _ (image_at buf len off) _ (image_at-Safe off) λ found f.
        option-Ensures _ found _ _ (ok-Ensures _ [] (record { said = tt })) λ im.
          elim-Ensures _ ((im.size == 0) || im.last) _ _
            (λ a. ok-Ensures _ (im ∷ []) (record { said = tt }))
            λ b.
              bind-Ensures _ _
                (walk_images buf len rounds (bit_and (off + im.size + 511) (not64 511))) _
                (walk-Safe rounds _) λ l hl. ok-Ensures _ _ (record { said = tt })

  find_bit-Ensures :
      (img size rounds i : ℕ)
      → img + size ≤ len
      → i + rounds + 5 ≤ size
      → Ensures (λ r. r + 6 ≤ size) (find_bit buf len img rounds i)
  unfolding find_bit
  find_bit-Ensures img size zero i h k = record { holds = tt }
  find_bit-Ensures img size (suc rounds) i h k =
      ld32-Ensures _ buf (img + i) _ (omega (arith, h, k, room)) λ low hl.
        ld16-Ensures _ buf (img + i + 4) _ (omega (arith, h, k, room)) λ high hh.
          elim-Ensures _ ((low == 0x4942b8ff) && (high == 0x54)) _ _
            (λ a. ok-Ensures _ i (omega (arith, k)))
            λ b. find_bit-Ensures img size rounds (i + 1) h (omega (arith, k))

  no_round : (abs size : ℕ) → Ensures (λ r. r + 6 ≤ size) (find_bit buf len abs 0 0)
  unfolding find_bit
  no_round abs size = record { holds = tt }

  bit_place :
      (abs size : ℕ)
      → abs + size ≤ len
      → Ensures (λ r. r + 6 ≤ size) (find_bit buf len abs (size - 5) 0)
  bit_place abs size h = elim (dec_lt 5 size) [
    | yes long ↦ find_bit-Ensures abs size (size - 5) 0 h (omega (arith, long))
    | no short ↦ let nothing : size - 5 ≡ 0 = omega (arith, short) in rw nothing (no_round abs size)
  ]

  token-Safe :
      (img size step rounds e : ℕ)
      → img + size ≤ len
      → Safe (find_token buf len img size step rounds e)
  unfolding find_token
  token-Safe img size step zero e h = record { holds = tt }
  token-Safe img size step (suc rounds) e h =
      elim-Ensures _ (fits e 6 size) _ _
        (λ inside.
          let fit = fits-le e 6 size inside in
          ld8-Ensures _ buf (img + e) _ (omega (arith, fit, h, room)) λ id hi.
            elim-Ensures _ (id == 0x70) _ _
              (λ is.
                Ensures-weaken _
                  (ld16_value-Ensures buf (img + e + 4) (omega (arith, fit, h, room)))
                  λ v hv. record { said = tt })
              λ other. token-Safe img size step rounds (e + step) h)
        λ outside. record { holds = tt }

  ucode-Safe : (step rounds e : ℕ) → Safe (find_ucode buf len step rounds e)
  unfolding find_ucode
  ucode-Safe step zero e = record { holds = tt }
  ucode-Safe step (suc rounds) e =
      elim-Ensures _ (fits e 6 len) _ _
        (λ inside.
          let fit = fits-le e 6 len inside in
          ld8-Ensures _ buf e _ (omega (arith, fit, room)) λ id hi.
            elim-Ensures _ (id == 0x85) _ _
              (λ is.
                Ensures-weaken _ (ld32_value-Ensures buf (e + 2) (omega (arith, fit, room)))
                  λ v hv. record { said = tt })
              λ other. ucode-Safe step rounds (e + step))
        λ outside. record { holds = tt }

  locate_in-Ensures :
      (pci_at fwsec : Image) → Ensures (IsInside len) (locate_in buf len pci_at fwsec)
  unfolding locate_in
  locate_in-Ensures pci_at fwsec =
      let abs = pci_at.off in
      let size = pci_at.size in
      guard-Ensures _ _ _ _ λ image_fits.
        let image = fits-le abs size len image_fits in
        bind-Ensures _ (λ r. r + 6 ≤ size) (find_bit buf len abs (size - 5) 0) _
          (bit_place abs size image)
          λ bit at_bit.
            ld8-Ensures _ buf (abs + bit + 8) _ (omega (arith, image, at_bit, room)) λ header hh.
              ld8-Ensures _ buf (abs + bit + 9) _ (omega (arith, image, at_bit, room)) λ token ht.
                ld8-Ensures _ buf (abs + bit + 10) _ (omega (arith, image, at_bit, room))
                  λ count hc.
                    bind-Ensures _ _ _ _ (token-Safe abs size token count (bit + header) image)
                      λ tok st. guard-Ensures _ _ _ _ λ tok_fits.
                        let at_tok = fits-le tok 4 size tok_fits in
                        ld32-Ensures _ buf (abs + tok) _ (omega (arith, image, at_tok, room))
                          λ ptr hp. guard-Ensures _ _ _ _ λ ptr_large.
                            guard-Ensures _ _ _ _ λ plt_fits.
                              let at_plt = fits-le _ 4 len plt_fits in
                              ld8-Ensures _ buf (fwsec.off + (ptr - size) + 1) _
                                (omega (arith, at_plt, room))
                                λ hdr h1.
                                  ld8-Ensures _ buf (fwsec.off + (ptr - size) + 2) _
                                    (omega (arith, at_plt, room))
                                    λ entry h2.
                                      ld8-Ensures _ buf (fwsec.off + (ptr - size) + 3) _
                                        (omega (arith, at_plt, room))
                                        λ entries h3.
                                          bind-Ensures _ _ _ _
                                            (ucode-Safe entry entries
                                              (fwsec.off + (ptr - size) + hdr))
                                            λ ucode su. guard-Ensures _ _ _ _ λ ucode_large.
                                              guard-Ensures _ _ _ _ λ desc_fits.
                                                ok-Ensures _ _ (fits-le _ 4 len desc_fits)

  among-Ensures : (l : List Image) → Ensures (IsInside len) (locate_among buf len l)
  unfolding locate_among
  among-Ensures [] = record { holds = tt }
  among-Ensures (im ∷ ims) =
      option-Ensures _ (first_of buf len 0x00 (im ∷ ims)) _ _ (record { holds = tt })
        λ pci_at.
          option-Ensures _ (first_of buf len 0xe0 (im ∷ ims)) _ _ (record { holds = tt })
            λ fwsec. locate_in-Ensures pci_at fwsec

  -- For any VBIOS with five readable bytes behind the length given, nv_fwsec_locate makes no access
  -- behind those, and a descriptor that it returns has its first four bytes inside the VBIOS.
  pub locate-Ensures : Ensures (IsInside len) (locate buf len)
  unfolding locate
  locate-Ensures =
      bind-Ensures _ _ (walk_images buf len 32 0) _ (walk-Safe 32 0) λ l h. among-Ensures l
