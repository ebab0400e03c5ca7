-- ===== src/FwsecLocate/Tests.antt =====
-- A VBIOS of two images, and one whose BIT header is cut off at its end.
use rtxmac_oc.Base.{ℕ, ◌-◌, ◌*◌, ◌/◌, ◌%◌, ◌^◌, ◌≡◌, refl, arith, List, [], ◌∷◌, get_or, ltb}
use rtxmac_oc.Base.{if◌then◌else◌, ok, err}
use rtxmac_oc.Bytes.Defs.{
  Buffer, fault, join16, join32, word16, word32, ld8, ld16, ld32, fits, guard, ◌>>=◌, ◌>>◌,
}
use rtxmac_oc.Bytes.Ensures.{Ensures}
use rtxmac_oc.FwsecLocate.Defs.{
  npde_size, image_size_and_last, image_of, image_at, walk_images, first_of, find_bit, find_token,
  find_ucode, locate_in, locate_among, locate,
}
use rtxmac_oc.FwsecLocate.Inside.{IsInside, locate-Ensures}

-- The PCI-AT image in words: PCIR at 28, BIT at 64 with one token, the pointer at 84.
abbrev pci_words : List ℕ
pci_words =
    0xaa55 ∷ 0 ∷ 0 ∷ 0 ∷ 0 ∷ 0 ∷ 0x1c ∷ 0x52494350 ∷ 0 ∷ 0x180000 ∷ 0 ∷ 1 ∷ 0 ∷ 0 ∷ 0 ∷ 0
    ∷ 0x4942b8ff ∷ 0x54 ∷ 0x1060c ∷ 0x70 ∷ 0x54 ∷ 576 ∷ []

-- The FWSEC image at 512: NPDS at 28, the table of ucodes at 64.
abbrev fwsec_words : List ℕ
fwsec_words =
    0x4e56 ∷ 0 ∷ 0 ∷ 0 ∷ 0 ∷ 0 ∷ 0x1c ∷ 0x5344504e ∷ 0 ∷ 0x180000 ∷ 0 ∷ 1 ∷ 0x80e0 ∷ 0 ∷ 0 ∷ 0
    ∷ 0x1060401 ∷ 0x2500085 ∷ 0 ∷ []

abbrev byte_of : List ℕ → ℕ → ℕ
byte_of words x = get_or words (x / 4) 0 / 2 ^ (8 * (x % 4))

abbrev vbios : Buffer
vbios = record {
  len = 1029;
  at = λ x. if ltb x 512 then byte_of pci_words x else byte_of fwsec_words (x - 512);
}

locate_run : locate vbios 1024 ≡ ok 592
unfolding locate locate_among locate_in first_of walk_images image_at image_of image_size_and_last
    npde_size find_bit find_token find_ucode ld8 ld16 ld32 word16 word32 join16 join32 fits guard
    ◌>>=◌ ◌>>◌
locate_run = refl

locate-Ensures_example : Ensures (IsInside 1024) (locate vbios 1024)
locate-Ensures_example = locate-Ensures vbios 1024 (omega arith)

-- The FWSEC image stands first; the signature of BIT is the last six bytes.
abbrev early_words : List ℕ
early_words = 0x4e56 ∷ 0 ∷ 0 ∷ 0 ∷ 0 ∷ 0 ∷ 0x1c ∷ 0x5344504e ∷ 0 ∷ 0x180000 ∷ 0 ∷ 1 ∷ 0xe0 ∷ []

abbrev late_words : List ℕ
late_words = 0xaa55 ∷ 0 ∷ 0 ∷ 0 ∷ 0 ∷ 0 ∷ 0x1c ∷ 0x52494350 ∷ 0 ∷ 0x180000 ∷ 0 ∷ 1 ∷ 0x8000 ∷ []

abbrev bit_signature : List ℕ
bit_signature = 0xff ∷ 0xb8 ∷ 0x42 ∷ 0x49 ∷ 0x54 ∷ 0 ∷ []

abbrev cut_off : Buffer
cut_off = record {
  len = 1024;
  at = λ x.
      if ltb x 512
      then byte_of early_words x
      else if ltb x 1018
      then byte_of late_words (x - 512)
      else get_or bit_signature (x - 1018) 0;
}

-- Without bytes behind its end, the read of the BIT header leaves the buffer.
fault_run : locate cut_off 1024 ≡ err fault
unfolding locate locate_among locate_in first_of walk_images image_at image_of image_size_and_last
    npde_size find_bit find_token find_ucode ld8 ld16 ld32 word16 word32 join16 join32 fits guard
    ◌>>=◌ ◌>>◌
fault_run = refl
