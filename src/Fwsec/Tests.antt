-- ===== src/Fwsec/Tests.antt =====
-- An image with one application interface, and the theorems at it.
use rtxmac_oc.Base.{ℕ, ◌*◌, ◌/◌, ◌%◌, ◌^◌, ◌≡◌, refl, arith, List, [], ◌∷◌, get_or, ok, err}
use rtxmac_oc.Bytes.Defs.{Buffer, Outcome, join32, word32, ld8, ld32, fits, guard, ◌>>=◌, ◌>>◌}
use rtxmac_oc.Bytes.Ensures.{Ensures}
use rtxmac_oc.Bytes.Stores.{put8, put32, put64, st32, st64}
use rtxmac_oc.Fwsec.Defs.{Error, Desc, put_command, patch_mapper, patch_entries, patch_frts}
use rtxmac_oc.Fwsec.Defs.{select_signature_index, popcount32, popcount_loop, patch_signature}
use rtxmac_oc.Fwsec.Patch.{IsPatched, patch_frts-Ensures}
use rtxmac_oc.Fwsec.Signature.{IsSigned, patch_signature-Ensures}

-- The table stands at 16 with one entry at 20, the mapper at 32, its command buffer at 80.
abbrev words : List ℕ
words = 0 ∷ 0 ∷ 0 ∷ 0 ∷ 0x01080401 ∷ 4 ∷ 16 ∷ 0 ∷ 0 ∷ 0 ∷ 64 ∷ []

abbrev image : Buffer
image = record { len = 600; at = λ x. get_or words (x / 4) 0 / 2 ^ (8 * (x % 4)) }

abbrev desc : Desc
desc = record {
  version = 3;
  hdr_size = 44;
  imem_load_size = 16;
  imem_phys_base = 0;
  dmem_load_size = 200;
  dmem_phys_base = 0;
  interface_offset = 0;
  pkc_data_offset = 150;
  engine_id_mask = 0x400;
  signature_versions = 0b1011;
  ucode_id = 9;
  signature_count = 3;
}

abbrev read_back : Outcome Error Buffer → ℕ → ℕ
read_back (ok m) off = word32 m off
read_back (err e) off = 0xdead

patch_run : read_back (patch_frts image desc 0x5f7c00000 0x100000) 112 ≡ 0x5f7c00
unfolding patch_frts patch_entries patch_mapper put_command ld8 ld32 word32 join32 fits guard ◌>>=◌
    ◌>>◌ put8 put32 put64 st32 st64
patch_run = refl

patch_frts-Ensures_example :
    Ensures (IsPatched image desc 0x5f7c00000 0x100000) (patch_frts image desc 0x5f7c00000 0x100000)
patch_frts-Ensures_example = patch_frts-Ensures image desc 0x5f7c00000 0x100000

index_run : select_signature_index desc 3 ≡ ok 2
unfolding select_signature_index popcount32 popcount_loop guard ◌>>◌
index_run = refl

abbrev signature : Buffer
signature = record { len = 384; at = λ x. x }

patch_signature-Ensures_example :
    Ensures (IsSigned image desc signature) (patch_signature image desc signature)
patch_signature-Ensures_example = patch_signature-Ensures image desc signature (omega arith)
