-- ===== src/Booter/Tests.antt =====
-- A container with one signature and one application, and the theorems at it.
use rtxmac_oc.Base.{ℕ, ◌*◌, ◌/◌, ◌%◌, ◌^◌, ◌≡◌, refl, arith, List, [], ◌∷◌, get_or, ok}
use rtxmac_oc.Bytes.Defs.{Buffer, join32, word32, ld32, fits, guard, ◌>>=◌, ◌>>◌}
use rtxmac_oc.Bytes.Ensures.{Ensures}
use rtxmac_oc.Booter.Defs.{Desc, read_app, read_apps, booter_parse}
use rtxmac_oc.Booter.Parse.{IsDesc, booter_parse-Ensures}

-- The words of the image: the bin header, the HS header at 24, three values at 60, the meta data at
-- 72, the load header at 84 and its application at 104; data from 120 on, signatures behind it.
abbrev words : List ℕ
words =
    0x10de ∷ 1 ∷ 0 ∷ 24 ∷ 120 ∷ 64 ∷ 184 ∷ 384 ∷ 60 ∷ 64 ∷ 72 ∷ 12 ∷ 68 ∷ 84 ∷ 36 ∷ 40 ∷ 0 ∷ 1 ∷ 3
    ∷ 1 ∷ 2 ∷ 0 ∷ 32 ∷ 32 ∷ 32 ∷ 1 ∷ 0 ∷ 32 ∷ 32 ∷ 32 ∷ []

abbrev image : Buffer
image = record { len = 568; at = λ x. get_or words (x / 4) 0 / 2 ^ (8 * (x % 4)) }

abbrev desc : Desc
desc = record {
  data_abs = 120;
  data_size = 64;
  sig_prod_abs = 184;
  sig_prod_size = 384;
  num_sig = 1;
  patch_loc = 40;
  patch_sig = 0;
  meta_abs = 72;
  meta_size = 12;
  sig_fuse_ver = 3;
  engine_id_mask = 1;
  ucode_id = 2;
  os_code_offset = 0;
  os_code_size = 32;
  os_data_offset = 32;
  os_data_size = 32;
  num_apps = 1;
  app = record { code_offset = 0; code_size = 32; data_offset = 32; data_size = 32 } ∷ [];
  pkc_data_offset = 8;
}

parse_run : booter_parse image ≡ ok desc
unfolding booter_parse read_apps read_app ld32 word32 join32 fits guard ◌>>=◌ ◌>>◌
parse_run = refl

booter_parse-Ensures_example : Ensures (IsDesc image) (booter_parse image)
booter_parse-Ensures_example = booter_parse-Ensures image (omega arith)
