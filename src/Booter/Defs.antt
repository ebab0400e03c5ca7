-- ===== src/Booter/Defs.antt =====
-- The descriptor of booter.h, its parser and the choice of a signature.
use rtxmac_oc.Base.{ℕ, zero, suc, ◌+◌, ◌*◌, ltb, leb, ◌==◌, not, ◌&&◌, ◌||◌, if◌then◌else◌, ◌-32◌}
use rtxmac_oc.Base.{◌+32◌}
use rtxmac_oc.Base.{List, [], ◌∷◌, ok}
use rtxmac_oc.Bytes.Defs.{Buffer, Outcome, guard, ◌>>=◌, ◌>>◌, ld32, fits}

-- The codes of booter.h that these functions return.
pub data Error : Type 0 where
  bounds magic layout : Error

pub record App : Type 0 where
  pub code_offset : ℕ
  pub code_size : ℕ
  pub data_offset : ℕ
  pub data_size : ℕ

-- `nv_booter_desc_t`; `app` holds the `num_apps` entries that are set.
pub record Desc : Type 0 where
  pub data_abs : ℕ
  pub data_size : ℕ
  pub sig_prod_abs : ℕ
  pub sig_prod_size : ℕ
  pub num_sig : ℕ
  pub patch_loc : ℕ
  pub patch_sig : ℕ
  pub meta_abs : ℕ
  pub meta_size : ℕ
  pub sig_fuse_ver : ℕ
  pub engine_id_mask : ℕ
  pub ucode_id : ℕ
  pub os_code_offset : ℕ
  pub os_code_size : ℕ
  pub os_data_offset : ℕ
  pub os_data_size : ℕ
  pub num_apps : ℕ
  pub app : List App
  pub pkc_data_offset : ℕ

abbrev pub bin_magic : ℕ
bin_magic = 0x10de

abbrev pub max_apps : ℕ
max_apps = 8

abbrev pub sig_size : ℕ
sig_size = 384

unfoldable pub read_app : Buffer → ℕ → Outcome Error App
read_app buf a = do
  code_offset ← ld32 buf a
  code_size ← ld32 buf (a + 4)
  data_offset ← ld32 buf (a + 8)
  data_size ← ld32 buf (a + 12)
  ok (record {
    code_offset = code_offset;
    code_size = code_size;
    data_offset = data_offset;
    data_size = data_size;
  })

-- The loop over the applications, from the one at `a` on.
unfoldable pub read_apps : Buffer → ℕ → ℕ → Outcome Error (List App)
read_apps buf zero a = ok []
read_apps buf (suc n) a = do app ← read_app buf a; rest ← read_apps buf n (a + 16); ok (app ∷ rest)

-- `nv_booter_parse`. `load_hdr_off + 20` is 32-bit in the bounds test and a pointer in the reads.
unfoldable pub booter_parse : Buffer → Outcome Error Desc
booter_parse buf = do
  guard (fits 0 24 buf.len) bounds
  m ← ld32 buf 0
  guard (m == bin_magic) magic
  bin_hdr_off ← ld32 buf 12
  data_off ← ld32 buf 16
  data_size ← ld32 buf 20
  guard (fits data_off data_size buf.len) bounds
  guard (fits bin_hdr_off 36 buf.len) bounds
  sig_prod_off ← ld32 buf bin_hdr_off
  sig_prod_size ← ld32 buf (bin_hdr_off + 4)
  patch_loc_off ← ld32 buf (bin_hdr_off + 8)
  patch_sig_off ← ld32 buf (bin_hdr_off + 12)
  meta_off ← ld32 buf (bin_hdr_off + 16)
  meta_size ← ld32 buf (bin_hdr_off + 20)
  num_sig_off ← ld32 buf (bin_hdr_off + 24)
  load_hdr_off ← ld32 buf (bin_hdr_off + 28)
  guard (fits sig_prod_off sig_prod_size buf.len) bounds
  guard (fits patch_loc_off 4 buf.len && fits patch_sig_off 4 buf.len && fits num_sig_off 4 buf.len)
      bounds
  patch_loc ← ld32 buf patch_loc_off
  patch_sig ← ld32 buf patch_sig_off
  num_sig ← ld32 buf num_sig_off
  guard (num_sig * sig_size == sig_prod_size) layout
  guard (not (ltb meta_size 12) && fits meta_off 12 buf.len) layout
  sig_fuse_ver ← ld32 buf meta_off
  engine_id_mask ← ld32 buf (meta_off + 4)
  ucode_id ← ld32 buf (meta_off + 8)
  guard (fits load_hdr_off 20 buf.len) bounds
  os_code_offset ← ld32 buf load_hdr_off
  os_code_size ← ld32 buf (load_hdr_off + 4)
  os_data_offset ← ld32 buf (load_hdr_off + 8)
  os_data_size ← ld32 buf (load_hdr_off + 12)
  num_apps ← ld32 buf (load_hdr_off + 16)
  guard (leb num_apps max_apps) layout
  guard (fits (load_hdr_off +32 20) (num_apps * 16) buf.len) bounds
  app ← read_apps buf num_apps (load_hdr_off + 20)
  guard
      (not (ltb data_size (os_code_offset + os_code_size))
        && not (ltb data_size (os_data_offset + os_data_size)))
      layout
  guard (not (ltb patch_loc os_data_offset)) layout
  ok (record {
    data_abs = data_off;
    data_size = data_size;
    sig_prod_abs = sig_prod_off;
    sig_prod_size = sig_prod_size;
    num_sig = num_sig;
    patch_loc = patch_loc;
    patch_sig = patch_sig;
    meta_abs = meta_off;
    meta_size = meta_size;
    sig_fuse_ver = sig_fuse_ver;
    engine_id_mask = engine_id_mask;
    ucode_id = ucode_id;
    os_code_offset = os_code_offset;
    os_code_size = os_code_size;
    os_data_offset = os_data_offset;
    os_data_size = os_data_size;
    num_apps = num_apps;
    app = app;
    pkc_data_offset = patch_loc -32 os_data_offset;
  })

abbrev pub fuse_version_use_last_sig : ℕ
fuse_version_use_last_sig = 0

-- `nv_booter_select_signature`.
unfoldable pub select_signature : Desc → ℕ → Outcome Error ℕ
select_signature desc reg_fuse_version = do
  guard (not (desc.num_sig == 0)) layout
  guard
      ((reg_fuse_version == fuse_version_use_last_sig)
        || not (ltb desc.sig_fuse_ver reg_fuse_version))
      layout
  let idx =
      if reg_fuse_version == fuse_version_use_last_sig
      then desc.num_sig -32 1
      else desc.sig_fuse_ver -32 reg_fuse_version
  guard (ltb idx desc.num_sig) layout
  ok idx
