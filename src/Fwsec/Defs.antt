-- ===== src/Fwsec/Defs.antt =====
-- The descriptor of fwsec_patch.h and the functions of fwsec_patch.c. After an error the image may
-- hold a part of the patch, and is not described.
use rtxmac_oc.Base.{ℕ, zero, suc, ◌+◌, ◌-◌, ◌^◌, bit_and, ltb, leb, ◌==◌, not, if◌then◌else◌}
use rtxmac_oc.Base.{◌-32◌, ◌+32◌, ◌>>>◌, u32}
use rtxmac_oc.Base.{ok, err}
use rtxmac_oc.Bytes.Defs.{Buffer, Outcome, code, guard, ◌>>=◌, ◌>>◌, ld8, ld32, fits}
use rtxmac_oc.Bytes.Stores.{st8, st32, st64}

-- NV_FWSEC_ERR_*.
pub data Error : Type 0 where
  parse bounds no_signature : Error

-- `nv_fwsec_desc_t`.
pub record Desc : Type 0 where
  pub version : ℕ
  pub hdr_size : ℕ
  pub imem_load_size : ℕ
  pub imem_phys_base : ℕ
  pub dmem_load_size : ℕ
  pub dmem_phys_base : ℕ
  pub interface_offset : ℕ
  pub pkc_data_offset : ℕ
  pub engine_id_mask : ℕ
  pub signature_versions : ℕ
  pub ucode_id : ℕ
  pub signature_count : ℕ

-- The branch for version 3.
unfoldable pub parse_v3 : Buffer → ℕ → ℕ → Outcome Error Desc
parse_v3 desc ver hdr = do
  guard (not (ltb desc.len 44)) bounds
  pkc_data_offset ← ld32 desc 8
  interface_offset ← ld32 desc 12
  imem_phys_base ← ld32 desc 16
  imem_load_size ← ld32 desc 20
  dmem_phys_base ← ld32 desc 28
  dmem_load_size ← ld32 desc 32
  engine_id_mask ← ld32 desc 36
  ucode_id ← ld8 desc 38
  signature_count ← ld8 desc 39
  signature_versions ← ld32 desc 40
  ok (record {
    version = ver;
    hdr_size = bit_and (hdr >>> 16) 0xffff;
    imem_load_size = imem_load_size;
    imem_phys_base = imem_phys_base;
    dmem_load_size = dmem_load_size;
    dmem_phys_base = dmem_phys_base;
    interface_offset = interface_offset;
    pkc_data_offset = pkc_data_offset;
    engine_id_mask = bit_and engine_id_mask 0xffff;
    signature_versions = bit_and signature_versions 0xffff;
    ucode_id = ucode_id;
    signature_count = signature_count;
  })

-- The branch for version 2.
unfoldable pub parse_v2 : Buffer → ℕ → ℕ → Outcome Error Desc
parse_v2 desc ver hdr = do
  guard (not (ltb desc.len 60)) bounds
  interface_offset ← ld32 desc 16
  imem_phys_base ← ld32 desc 20
  imem_load_size ← ld32 desc 24
  dmem_phys_base ← ld32 desc 44
  dmem_load_size ← ld32 desc 48
  ok (record {
    version = ver;
    hdr_size = bit_and (hdr >>> 16) 0xffff;
    imem_load_size = imem_load_size;
    imem_phys_base = imem_phys_base;
    dmem_load_size = dmem_load_size;
    dmem_phys_base = dmem_phys_base;
    interface_offset = interface_offset;
    pkc_data_offset = 0;
    engine_id_mask = 0;
    signature_versions = 0;
    ucode_id = 0;
    signature_count = 0;
  })

unfoldable pub desc_parse : Buffer → Outcome Error Desc
desc_parse desc = do
  guard (not (ltb desc.len 4)) bounds
  ver ← ld8 desc 1
  hdr ← ld32 desc 0
  if ver == 3
      then parse_v3 desc ver hdr
      else if ver == 2
      then parse_v2 desc ver hdr
      else err (code parse)

-- The ReadVbios and FrtsRegion parts of the command, from `rv` on.
unfoldable pub put_command : Buffer → ℕ → ℕ → ℕ → Outcome Error Buffer
put_command ucode rv frts_addr frts_size = do
  m0 ← st32 ucode rv 1
  m1 ← st32 m0 (rv + 4) 24
  m2 ← st64 m1 (rv + 8) 0
  m3 ← st32 m2 (rv + 16) 0
  m4 ← st32 m3 (rv + 20) 2
  m5 ← st32 m4 (rv + 24) 1
  m6 ← st32 m5 (rv + 24 + 4) 20
  m7 ← st32 m6 (rv + 24 + 8) (u32 (frts_addr >>> 12))
  m8 ← st32 m7 (rv + 24 + 12) (u32 (frts_size >>> 12))
  st32 m8 (rv + 24 + 16) 2

-- The patch of the mapper whose entry gives `dmem_base`.
unfoldable pub patch_mapper : Buffer → Desc → ℕ → ℕ → ℕ → Outcome Error Buffer
patch_mapper ucode d dmem_base frts_addr frts_size = do
  let mapper_off = d.imem_load_size + dmem_base
  guard (fits mapper_off (44 + 4) ucode.len) bounds
  m ← st32 ucode (mapper_off + 44) 0x15
  cmd_in_off ← ld32 m (mapper_off + 8)
  let frts_cmd_off = d.imem_load_size + cmd_in_off
  guard (fits frts_cmd_off (24 + 20) ucode.len) bounds
  put_command m frts_cmd_off frts_addr frts_size

-- The loop over the entries, from the one at `entry_off` on.
unfoldable pub patch_entries : Buffer → Desc → ℕ → ℕ → ℕ → ℕ → ℕ → Outcome Error Buffer
patch_entries ucode d frts_addr frts_size entry_size zero entry_off = err (code parse)
patch_entries ucode d frts_addr frts_size entry_size (suc rounds) entry_off =
    let later =
      patch_entries ucode d frts_addr frts_size entry_size rounds (entry_off + entry_size) in
    do
      guard (fits entry_off 8 ucode.len) bounds
      id ← ld32 ucode entry_off
      dmem_base ← ld32 ucode (entry_off + 4)
      if not (id == 4) then later else patch_mapper ucode d dmem_base frts_addr frts_size

unfoldable pub patch_frts : Buffer → Desc → ℕ → ℕ → Outcome Error Buffer
patch_frts ucode d frts_addr frts_size = do
  let hdr_off = d.imem_load_size + d.interface_offset
  guard (fits hdr_off 4 ucode.len) bounds
  appif_version ← ld8 ucode hdr_off
  header_size ← ld8 ucode (hdr_off + 1)
  entry_size ← ld8 ucode (hdr_off + 2)
  entry_count ← ld8 ucode (hdr_off + 3)
  guard (appif_version == 1) parse
  patch_entries ucode d frts_addr frts_size entry_size entry_count (hdr_off + header_size)

-- `while (v) { v &= v - 1; c++; }`: 32 rounds are enough for 32 bits.
unfoldable pub popcount_loop : ℕ → ℕ → ℕ → ℕ
popcount_loop zero v c = c
popcount_loop (suc rounds) v c =
    let rest = popcount_loop rounds (bit_and v (v - 1)) (c +32 1) in if v == 0 then c else rest

unfoldable pub popcount32 : ℕ → ℕ
popcount32 v = popcount_loop 32 v 0

unfoldable pub select_signature_index : Desc → ℕ → Outcome Error ℕ
select_signature_index d fuse_version = do
  guard (not (d.signature_count == 0)) no_signature
  guard (not (leb 32 fuse_version)) no_signature
  let bit = 2 ^ fuse_version
  guard (not (bit_and d.signature_versions bit == 0)) no_signature
  ok (popcount32 (bit_and d.signature_versions (bit -32 1)))

-- The copying loop, from byte `i` on.
unfoldable pub copy_bytes : Buffer → ℕ → Buffer → ℕ → ℕ → Outcome Error Buffer
copy_bytes ucode off sig zero i = ok ucode
copy_bytes ucode off sig (suc left) i = do
  v ← ld8 sig i
  m ← st8 ucode (off + i) v
  copy_bytes m off sig left (i + 1)

unfoldable pub patch_signature : Buffer → Desc → Buffer → Outcome Error Buffer
patch_signature ucode d sig384 = do
  let off = d.imem_load_size + d.pkc_data_offset
  guard (fits off 384 ucode.len) bounds
  copy_bytes ucode off sig384 384 0
