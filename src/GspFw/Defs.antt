-- ===== src/GspFw/Defs.antt =====
-- The functions of gsp_fw.c. Buffers that are only written are not checked against their length
-- beyond what the code checks.
use rtxmac_oc.Base.{ℕ, zero, suc, ◌+◌, ◌-◌, ◌*◌, ◌/◌, ◌^◌, bit_and, bit_or, Bool, not, ltb, leb}
use rtxmac_oc.Base.{◌==◌, ◌&&◌, ◌||◌, if◌then◌else◌}
use rtxmac_oc.Base.{
  ◌+64◌, ◌-64◌, ◌>>>◌, ◌<<<◌, u8, u32, u64, not64, Result, ok, err, List, [], ◌∷◌, length,
}
use rtxmac_oc.Bytes.Defs.{Buffer, fault, code, Outcome, guard, ◌>>=◌, ◌>>◌, ld32, fits}
use rtxmac_oc.Bytes.Stores.{put8}
use rtxmac_oc.Bytes.Fill.{fill, store64, fill64}
use rtxmac_oc.Elf.Defs
use rtxmac_oc.Elf.Defs.{elf64_section}

-- NV_GSP_ERR_*.
pub data Error : Type 0 where
  argument bounds format no_section capacity : Error

-- `nv_gsp_sections_t`.
pub record Sections : Type 0 where
  pub fwimage_off : ℕ
  pub fwimage_size : ℕ
  pub sig_off : ℕ
  pub sig_size : ℕ

unfoldable pub elf_error : Defs.Error → Error
elf_error Defs.no_section = no_section
elf_error Defs.bounds = bounds
elf_error Defs.format = format

-- The lookup of a section, with the code that is returned for the lookup's.
unfoldable pub section : Buffer → List ℕ → Outcome Error (ℕ × ℕ)
section elf name = elim (elf64_section elf name) [
  | ok range ↦ ok range
  | err fault ↦ err fault
  | err (code e) ↦ err (code (elf_error e))
]

abbrev pub fwimage_name : List ℕ
fwimage_name = b'.' ∷ b'f' ∷ b'w' ∷ b'i' ∷ b'm' ∷ b'a' ∷ b'g' ∷ b'e' ∷ []

unfoldable pub rm_sections : Buffer → List ℕ → Outcome Error Sections
rm_sections elf chip_sig = do
  image ← section elf fwimage_name
  sig ← section elf chip_sig
  ok (record { fwimage_off = image.0; fwimage_size = image.1; sig_off = sig.0; sig_size = sig.1 })

-- `nv_gsp_bootloader_t`.
pub record Bootloader : Type 0 where
  pub data_abs : ℕ
  pub data_size : ℕ
  pub app_version : ℕ
  pub code_offset : ℕ
  pub data_offset : ℕ
  pub manifest_offset : ℕ
  pub manifest_size : ℕ

unfoldable pub bootloader_parse : Buffer → Outcome Error Bootloader
bootloader_parse buf = do
  guard (fits 0 24 buf.len) bounds
  magic ← ld32 buf 0
  guard (magic == 0x10de) format
  hdr_off ← ld32 buf 12
  data_off ← ld32 buf 16
  data_sz ← ld32 buf 20
  guard (fits data_off data_sz buf.len) bounds
  guard (fits hdr_off 84 buf.len) bounds
  app_version ← ld32 buf (hdr_off + 28)
  manifest_offset ← ld32 buf (hdr_off + 32)
  manifest_size ← ld32 buf (hdr_off + 36)
  data_offset ← ld32 buf (hdr_off + 40)
  code_offset ← ld32 buf (hdr_off + 48)
  ok (record {
    data_abs = data_off;
    data_size = data_sz;
    app_version = app_version;
    code_offset = code_offset;
    data_offset = data_offset;
    manifest_offset = manifest_offset;
    manifest_size = manifest_size;
  })

unfoldable pub align_down : ℕ → ℕ → ℕ
align_down v a = bit_and v (not64 (a - 1))

unfoldable pub align_up : ℕ → ℕ → ℕ
align_up v a = bit_and (v +64 a -64 1) (not64 (a - 1))

-- `nv_gsp_fb_layout_t`.
pub record FwLayout : Type 0 where
  pub fb_size : ℕ
  pub frts_addr : ℕ
  pub frts_size : ℕ
  pub boot_addr : ℕ
  pub boot_size : ℕ
  pub elf_addr : ℕ
  pub elf_size : ℕ
  pub heap_addr : ℕ
  pub heap_size : ℕ
  pub wpr2_addr : ℕ
  pub wpr2_size : ℕ
  pub wpr2_end : ℕ
  pub nonwpr_heap_addr : ℕ
  pub nonwpr_heap_size : ℕ

-- `heap`: 20 MiB, 8 MiB, 96 KiB for each GiB of memory and 96 MiB, at least 84 MiB.
unfoldable pub heap_need : ℕ → ℕ
heap_need fb_size =
    let fb_gb = (fb_size +64 2 ^ 30 -64 1) >>> 30 in
    let heap =
      0x1400000
      +64 0x800000
      +64 align_up (u64 (0x18000 * fb_gb)) (2 ^ 20)
      +64 align_up (0xc000 * 2048) (2 ^ 20) in
    if ltb heap 0x5400000 then 0x5400000 else heap

-- The addresses, from the top down.
unfoldable pub place_regions : ℕ → ℕ → ℕ → ℕ → ℕ → FwLayout
place_regions fb_size frts_addr frts_size boot_size elf_size =
    let wpr2_end = frts_addr +64 frts_size in
    let boot_addr = align_down (frts_addr -64 boot_size) 0x1000 in
    let elf_addr = align_down (boot_addr -64 elf_size) 0x10000 in
    let heap_addr = align_down (elf_addr -64 heap_need fb_size) 0x100000 in
    let heap_size = align_down (elf_addr -64 heap_addr) 0x100000 in
    let wpr2_addr = align_down (heap_addr -64 256) 0x100000 in
    record {
      fb_size = fb_size;
      frts_addr = frts_addr;
      frts_size = frts_size;
      boot_addr = boot_addr;
      boot_size = boot_size;
      elf_addr = elf_addr;
      elf_size = elf_size;
      heap_addr = heap_addr;
      heap_size = heap_size;
      wpr2_addr = wpr2_addr;
      wpr2_size = wpr2_end -64 wpr2_addr;
      wpr2_end = wpr2_end;
      nonwpr_heap_addr = wpr2_addr -64 0x100000;
      nonwpr_heap_size = 0x100000;
    }

-- The checks at the end of `nv_gsp_fb_layout`.
unfoldable pub is_ordered : FwLayout → Bool
is_ordered l =
    ltb l.nonwpr_heap_addr l.wpr2_addr
    && leb l.wpr2_addr l.heap_addr
    && ltb l.heap_addr l.elf_addr
    && ltb l.elf_addr l.boot_addr
    && ltb l.boot_addr l.frts_addr

unfoldable pub fb_layout : ℕ → ℕ → ℕ → ℕ → ℕ → Result Error FwLayout
fb_layout fb_size frts_addr frts_size boot_size elf_size =
    if (fb_size == 0) || (frts_size == 0) || (boot_size == 0) || (elf_size == 0)
    then err argument
    else let l = place_regions fb_size frts_addr frts_size boot_size elf_size in
      if ltb fb_size l.wpr2_end then err bounds else if not (is_ordered l) then err bounds else ok l

-- `nv_gsp_wpr_meta_src_t`.
pub record MetaSource : Type 0 where
  pub radix3_lvl0_dma : ℕ
  pub radix3_elf_size : ℕ
  pub bootloader_dma : ℕ
  pub bootloader_size : ℕ
  pub boot_code_offset : ℕ
  pub boot_data_offset : ℕ
  pub boot_manifest_offset : ℕ
  pub signature_dma : ℕ
  pub signature_size : ℕ
  pub vga_workspace_addr : ℕ
  pub vga_workspace_size : ℕ

-- `st64` at every eighth byte from `off` on.
unfoldable pub store_words : Buffer → ℕ → List ℕ → Buffer
store_words m off [] = m
store_words m off (v ∷ vs) = store_words (store64 m off v) (off + 8) vs

-- `nv_gsp_wpr_meta_build`, whose stores follow one another from byte 0 to byte 200.
unfoldable pub wpr_meta_build : Buffer → FwLayout → MetaSource → Result Error Buffer
wpr_meta_build buf lay src =
    if ltb buf.len 256
    then err argument
    else ok (
        store_words (fill buf 0 (λ i. 0) 256 0) 0 (
          0xdc3aae21371a60b3 ∷ 1 ∷ src.radix3_lvl0_dma ∷ src.radix3_elf_size ∷ src.bootloader_dma
          ∷ src.bootloader_size ∷ src.boot_code_offset ∷ src.boot_data_offset
          ∷ src.boot_manifest_offset ∷ src.signature_dma ∷ src.signature_size ∷ lay.nonwpr_heap_addr
          ∷ lay.nonwpr_heap_addr ∷ lay.nonwpr_heap_size ∷ lay.wpr2_addr ∷ lay.heap_addr
          ∷ lay.heap_size ∷ lay.elf_addr ∷ lay.boot_addr ∷ lay.frts_addr ∷ lay.frts_size
          ∷ lay.wpr2_end ∷ lay.fb_size ∷ src.vga_workspace_addr ∷ src.vga_workspace_size ∷ []))

-- `nv_gsp_libos_region_t`; a name is the list of its characters.
pub record LibosRegion : Type 0 where
  pub name : List ℕ
  pub pa : ℕ
  pub size : ℕ

-- The loop of `nv_gsp_libos_id8`.
unfoldable pub id_loop : ℕ → List ℕ → ℕ → ℕ
id_loop zero name id = id
id_loop (suc left) [] id = id
id_loop (suc left) (c ∷ name) id = id_loop left name (bit_or (u64 (id <<< 8)) (u8 c))

unfoldable pub libos_id8 : List ℕ → ℕ
libos_id8 name = id_loop 8 name 0

-- The loop over the regions, with the entry at `e`.
unfoldable pub libos_entries : Buffer → List LibosRegion → ℕ → Buffer
libos_entries m [] e = m
libos_entries m (r ∷ rs) e =
    let m0 = store64 m e (libos_id8 r.name) in
    let m1 = store64 m0 (e + 8) r.pa in
    let m2 = store64 m1 (e + 16) r.size in
    let m3 = put8 m2 (e + 24) 1 in libos_entries (put8 m3 (e + 25) 1) rs (e + 32)

-- The buffer and the size of the arguments.
unfoldable pub libos_build_args : Buffer → List LibosRegion → Result Error (Buffer × ℕ)
libos_build_args buf regions =
    let size = length regions * 32 in
    if ltb buf.len size
    then err bounds
    else ok (libos_entries (fill buf 0 (λ i. 0) size 0) regions 0, size)

unfoldable pub pte_array_fill : Buffer → ℕ → ℕ → ℕ → Result Error Buffer
pte_array_fill buf offset dma_base region_size =
    let pages = (region_size +64 0x1000 -64 1) / 0x1000 in
    if region_size == 0
    then err argument
    else if ltb buf.len (offset +64 pages * 8)
    then err bounds
    else ok (fill64 buf offset (λ i. dma_base +64 u64 (i * 0x1000)) pages 0)

-- The entries of level 2, and its pages.
unfoldable pub radix3_levels : ℕ → Result Error (ℕ × ℕ)
radix3_levels fwimage_size =
    let pages = (fwimage_size +64 0x1000 -64 1) / 0x1000 in
    let l2_pages = (pages * 8 +64 0x1000 -64 1) / 0x1000 in
    if fwimage_size == 0
    then err argument
    else if ltb 512 l2_pages
    then err capacity
    else ok (u32 pages, u32 l2_pages)

pub record Levels : Type 0 where
  pub lvl0 : Buffer
  pub lvl1 : Buffer
  pub lvl2 : Buffer

unfoldable pub fill_levels : Levels → ℕ → ℕ → ℕ → ℕ → ℕ → Levels
fill_levels t n2 l2_pages dma_fwimage dma_lvl2 dma_lvl1 = record {
  lvl2 = fill64 t.lvl2 0 (λ i. dma_fwimage +64 i * 0x1000) n2 0;
  lvl1 = fill64 t.lvl1 0 (λ j. dma_lvl2 +64 j * 0x1000) l2_pages 0;
  lvl0 = store64 t.lvl0 0 dma_lvl1;
}

unfoldable pub radix3_fill : ℕ → Levels → ℕ → ℕ → ℕ → Result Error Levels
radix3_fill fwimage_size t dma_fwimage dma_lvl2 dma_lvl1 = elim (radix3_levels fwimage_size) [
  | err e ↦ err e
  | ok (n2, l2_pages) ↦ ok (fill_levels t n2 l2_pages dma_fwimage dma_lvl2 dma_lvl1)
]
