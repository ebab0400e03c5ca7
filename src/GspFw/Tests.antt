-- ===== src/GspFw/Tests.antt =====
-- A card with 24 GiB, an image of 30 MiB and a boot loader's container, and the theorems at them.
use rtxmac_oc.Base.{ℕ, ◌+◌, ◌*◌, ◌/◌, ◌%◌, ◌^◌, ◌<◌, ◌≡◌, refl, arith, ◌⊎◌, ok, err, some, List}
use rtxmac_oc.Base.{[], ◌∷◌, get_or}
use rtxmac_oc.Bytes.Defs.{
  Buffer, join16, join32, word16, word32, word64, ld8, ld16, ld32, ld64, fits, guard, ◌>>=◌, ◌>>◌,
}
use rtxmac_oc.GspFw.Defs.{Error, FwLayout, Levels, align_down, align_up, heap_need, place_regions}
use rtxmac_oc.GspFw.Defs.{fb_layout, radix3_fill, bootloader_parse, rm_sections, section}
use rtxmac_oc.GspFw.Defs.{fwimage_name, id_loop, libos_id8}
use rtxmac_oc.Elf.Defs.{equal_bytes, same_bytes, is_named, find_section, elf64_section}
use rtxmac_oc.GspFw.Layout.{IsPlaced, heap_mib, fb_layout-IsPlaced}
use rtxmac_oc.GspFw.Radix.{walk, radix3_fill-walk}

layout_run : place_regions 0x600000000 0x5ffec0000 0x100000 0x1000 0x1e00000 ≡ record {
  fb_size = 0x600000000;
  frts_addr = 0x5ffec0000;
  frts_size = 0x100000;
  boot_addr = 0x5ffebf000;
  boot_size = 0x1000;
  elf_addr = 0x5fe0b0000;
  elf_size = 0x1e00000;
  heap_addr = 0x5f6100000;
  heap_size = 0x7f00000;
  wpr2_addr = 0x5f6000000;
  wpr2_size = 0x9fc0000;
  wpr2_end = 0x5fffc0000;
  nonwpr_heap_addr = 0x5f5f00000;
  nonwpr_heap_size = 0x100000;
}
unfolding place_regions heap_need align_down align_up
layout_run = refl

abbrev PlacedCase : Type 0
PlacedCase =
    ((l : FwLayout) × (fb_layout 0x600000000 0x5ffec0000 0x100000 0x1000 0x1e00000 ≡ ok l)
      × IsPlaced 0x600000000 0x5ffec0000 0x100000 0x1000 0x1e00000 l)
    ⊎ ((e : Error) × (fb_layout 0x600000000 0x5ffec0000 0x100000 0x1000 0x1e00000 ≡ err e)
        × (◌≡◌ {A = ℕ} 0x100000 0
            ⊎ ◌≡◌ {A = ℕ} 0x1000 0
            ⊎ ◌≡◌ {A = ℕ} 0x1e00000 0
            ⊎ (0x600000000 < 0x5ffec0000 + 0x100000)
            ⊎ (0x5ffec0000 < 0x1000 + 0x1e00000 + heap_mib 0x600000000 * 0x100000 + 0x400000)))

fb_layout-IsPlaced_example : PlacedCase
fb_layout-IsPlaced_example =
    fb_layout-IsPlaced 0x600000000 0x5ffec0000 0x100000 0x1000 0x1e00000 (omega arith) (omega arith)
      (omega arith) (omega arith) (omega arith)

abbrev blank : ℕ → Buffer
blank len = record { len = len; at = λ x. 0 }

abbrev tables : Levels
tables = record { lvl0 = blank 4096; lvl1 = blank 4096; lvl2 = blank 61440 }

radix3_fill-walk_example :
    (t' : Levels) × (radix3_fill 0x1e00000 tables 0x10000000 0x20000000 0x30000000 ≡ ok t')
    × (walk t' 0x20000000 0x30000000 0x1234567 ≡ some (0x10000000 + 0x1234567))
radix3_fill-walk_example =
    radix3_fill-walk 0x1e00000 0x10000000 0x20000000 0x30000000 tables (omega arith) (omega arith)
      (omega arith) (omega arith) (omega arith) (omega arith) (omega arith) 0x1234567 (omega arith)

id_run : libos_id8 (b'L' ∷ b'O' ∷ b'G' ∷ b'R' ∷ b'M' ∷ []) ≡ 0x4c4f47524d
unfolding libos_id8 id_loop
id_run = refl

-- The bin header, and the descriptor at 24.
abbrev words : List ℕ
words =
    0x10de ∷ 1 ∷ 0 ∷ 24 ∷ 108 ∷ 64 ∷ 1 ∷ 0 ∷ 0 ∷ 0 ∷ 0 ∷ 0 ∷ 0 ∷ 7 ∷ 40 ∷ 8 ∷ 16 ∷ 8 ∷ 0 ∷ 16 ∷ []

abbrev container : Buffer
container = record { len = 172; at = λ x. get_or words (x / 4) 0 / 2 ^ (8 * (x % 4)) }

parse_run :
    bootloader_parse container
    ≡ ok (record {
      data_abs = 108;
      data_size = 64;
      app_version = 7;
      code_offset = 0;
      data_offset = 16;
      manifest_offset = 40;
      manifest_size = 8;
    })
unfolding bootloader_parse ld32 word32 join32 fits guard ◌>>=◌ ◌>>◌
parse_run = refl

-- A file with the section .fwimage, of 24 bytes at 8, and the section of its names.
abbrev elf_words : List ℕ
elf_words =
    0x464c457f ∷ 0x102 ∷ 0 ∷ 0 ∷ 0 ∷ 0 ∷ 0 ∷ 0 ∷ 0 ∷ 0 ∷ 64 ∷ 0 ∷ 0 ∷ 0 ∷ 0x400000 ∷ 0x10002 ∷ 1 ∷ 0
    ∷ 0 ∷ 0 ∷ 0 ∷ 0 ∷ 8 ∷ 0 ∷ 24 ∷ 0 ∷ 0 ∷ 0 ∷ 0 ∷ 0 ∷ 0 ∷ 0 ∷ 5 ∷ 0 ∷ 0 ∷ 0 ∷ 0 ∷ 0 ∷ 192 ∷ 0 ∷ 12
    ∷ 0 ∷ 0 ∷ 0 ∷ 0 ∷ 0 ∷ 0 ∷ 0 ∷ 0x77662e00 ∷ 0x67616d69 ∷ 0x65 ∷ []

abbrev file : Buffer
file = record { len = 204; at = λ x. get_or elf_words (x / 4) 0 / 2 ^ (8 * (x % 4)) }

sections_run :
    rm_sections file fwimage_name
    ≡ ok (record { fwimage_off = 8; fwimage_size = 24; sig_off = 8; sig_size = 24 })
unfolding rm_sections section elf64_section find_section is_named same_bytes equal_bytes word16
    word32 word64 join16 join32 ld8 ld16 ld32 ld64 fits guard ◌>>=◌ ◌>>◌
sections_run = refl
