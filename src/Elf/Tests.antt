-- ===== src/Elf/Tests.antt =====
-- A file of two sections and their string table.
use rtxmac_oc.Base.{ℕ, ◌+◌, ◌*◌, ◌/◌, ◌%◌, ◌^◌, ◌≡◌, refl, List, [], ◌∷◌, get_or, ok}
use rtxmac_oc.Bytes.Defs.{
  Buffer, word16, word32, word64, join16, join32, ld8, ld16, ld32, ld64, fits, guard, ◌>>=◌, ◌>>◌,
}
use rtxmac_oc.Bytes.Ensures.{Ensures}
use rtxmac_oc.Elf.Defs.{equal_bytes, same_bytes, is_named, find_section, elf64_section}
use rtxmac_oc.Elf.Section.{
  IsFirst, strings_at, header_size, header_count, headers_at, elf64_section-Ensures,
}

-- The file in 32-bit words: the header, two section headers at 64 and 128, the strings at 192.
abbrev words : List ℕ
words =
    0x464c457f ∷ 0x102 ∷ 0 ∷ 0 ∷ 0 ∷ 0 ∷ 0 ∷ 0 ∷ 0 ∷ 0 ∷ 64 ∷ 0 ∷ 0 ∷ 0 ∷ 0x400000 ∷ 0x10002 ∷ 1 ∷ 0
    ∷ 0 ∷ 0 ∷ 0 ∷ 0 ∷ 8 ∷ 0 ∷ 24 ∷ 0 ∷ 0 ∷ 0 ∷ 0 ∷ 0 ∷ 0 ∷ 0 ∷ 4 ∷ 0 ∷ 0 ∷ 0 ∷ 0 ∷ 0 ∷ 192 ∷ 0 ∷ 8
    ∷ 0 ∷ 0 ∷ 0 ∷ 0 ∷ 0 ∷ 0 ∷ 0 ∷ 0x00662e00 ∷ 0x0000732e ∷ []

abbrev file : Buffer
file = record { len = 200; at = λ x. get_or words (x / 4) 0 / 2 ^ (8 * (x % 4)) }

abbrev dot_s : List ℕ
dot_s = b'.' ∷ b's' ∷ []

section_run : elf64_section file dot_s ≡ ok (192, 8)
unfolding elf64_section find_section is_named same_bytes equal_bytes word16 word32 word64 join16
    join32 ld8 ld16 ld32 ld64 fits guard ◌>>=◌ ◌>>◌
section_run = refl

elf64_section-Ensures_example :
    Ensures
      (IsFirst file dot_s
        (word64 file (strings_at file + 0x18))
        (word64 file (strings_at file + 0x20))
        (header_size file)
        (header_count file)
        (headers_at file))
      (elf64_section file dot_s)
elf64_section-Ensures_example = elf64_section-Ensures file dot_s
