-- ===== src/Elf/Section.antt =====
-- `nv_elf64_section` finds the first section with the name, inside the file.
use rtxmac_oc.Base.{ℕ, zero, suc, ◌+◌, ◌*◌, ◌≤◌, ◌<◌, ◌≡◌, arith, true, not}
use rtxmac_oc.Base.{List, ◌↔◌}
use rtxmac_oc.Bytes.Defs.{Buffer, word16, word32, word64}
use rtxmac_oc.Bytes.Ensures.{
  Ensures, Ensures-weaken, ok-Ensures, guard-Ensures, bind-Ensures, if-Ensures, fits-le,
}
use rtxmac_oc.Bytes.Ensures.{
  ld8-Ensures, ld16_value-Ensures, ld32_value-Ensures, ld64_value-Ensures,
}
use rtxmac_oc.Elf.Defs.{find_section, elf64_section}
use rtxmac_oc.Elf.Names.{IsNamed, is_named-Ensures}

module _ (buf : Buffer) (name : List ℕ) (str_off str_size shentsz : ℕ) where
  -- The header at `sh` has the name.
  abbrev pub Matches : ℕ → Type 0
  Matches sh = IsNamed buf name str_off str_size (word32 buf sh)

  -- The first of `shnum` headers from `sh` on that has the name, and the range that it gives.
  pub record IsFirst (shnum sh : ℕ) (r : ℕ × ℕ) : Type 0 where
    pub index : ℕ
    pub counted : index < shnum
    pub named : Matches (sh + index * shentsz)
    pub first : (j : ℕ) → j < index → ¬ Matches (sh + j * shentsz)
    pub offset : r.0 ≡ word64 buf (sh + index * shentsz + 0x18)
    pub size : r.1 ≡ word64 buf (sh + index * shentsz + 0x20)
    pub inside : r.0 + r.1 ≤ buf.len

  later_header : (sh i : ℕ) → sh + shentsz + i * shentsz ≡ sh + suc i * shentsz
  later_header sh i = grind arith

  next-IsFirst :
      (shnum sh : ℕ) (r : ℕ × ℕ)
      → ¬ Matches sh
      → IsFirst shnum (sh + shentsz) r
      → IsFirst (suc shnum) sh r
  next-IsFirst shnum sh r skip f =
      let at = later_header sh f.index in
      record {
        index = suc f.index;
        counted = omega (arith, f.counted);
        named = rw (← at) f.named;
        first = λ j h. not_before shnum sh r skip f j h;
        offset = rw (← at) f.offset;
        size = rw (← at) f.size;
        inside = f.inside;
      }
    where
      not_before :
          (shnum sh : ℕ) (r : ℕ × ℕ)
          → ¬ Matches sh
          → (f : IsFirst shnum (sh + shentsz) r) → (j : ℕ) → j < suc f.index
          → ¬ Matches (sh + j * shentsz)
      not_before shnum sh r skip f zero h = let e : sh + 0 * shentsz ≡ sh = omega arith in rw e skip
      not_before shnum sh r skip f (suc j) h = rw (← later_header sh j) (f.first j (omega arith))

  find_section-Ensures :
      (shnum sh : ℕ)
      → str_off + str_size ≤ buf.len
      → 64 ≤ shentsz
      → sh + shnum * shentsz ≤ buf.len
      → Ensures (IsFirst shnum sh) (find_section buf name str_off str_size shentsz shnum sh)
  unfolding find_section
  find_section-Ensures zero sh strings wide fit = record { holds = tt }
  find_section-Ensures (suc shnum) sh strings wide fit =
      let header : sh + 64 ≤ buf.len = grind (arith, wide, fit) in
      let later : sh + shentsz + shnum * shentsz ≤ buf.len = grind (arith, fit) in
      bind-Ensures _ (λ v. v ≡ word32 buf sh) _ _
        (ld32_value-Ensures buf sh (omega (arith, header)))
        λ sh_name at_name.
          bind-Ensures _ (λ b. (b ≡ true) ↔ Matches sh) _ _
            (rw (← at_name) (is_named-Ensures buf name str_off str_size sh_name strings))
            λ named decides.
              if-Ensures _ (not named) _ _
                (λ differ.
                  Ensures-weaken _ (find_section-Ensures shnum (sh + shentsz) strings wide later)
                    (λ r f. next-IsFirst shnum sh r (λ q. let t = decides.1 q in cc) f))
                (λ equal.
                  bind-Ensures _ (λ v. v ≡ word64 buf (sh + 0x18)) _ _
                    (ld64_value-Ensures buf (sh + 0x18) (omega (arith, header)))
                    λ so at_so.
                      bind-Ensures _ (λ v. v ≡ word64 buf (sh + 0x20)) _ _
                        (ld64_value-Ensures buf (sh + 0x20) (omega (arith, header)))
                        λ ss at_ss. guard-Ensures _ _ _ _ λ inside.
                          let e : sh + 0 * shentsz ≡ sh = omega arith in
                          ok-Ensures _ _ (record {
                            index = 0;
                            counted = omega arith;
                            named = rw e (decides.0 (ground (arith, equal)));
                            first = λ j h. elim h [ ];
                            offset = rw e at_so;
                            size = rw e at_ss;
                            inside = fits-le so ss buf.len inside;
                          }))

-- What the file's header says: where the section headers are, and the string table's range.
abbrev pub headers_at : Buffer → ℕ
headers_at buf = word64 buf 0x28

abbrev pub header_size : Buffer → ℕ
header_size buf = word16 buf 0x3a

abbrev pub header_count : Buffer → ℕ
header_count buf = word16 buf 0x3c

abbrev pub strings_at : Buffer → ℕ
strings_at buf = headers_at buf + word16 buf 0x3e * header_size buf

-- For any file and any name, the lookup reads nothing outside the file, and a range that it returns
-- is inside the file and is the one of the first section header whose name, in the string table
-- that the file's header names, is the name asked for.
pub elf64_section-Ensures :
    (buf : Buffer) (name : List ℕ)
    → Ensures
        (IsFirst buf name
          (word64 buf (strings_at buf + 0x18))
          (word64 buf (strings_at buf + 0x20))
          (header_size buf)
          (header_count buf)
          (headers_at buf))
        (elf64_section buf name)
unfolding elf64_section
elf64_section-Ensures buf name = guard-Ensures _ _ _ _ λ long.
    let header : 64 ≤ buf.len = ground (arith, long) in
    ld8-Ensures _ buf 0 _ (omega arith) λ b0 h0. ld8-Ensures _ buf 1 _ (omega arith) λ b1 h1.
      ld8-Ensures _ buf 2 _ (omega arith) λ b2 h2. ld8-Ensures _ buf 3 _ (omega arith) λ b3 h3.
        guard-Ensures _ _ _ _ λ is_magic. ld8-Ensures _ buf 4 _ (omega arith) λ b4 h4.
          ld8-Ensures _ buf 5 _ (omega arith) λ b5 h5. guard-Ensures _ _ _ _ λ is_class.
            bind-Ensures _ _ _ _ (ld64_value-Ensures buf 0x28 (omega arith)) λ shoff e1.
              bind-Ensures _ _ _ _ (ld16_value-Ensures buf 0x3a (omega arith)) λ shentsz e2.
                bind-Ensures _ _ _ _ (ld16_value-Ensures buf 0x3c (omega arith)) λ shnum e3.
                  bind-Ensures _ _ _ _ (ld16_value-Ensures buf 0x3e (omega arith)) λ shstrnd e4.
                    guard-Ensures _ _ _ _ λ sizes. guard-Ensures _ _ _ _ λ headers_fit.
                      guard-Ensures _ _ _ _ λ strings_index.
                        let wide : 64 ≤ shentsz = ground (arith, sizes) in
                        let headers = fits-le shoff (shnum * shentsz) buf.len headers_fit in
                        let index : shstrnd + 1 ≤ shnum = ground (arith, strings_index) in
                        let strings : shoff + shstrnd * shentsz + 64 ≤ buf.len =
                          string_header shoff shstrnd shentsz shnum buf.len wide headers index in
                        bind-Ensures _ _ _ _
                          (ld64_value-Ensures buf (shoff + shstrnd * shentsz + 0x18) (omega arith))
                          λ str_off e5.
                            bind-Ensures _ _ _ _
                              (ld64_value-Ensures buf (shoff + shstrnd * shentsz + 0x20)
                                (omega arith))
                              λ str_size e6. guard-Ensures _ _ _ _ λ strings_fit.
                                rw (← e1, ← e2, ← e3, ← e4, ← e5, ← e6)
                                  (find_section-Ensures buf name str_off str_size shentsz shnum
                                    shoff (fits-le str_off str_size buf.len strings_fit) wide
                                    headers)
  where
    string_header :
        (shoff i size count len : ℕ)
        → 64 ≤ size
        → shoff + count * size ≤ len
        → i + 1 ≤ count
        → shoff + i * size + 64 ≤ len
    string_header shoff i size count len wide fit index =
        let more : (i + 1) * size ≤ count * size = grind (arith, index) in
        grind (arith, more, wide, fit)
