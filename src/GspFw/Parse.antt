-- ===== src/GspFw/Parse.antt =====
-- The firmware image's sections and the boot loader's container.
use rtxmac_oc.Base.{ℕ, ◌+◌, ◌≤◌, ◌≡◌, arith, List, ok, err}
use rtxmac_oc.Bytes.Defs.{Buffer, Outcome, fault, code, word32, word64}
use rtxmac_oc.Bytes.Ensures.{Ensures, guard-Ensures, bind-Ensures, ok-Ensures, ld32_value-Ensures}
use rtxmac_oc.Bytes.Ensures.{fits-le}
use rtxmac_oc.Elf.Defs
use rtxmac_oc.Elf.Defs.{elf64_section}
use rtxmac_oc.Elf.Section.{
  IsFirst, elf64_section-Ensures, strings_at, headers_at, header_size, header_count,
}
use rtxmac_oc.GspFw.Defs.{
  Error, Sections, Bootloader, section, elf_error, rm_sections, fwimage_name, bootloader_parse,
}

-- The range of the first section that has the name.
abbrev pub IsSection : Buffer → List ℕ → ℕ × ℕ → Type 0
IsSection elf name =
    IsFirst elf name (word64 elf (strings_at elf + 0x18)) (word64 elf (strings_at elf + 0x20))
      (header_size elf) (header_count elf) (headers_at elf)

section-Ensures : (elf : Buffer) (name : List ℕ) → Ensures (IsSection elf name) (section elf name)
unfolding section
section-Ensures elf name = recoded (elf64_section elf name) (elf64_section-Ensures elf name)
  where
    recoded :
        (r : Outcome Defs.Error (ℕ × ℕ))
        → Ensures (IsSection elf name) r
        → Ensures {E = Error} (IsSection elf name) (elim r [
          | ok range ↦ ok range
          | err fault ↦ err fault
          | err (code e) ↦ err (code (elf_error e))
        ])
    recoded (ok range) h = record { holds = h.holds }
    recoded (err fault) h = record { holds = h.holds }
    recoded (err (code e)) h = record { holds = tt }

-- Both ranges are those of the first sections with the names.
pub record AreSections (elf : Buffer) (chip_sig : List ℕ) (s : Sections) : Type 0 where
  pub image : IsSection elf fwimage_name (s.fwimage_off, s.fwimage_size)
  pub signature : IsSection elf chip_sig (s.sig_off, s.sig_size)

-- For any file, nv_gsp_rm_sections reads nothing outside it, and the ranges that it returns are inside
-- the file and are those of the first section named .fwimage and of the first with the name of the
-- signature.
pub rm_sections-Ensures :
    (elf : Buffer) (chip_sig : List ℕ)
    → Ensures (AreSections elf chip_sig) (rm_sections elf chip_sig)
unfolding rm_sections
rm_sections-Ensures elf chip_sig =
    bind-Ensures _ _ _ _ (section-Ensures elf fwimage_name) λ image hi.
      bind-Ensures _ _ _ _ (section-Ensures elf chip_sig)
        λ sig hs. ok-Ensures _ _ (record { image = hi; signature = hs })

-- The payload inside the container, and the words of the descriptor at the place that the header names.
pub record IsBootloader (buf : Buffer) (b : Bootloader) : Type 0 where
  pub magic : word32 buf 0 ≡ 0x10de
  pub payload_inside : b.data_abs + b.data_size ≤ buf.len
  pub payload_at : b.data_abs ≡ word32 buf 16
  pub descriptor_inside : word32 buf 12 + 84 ≤ buf.len
  pub version : b.app_version ≡ word32 buf (word32 buf 12 + 28)
  pub manifest : b.manifest_offset ≡ word32 buf (word32 buf 12 + 32)
  pub manifest_length : b.manifest_size ≡ word32 buf (word32 buf 12 + 36)
  pub monitor_data : b.data_offset ≡ word32 buf (word32 buf 12 + 40)
  pub monitor_code : b.code_offset ≡ word32 buf (word32 buf 12 + 48)

-- For any container, nv_gsp_bootloader_parse reads nothing outside it; what it returns has the payload
-- inside the container and the values of the descriptor that the header names, which is inside too.
pub bootloader_parse-Ensures : (buf : Buffer) → Ensures (IsBootloader buf) (bootloader_parse buf)
unfolding bootloader_parse
bootloader_parse-Ensures buf = guard-Ensures _ _ _ _ λ whole.
    let header = fits-le 0 24 buf.len whole in
    bind-Ensures _ _ _ _ (ld32_value-Ensures buf 0 (omega arith)) λ magic e0.
      guard-Ensures _ _ _ _ λ is_magic.
        bind-Ensures _ _ _ _ (ld32_value-Ensures buf 12 (omega arith)) λ hdr e1.
          bind-Ensures _ _ _ _ (ld32_value-Ensures buf 16 (omega arith)) λ payload e2.
            bind-Ensures _ _ _ _ (ld32_value-Ensures buf 20 (omega arith)) λ size e3.
              guard-Ensures _ _ _ _ λ data_fits. guard-Ensures _ _ _ _ λ desc_fits.
                let fit = fits-le hdr 84 buf.len desc_fits in
                bind-Ensures _ _ _ _ (ld32_value-Ensures buf (hdr + 28) (omega arith)) λ v e4.
                  bind-Ensures _ _ _ _ (ld32_value-Ensures buf (hdr + 32) (omega arith)) λ mo e5.
                    bind-Ensures _ _ _ _ (ld32_value-Ensures buf (hdr + 36) (omega arith)) λ ms e6.
                      bind-Ensures _ _ _ _ (ld32_value-Ensures buf (hdr + 40) (omega arith))
                        λ monitor e7.
                          bind-Ensures _ _ _ _ (ld32_value-Ensures buf (hdr + 48) (omega arith))
                            λ co e8. ok-Ensures _ _ (record {
                              magic = ground (arith, is_magic, e0);
                              payload_inside = fits-le payload size buf.len data_fits;
                              payload_at = e2;
                              descriptor_inside = omega (arith, fit, e1);
                              version = rw (← e1) e4;
                              manifest = rw (← e1) e5;
                              manifest_length = rw (← e1) e6;
                              monitor_data = rw (← e1) e7;
                              monitor_code = rw (← e1) e8;
                            })
