-- ===== src/GspDisp/Tests.antt =====
-- The mode of 1920 by 1080 at 60 Hz, and the theorems at it.
use rtxmac_oc.Base.{◌*◌, ◌/◌, ◌%◌, ◌^◌, bit_xor, ◌<◌, ◌≤◌, ◌≡◌, refl, arith, ◌⊎◌, true, none, some}
use rtxmac_oc.Base.{[], ◌∷◌}
use rtxmac_oc.GspDisp.Timing.{Timing, parse_dtd}
use rtxmac_oc.GspDisp.Edid.{edid_of, IsDetailed, parse_dtd-edid_of}
use rtxmac_oc.GspDisp.Methods.{
  method_hdr, push_method, build_core_modeset, build_core_sor, read_methods,
}
use rtxmac_oc.GspDisp.Window.{ramht_entry}
use rtxmac_oc.GspDisp.Ramht.{xor_digits, ramht_entry_lem}
use rtxmac_oc.GspDisp.Raster.{Scan, IsScan, IsMode, head_methods, core_modeset-IsScan}

abbrev full_hd : Timing
full_hd = record {
  pclk_khz = 148500;
  hact = 1920;
  hblank = 280;
  hsync_off = 88;
  hsync_w = 44;
  vact = 1080;
  vblank = 45;
  vsync_off = 4;
  vsync_w = 5;
  hsync_pos = true;
  vsync_pos = true;
}

header_run : method_hdr 0x2064 1 ≡ 0x42064
unfolding method_hdr
header_run = refl

owner_run : build_core_sor 1 2 8 ≡ 0x40320 ∷ 0x804 ∷ []
unfolding build_core_sor push_method method_hdr
owner_run = refl

full_hd-IsDetailed : IsDetailed full_hd
full_hd-IsDetailed = record {
  clock = (omega arith, omega arith, refl);
  lengths = (omega arith, omega arith, omega arith, omega arith);
  horizontal = (omega arith, omega arith);
  vertical = (omega arith, omega arith);
}

parse_dtd-edid_of_example :
    ((256 < 128) × (parse_dtd (edid_of full_hd 256 (λ x. x)) ≡ none))
    ⊎ ((128 ≤ 256) × (parse_dtd (edid_of full_hd 256 (λ x. x)) ≡ some full_hd))
parse_dtd-edid_of_example = parse_dtd-edid_of full_hd 256 (λ x. x) full_hd-IsDetailed

full_hd-IsMode : IsMode full_hd
full_hd-IsMode = record {
  lengths = (omega arith, omega arith, omega arith, omega arith);
  horizontal = (omega arith, omega arith);
  vertical = (omega arith, omega arith);
  clock = omega arith;
}

core_modeset-IsScan_example :
    (h : Scan) × (v : Scan) × IsScan h 1920 280 88 44
    × IsScan v 1080 45 4 5
    × (read_methods 0 0 (build_core_modeset full_hd 3) ≡ head_methods 3 full_hd h v)
core_modeset-IsScan_example = core_modeset-IsScan full_hd 3 full_hd-IsMode (omega arith)

-- Channel 5, handle 0xcafebabe, the object at unit 3 of 32.
ramht_entry_lem_example :
    ((ramht_entry 5 0xcafebabe 0xc1d00001 96).0
      ≡ some (bit_xor (xor_digits 4 0xcafebabe 0) (5 * 64) % 1024))
    × ((ramht_entry 5 0xcafebabe 0xc1d00001 96).1 / 2 ^ 25 ≡ 5)
    × ((ramht_entry 5 0xcafebabe 0xc1d00001 96).1 / 2 ^ 14 % 2 ^ 11 ≡ 96 / 32)
    × ((ramht_entry 5 0xcafebabe 0xc1d00001 96).1 % 2 ^ 14 ≡ 0xc1d00001 % 2 ^ 14)
ramht_entry_lem_example =
    ramht_entry_lem 5 0xcafebabe 0xc1d00001 96 (omega arith) (omega arith) (omega arith) refl
