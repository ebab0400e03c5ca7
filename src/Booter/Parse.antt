-- ===== src/Booter/Parse.antt =====
-- `nv_booter_parse` reads nothing outside the container, and what it returns lies inside it.
use rtxmac_oc.Base.{ℕ, zero, suc, ◌+◌, ◌*◌, ◌^◌, ◌≤◌, ◌<◌, ◌≡◌, refl, arith, true, ltb, not, ◌&&◌}
use rtxmac_oc.Base.{◌+32◌}
use rtxmac_oc.Base.{length}
use rtxmac_oc.Bytes.Defs.{Buffer, fits}
use rtxmac_oc.Bytes.Ensures.{
  Ensures, guard-Ensures, bind-Ensures, ok-Ensures, ld32-Ensures, fits-le,
}
use rtxmac_oc.Booter.Defs.{Desc, read_app, read_apps, booter_parse}

-- The parts of a parsed container: the data and the signatures inside the image, as many signatures
-- as their size says, code and data inside the data region, at most eight applications, and the
-- place of the signature counted from the start of the data.
pub record IsDesc (buf : Buffer) (d : Desc) : Type 0 where
  pub data_inside : d.data_abs + d.data_size ≤ buf.len
  pub signatures_inside : d.sig_prod_abs + d.num_sig * 384 ≤ buf.len
  pub signatures_size : d.sig_prod_size ≡ d.num_sig * 384
  pub meta_inside : d.meta_abs + 12 ≤ buf.len
  pub code_inside : d.os_code_offset + d.os_code_size ≤ d.data_size
  pub os_data_inside : d.os_data_offset + d.os_data_size ≤ d.data_size
  pub few_apps : d.num_apps ≤ 8
  pub all_apps : length d.app ≡ d.num_apps
  pub patch : d.patch_loc ≡ d.os_data_offset + d.pkc_data_offset

read_app-Ensures :
    (buf : Buffer) (a : ℕ) → a + 16 ≤ buf.len → Ensures (λ app. Unit) (read_app buf a)
unfolding read_app
read_app-Ensures buf a h = ld32-Ensures _ buf a _ (omega arith) λ v1 h1.
    ld32-Ensures _ buf (a + 4) _ (omega arith) λ v2 h2.
      ld32-Ensures _ buf (a + 8) _ (omega arith)
        λ v3 h3. ld32-Ensures _ buf (a + 12) _ (omega arith) λ v4 h4. record { holds = tt }

read_apps-Ensures :
    (buf : Buffer) (n a : ℕ)
    → a + n * 16 ≤ buf.len
    → Ensures (λ l. length l ≡ n) (read_apps buf n a)
unfolding read_apps
read_apps-Ensures buf zero a h = record { holds = refl }
read_apps-Ensures buf (suc n) a h =
    bind-Ensures _ _ (read_app buf a) _ (read_app-Ensures buf a (omega arith)) λ app u.
      bind-Ensures _ _ (read_apps buf n (a + 16)) _ (read_apps-Ensures buf n (a + 16) (omega arith))
        λ rest l. record { holds = omega (arith, l) }

three_fit :
    (a b c len : ℕ)
    → (fits a 4 len && fits b 4 len && fits c 4 len) ≡ true
    → (a + 4 ≤ len) × (b + 4 ≤ len) × (c + 4 ≤ len)
unfolding fits
three_fit a b c len h = (ground (arith, h), ground (arith, h), ground (arith, h))

meta_fit : (size off len : ℕ) → (not (ltb size 12) && fits off 12 len) ≡ true → off + 12 ≤ len
unfolding fits
meta_fit size off len h = ground (arith, h)

-- On an image below 4 GiB the parser makes no access outside it, and a descriptor that it returns
-- names data, signatures and meta data inside the image, 384 bytes for each signature, code and
-- data inside the data region, as many applications as it counts, at most eight, and a place for
-- the signature at or behind the start of the data.
pub booter_parse-Ensures :
    (buf : Buffer) → buf.len < 2 ^ 32 → Ensures (IsDesc buf) (booter_parse buf)
unfolding booter_parse
booter_parse-Ensures buf small =
    let len = buf.len in
    guard-Ensures _ _ _ _ λ whole.
      let header = fits-le 0 24 len whole in
      ld32-Ensures _ buf 0 _ (omega arith) λ m hm. guard-Ensures _ _ _ _ λ is_magic.
        ld32-Ensures _ buf 12 _ (omega arith) λ hdr h1.
          ld32-Ensures _ buf 16 _ (omega arith) λ data_off h2.
            ld32-Ensures _ buf 20 _ (omega arith) λ data_size h3. guard-Ensures _ _ _ _ λ data_fits.
              guard-Ensures _ _ _ _ λ hdr_fits.
                let at_hdr = fits-le hdr 36 len hdr_fits in
                ld32-Ensures _ buf hdr _ (omega arith) λ sig_off h4.
                  ld32-Ensures _ buf (hdr + 4) _ (omega arith) λ sig_size h5.
                    ld32-Ensures _ buf (hdr + 8) _ (omega arith) λ loc_off h6.
                      ld32-Ensures _ buf (hdr + 12) _ (omega arith) λ psig_off h7.
                        ld32-Ensures _ buf (hdr + 16) _ (omega arith) λ meta_off h8.
                          ld32-Ensures _ buf (hdr + 20) _ (omega arith) λ meta_size h9.
                            ld32-Ensures _ buf (hdr + 24) _ (omega arith) λ num_off h10.
                              ld32-Ensures _ buf (hdr + 28) _ (omega arith) λ load h11.
                                guard-Ensures _ _ _ _ λ sig_fits.
                                  guard-Ensures _ _ _ _ λ values_fit.
                                    let values =
                                      three_fit loc_off psig_off num_off len values_fit in
                                    ld32-Ensures _ buf loc_off _ values.0 λ patch_loc h12.
                                      ld32-Ensures _ buf psig_off _ values.1 λ patch_sig h13.
                                        ld32-Ensures _ buf num_off _ values.2 λ num_sig h14.
                                          guard-Ensures _ _ _ _ λ sizes.
                                            guard-Ensures _ _ _ _ λ meta_ok.
                                              let meta_fits =
                                                meta_fit meta_size meta_off len meta_ok in
                                              ld32-Ensures _ buf meta_off _ (omega arith)
                                                λ fuse_ver h15.
                                                  ld32-Ensures _ buf (meta_off + 4) _ (omega arith)
                                                    λ engine_id h16.
                                                      ld32-Ensures _ buf (meta_off + 8) _
                                                        (omega arith)
                                                        λ ucode_id h17.
                                                          guard-Ensures _ _ _ _ λ load_fits.
                                                            let at_load =
                                                            fits-le load 20 len load_fits in
                                                            ld32-Ensures _ buf load _ (omega arith)
                                                            λ code_off h18.
                                                            ld32-Ensures _ buf (load + 4) _
                                                            (omega arith)
                                                            λ code_size h19.
                                                            ld32-Ensures _ buf (load + 8) _
                                                            (omega arith)
                                                            λ os_data_off h20.
                                                            ld32-Ensures _ buf (load + 12) _
                                                            (omega arith)
                                                            λ os_data_size h21.
                                                            ld32-Ensures _ buf (load + 16) _
                                                            (omega arith)
                                                            λ num_apps h22.
                                                            guard-Ensures _ _ _ _ λ few.
                                                            guard-Ensures _ _ _ _ λ apps_fit.
                                                            bind-Ensures _
                                                            (λ l. length l ≡ num_apps)
                                                            (read_apps buf num_apps (load + 20)) _
                                                            (read_apps-Ensures buf num_apps
                                                            (load + 20)
                                                            (omega (
                                                            arith,
                                                            fits-le (load +32 20) (num_apps * 16)
                                                            len apps_fit,
                                                            )))
                                                            λ app apps.
                                                            guard-Ensures _ _ _ _ λ regions.
                                                            guard-Ensures _ _ _ _ λ behind.
                                                            ok-Ensures _ _ (record {
                                                            data_inside =
                                                            fits-le data_off data_size len
                                                            data_fits;
                                                            signatures_inside = ground (
                                                            arith,
                                                            sizes,
                                                            fits-le sig_off sig_size len sig_fits,
                                                            );
                                                            signatures_size = ground (arith, sizes);
                                                            meta_inside = meta_fits;
                                                            code_inside = ground (arith, regions);
                                                            os_data_inside =
                                                            ground (arith, regions);
                                                            few_apps = ground (arith, few);
                                                            all_apps = apps;
                                                            patch = ground (arith, behind);
                                                            })
