-- ===== src/Booter/Signature.antt =====
-- The signature that `nv_booter_select_signature` chooses.
use rtxmac_oc.Base.{ℕ, ◌+◌, ◌^◌, ◌<◌, ◌≡◌, arith, ◌⊎◌, ◌↔◌}
use rtxmac_oc.Base.{ok}
use rtxmac_oc.Bytes.Defs.{guard, ◌>>◌}
use rtxmac_oc.Booter.Defs.{Desc, select_signature}

-- With 32-bit counts, the signature chosen is one of the container's: the last one where the fuses
-- give no version, else the one as far from the first as the container's version is above that of
-- the fuses; and whenever there is such a signature, it is chosen.
pub select_signature_iff :
    (d : Desc) (version index : ℕ)
    → d.num_sig < 2 ^ 32
    → d.sig_fuse_ver < 2 ^ 32
    → (select_signature d version ≡ ok index) ↔ (
        (index < d.num_sig)
        × (((version ≡ 0) × (index + 1 ≡ d.num_sig))
            ⊎ ((0 < version) × (index + version ≡ d.sig_fuse_ver))))
unfolding select_signature guard ◌>>◌
select_signature_iff d version index hn hf = ground arith
