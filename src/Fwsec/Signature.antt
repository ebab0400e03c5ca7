-- ===== src/Fwsec/Signature.antt =====
-- The choice of a signature, and its copy into the image.
use rtxmac_oc.Base.{ℕ, zero, suc, ◌+◌, ◌-◌, ◌/◌, ◌%◌, ◌^◌, ◌≤◌, ◌<◌, ◌≡◌, refl, sym, ◌∙◌, arith}
use rtxmac_oc.Base.{◌⊎◌, inl, inr, ◌↔◌, bit_and}
use rtxmac_oc.Base.{true, not, ◌==◌, ==_iff, leb, if◌then◌else◌, ok, ◌+32◌, ◌-32◌, Bool-cases}
use native.Mathlib.Nat.{one-le-pow, mod-lt, pow-le-pow_right, pow-suc}
use native.Mathlib.Decide.{ℕ_discrete}
use rtxmac_oc.Base.Bits.Mask.{bit_and-low}
use rtxmac_oc.Base.Bits.Single.{
  bit_and-two_pow, ones, ones-zero, ones-le, ones-low, bit_and_le, ones-clear_lowest,
}
use rtxmac_oc.Bytes.Defs.{Buffer, guard, ◌>>◌, byte}
use rtxmac_oc.Bytes.Ensures.{
  Ensures, Ensures-weaken, guard-Ensures, bind-Ensures, ok-Ensures, ld8_value-Ensures, fits-le,
}
use rtxmac_oc.Bytes.Stores.{byte-put8, st8-Ensures}
use rtxmac_oc.Fwsec.Defs.{
  Error, Desc, popcount_loop, popcount32, select_signature_index, copy_bytes, patch_signature,
}

popcount_loop-ones :
    (rounds v c : ℕ)
    → v < 2 ^ 32
    → ones 32 v ≤ rounds
    → c + rounds < 2 ^ 32
    → popcount_loop rounds v c ≡ c + ones 32 v
unfolding popcount_loop
popcount_loop-ones zero v c small few room = omega (arith, few)
popcount_loop-ones (suc rounds) v c small few room = elim (Bool-cases (v == 0)) [
  | inl is ↦
      let zero_v : v ≡ 0 = (==_iff v 0).0 is in rw is (rw zero_v (omega (arith, ones-zero 32)))
  | inr isnt ↦
      let step = ones-clear_lowest 32 v (ground (arith, isnt)) small in
      let count : c +32 1 ≡ c + 1 = omega (arith, room) in
      let below : bit_and v (v - 1) < 2 ^ 32 = omega (arith, bit_and_le v (v - 1), small) in
      rw (isnt, count)
        (popcount_loop-ones rounds (bit_and v (v - 1)) (c + 1) below (omega (arith, step, few))
            (omega (arith, room))
          ∙ omega (arith, step))
]

popcount32-ones : (v : ℕ) → v < 2 ^ 32 → popcount32 v ≡ ones 32 v
unfolding popcount32
popcount32-ones v small =
    omega (arith, popcount_loop-ones 32 v 0 small (ones-le 32 v) (omega arith))

below_bit :
    (versions k : ℕ) → k < 32 → popcount32 (bit_and versions (2 ^ k -32 1)) ≡ ones k versions
below_bit versions k h =
    let power : 2 ^ k < 2 ^ 32 = omega (
      arith,
      pow-le-pow_right {n = 2} (omega arith) {i = suc k} {j = 32} (omega (arith, h)),
      pow-suc 2 k,
      one-le-pow k 2 (omega arith),
    ) in
    let mask : 2 ^ k -32 1 ≡ 2 ^ k - 1 = omega (arith, power, one-le-pow k 2 (omega arith)) in
    let low : bit_and versions (2 ^ k - 1) ≡ versions % 2 ^ k = bit_and-low k versions in
    let small : versions % 2 ^ k < 2 ^ 32 =
      omega (arith, power, mod-lt versions (one-le-pow k 2 (omega arith))) in
    rw (mask, low, popcount32-ones (versions % 2 ^ k) small)
      (ones-low k 32 versions (omega (arith, h)))

bit_set :
    (versions k : ℕ) → (not (bit_and versions (2 ^ k) == 0) ≡ true) ↔ (versions / 2 ^ k % 2 ≡ 1)
bit_set versions k =
    let pos = one-le-pow k 2 (omega arith) in
    let bit = bit_and-two_pow k versions in
    elim (ℕ_discrete (versions / 2 ^ k % 2) 1) [
      | yes one ↦
          let whole : bit_and versions (2 ^ k) ≡ 2 ^ k = bit ∙ rw one (omega arith) in
          ground (arith, whole, pos, one)
      | no other ↦
          let zero_bit : versions / 2 ^ k % 2 ≡ 0 = omega arith in
          let gone : bit_and versions (2 ^ k) ≡ 0 = bit ∙ rw zero_bit (omega arith) in
          ground (arith, gone, zero_bit)
    ]

-- The index is chosen exactly where the descriptor has signatures, the version of the fuses is below
-- 32 and the descriptor has a signature for it, and it is the number of versions below that one that
-- have a signature.
pub select_signature_index_iff :
    (d : Desc) (version index : ℕ)
    → (select_signature_index d version ≡ ok index) ↔ (
        (0 < d.signature_count)
        × ((version < 32)
            × ((d.signature_versions / 2 ^ version % 2 ≡ 1)
                × (index ≡ ones version d.signature_versions))))
unfolding select_signature_index guard ◌>>◌
select_signature_index_iff d version index =
    let has = bit_set d.signature_versions version in
    elim (Bool-cases (leb 32 version)) [
      | inl large ↦ ground (arith, large)
      | inr small ↦
          let count = below_bit d.signature_versions version (ground (arith, small)) in
          rw (small, count) (ground (arith, small, has))
    ]

-- What the copying loop has done from byte `i` on: `left` bytes are the signature's, the others as
-- they were.
record IsCopied (ucode : Buffer) (off : ℕ) (sig : Buffer) (left i : ℕ) (m : Buffer) : Type 0 where
  copied : (j : ℕ) → i ≤ j → j < i + left → byte m (off + j) ≡ byte sig j
  others : (x : ℕ) → (x < off + i) ⊎ (off + i + left ≤ x) → byte m x ≡ byte ucode x
  same_len : m.len ≡ ucode.len

copy_bytes-Ensures :
    (ucode : Buffer) (off : ℕ) (sig : Buffer) (left i : ℕ)
    → off + i + left ≤ ucode.len
    → i + left ≤ sig.len
    → Ensures {E = Error} (IsCopied ucode off sig left i) (copy_bytes ucode off sig left i)
unfolding copy_bytes
copy_bytes-Ensures ucode off sig zero i room source = ok-Ensures _ _ (record {
  copied = λ j low high. absurd (omega (arith, low, high));
  others = λ x h. refl;
  same_len = refl;
})
copy_bytes-Ensures ucode off sig (suc left) i room source =
    bind-Ensures _ _ _ _ (ld8_value-Ensures sig i (omega (arith, source))) λ v ev.
      st8-Ensures _ ucode (off + i) v _ (omega (arith, room)) λ m e l.
        Ensures-weaken _
          (copy_bytes-Ensures m off sig left (i + 1) (omega (arith, room, l))
            (omega (arith, source)))
          λ m' c.
            let stored : (x : ℕ) → byte m x ≡ (if off + i == x then v % 2 ^ 8 else byte ucode x) =
              λ x. rw e (byte-put8 ucode (off + i) v x) in
            record {
              copied = λ j low high. elim (ℕ_discrete i j) [
                | yes same ↦
                    rw (sym same) (
                      c.others (off + i) (inl (omega arith))
                      ∙ stored (off + i)
                      ∙ ground (arith, ev))
                | no other ↦ c.copied j (omega (arith, low, other)) (omega (arith, high))
              ];
              others = λ x h. c.others x (ground (arith, h)) ∙ stored x ∙ ground (arith, h);
              same_len = c.same_len ∙ l;
            }

-- The signature stands where the descriptor says, and every other byte is as it was.
pub record IsSigned (ucode : Buffer) (d : Desc) (sig m : Buffer) : Type 0 where
  pub inside : d.imem_load_size + d.pkc_data_offset + 384 ≤ ucode.len
  pub signed : (j : ℕ) → j < 384 → byte m (d.imem_load_size + d.pkc_data_offset + j) ≡ byte sig j
  pub kept :
      (x : ℕ)
      → (x < d.imem_load_size + d.pkc_data_offset)
        ⊎ (d.imem_load_size + d.pkc_data_offset + 384 ≤ x)
      → byte m x ≡ byte ucode x
  pub same_len : m.len ≡ ucode.len

-- With a signature of at least 384 bytes, the copy makes no access outside the image or the
-- signature; when it succeeds, the 384 bytes stand where the descriptor says, inside the image, and
-- every other byte is as it was.
pub patch_signature-Ensures :
    (ucode : Buffer) (d : Desc) (sig : Buffer)
    → 384 ≤ sig.len
    → Ensures (IsSigned ucode d sig) (patch_signature ucode d sig)
unfolding patch_signature
patch_signature-Ensures ucode d sig whole =
    let off = d.imem_load_size + d.pkc_data_offset in
    guard-Ensures _ _ _ _ λ fit.
      let room = fits-le off 384 ucode.len fit in
      Ensures-weaken _ (copy_bytes-Ensures ucode off sig 384 0 (omega (arith, room)) whole) λ m c.
        record {
          inside = room;
          signed = λ j h. c.copied j (omega arith) h;
          kept = λ x h. c.others x (ground (arith, h));
          same_len = c.same_len;
        }
