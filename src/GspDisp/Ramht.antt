-- ===== src/GspDisp/Ramht.antt =====
-- The entry of the display's table of handles: its slot and its context word.
use rtxmac_oc.Base.{ℕ, zero, suc, ◌+◌, ◌*◌, ◌/◌, ◌%◌, ◌^◌, ◌<◌, ◌≡◌, refl, ap, ◌∙◌, arith}
use rtxmac_oc.Base.{◌==◌, bit_or, bit_xor, ◌<<<◌, u32, some, Bool-cases, inl, inr}
use Prim.Native.Nat.{max}
use native.Mathlib.Nat.{pow-suc}
use rtxmac_oc.Base.Bits.{bit_or_step}
use rtxmac_oc.Base.Bits.Mask.{bit_and-low, bit_or-shifted}
use rtxmac_oc.Base.Bits.Xor.{bit_xor-zero}
use rtxmac_oc.GspDisp.Window.{hash_loop, ramht_hash, ramht_entry}

-- The exclusive or of `c` and `n` digits of ten bits.
unfoldable pub xor_digits : ℕ → ℕ → ℕ → ℕ
xor_digits zero x c = c
xor_digits (suc n) x c = xor_digits n (x / 1024) (bit_xor c (x % 1024))

xor_digits-zero : (n c : ℕ) → xor_digits n 0 c ≡ c
unfolding xor_digits
xor_digits-zero zero c = refl
xor_digits-zero (suc n) c = rw (bit_xor-zero c) (xor_digits-zero n c)

-- The loop ends and takes in all digits.
hash_loop-eq : (n x c : ℕ) → x < 1024 ^ n → hash_loop (suc n) x c ≡ some (xor_digits n x c)
unfolding hash_loop xor_digits
hash_loop-eq zero x c h = let empty : x ≡ 0 = omega (arith, h) in rw empty refl
hash_loop-eq (suc n) x c h = elim (Bool-cases (x == 0)) [
  | inl e ↦
      let empty : x ≡ 0 = ground (arith, e) in
      rw empty (rw (bit_xor-zero c, xor_digits-zero n c) refl)
  | inr e ↦
      let rest =
        hash_loop-eq n (x / 1024) (bit_xor c (x % 1024)) (omega (arith, h, pow-suc 1024 n)) in
      rw (e, bit_and-low 10 x) rest
]

-- The lower bits that one number leaves clear are those of the other.
or_split : (k x y c : ℕ) → c < 2 ^ k → bit_or (x * 2 ^ k + c) (y * 2 ^ k) ≡ bit_or x y * 2 ^ k + c
or_split zero x y c h =
    let left : x * 2 ^ 0 + c ≡ x = omega (arith, h) in
    let right : y * 2 ^ 0 ≡ y = omega arith in rw (left, right) (omega (arith, h))
or_split (suc k) x y c h =
    let double = λ (q : ℕ). ap (λ t. q * t) (pow-suc 2 k) in
    let a : x * 2 ^ suc k ≡ x * 2 ^ k * 2 = omega (arith, double x) in
    let b : y * 2 ^ suc k ≡ y * 2 ^ k * 2 = omega (arith, double y) in
    let d : bit_or x y * 2 ^ suc k ≡ bit_or x y * 2 ^ k * 2 = omega (arith, double (bit_or x y)) in
    let left : (x * 2 ^ k * 2 + c) / 2 ≡ x * 2 ^ k + c / 2 = omega arith in
    let right : y * 2 ^ k * 2 / 2 ≡ y * 2 ^ k = omega arith in
    let rest = or_split k x y (c / 2) (omega (arith, h, pow-suc 2 k)) in
    let step = bit_or_step (x * 2 ^ k * 2 + c) (y * 2 ^ k * 2) in
    let step' : bit_or (x * 2 ^ k * 2 + c) (y * 2 ^ k * 2)
        ≡ bit_or (x * 2 ^ k + c / 2) (y * 2 ^ k) * 2
          + max ((x * 2 ^ k * 2 + c) % 2) (y * 2 ^ k * 2 % 2) =
      rw (left, right) at step in
    rw (a, b, d) (omega (arith, step', rest))

-- For a handle of 32 bits, a channel below 128 and a place of the object that is a multiple of 32 below
-- 2^16, nv_gsp_disp_ramht_entry gives the slot that is the exclusive or of the handle's four digits
-- of ten bits and 64 times the channel, modulo the 1024 slots, and a context from which the channel,
-- the place in units of 32 and the lower 14 bits of the client are read back.
pub ramht_entry_lem :
    (chid handle client inst_offset : ℕ)
    → handle < 2 ^ 32
    → chid < 128
    → inst_offset < 2 ^ 16
    → inst_offset % 32 ≡ 0
    → ((ramht_entry chid handle client inst_offset).0
        ≡ some (bit_xor (xor_digits 4 handle 0) (chid * 64) % 1024))
      × ((ramht_entry chid handle client inst_offset).1 / 2 ^ 25 ≡ chid)
      × ((ramht_entry chid handle client inst_offset).1 / 2 ^ 14 % 2 ^ 11 ≡ inst_offset / 32)
      × ((ramht_entry chid handle client inst_offset).1 % 2 ^ 14 ≡ client % 2 ^ 14)
unfolding ramht_entry ramht_hash
ramht_entry_lem chid handle client inst_offset small few near whole =
    let shifted : u32 (chid <<< 6) ≡ chid * 64 = omega (arith, few) in
    let top : u32 (chid <<< 25) ≡ chid * 2 ^ 25 = omega (arith, few) in
    let middle : u32 (inst_offset <<< 9) ≡ inst_offset / 32 * 2 ^ 14 = omega (arith, near, whole) in
    let low = bit_and-low 14 client in
    let place = inst_offset / 32 in
    let c = client % 2 ^ 14 in
    let first : bit_or (chid * 2 ^ 25) c ≡ chid * 2 ^ 11 * 2 ^ 14 + c =
      bit_or-shifted 25 chid c (omega arith) ∙ omega arith in
    let joined = bit_or-shifted 11 chid place (omega (arith, near)) in
    let word : (ramht_entry chid handle client inst_offset).1
        ≡ chid * 2 ^ 25 + inst_offset / 32 * 2 ^ 14 + client % 2 ^ 14 =
      rw (top, low, middle, first)
        (or_split 14 (chid * 2 ^ 11) place c (omega arith) ∙ omega (arith, joined)) in
    (
      rw (hash_loop-eq 4 handle 0 (omega (arith, small)), shifted, ramht_hash) refl,
      rw word (omega (arith, near)),
      rw word (omega (arith, near)),
      rw word (omega arith),
    )
