-- ===== src/GspRpc/Checksum.antt =====
-- The exclusive or over the words of an element.
use rtxmac_oc.Base.{ℕ, zero, suc, ◌+◌, ◌*◌, ◌/◌, ◌%◌, ◌^◌, ◌≤◌, ◌<◌, ◌≡◌, ◌≢◌, refl, sym, ap, ◌∙◌}
use rtxmac_oc.Base.{arith, ◌⊎◌, inr, bit_xor}
use native.Mathlib.Decide.{ℕ_discrete}
use rtxmac_oc.Base.Bits.Xor.{
  bit_xor_comm, bit_xor_assoc, bit_xor_self, bit_xor-zero, bit_xor-div, bit_xor-mod, bit_xor_above,
}
use rtxmac_oc.Bytes.Defs.{Buffer, word32}
use rtxmac_oc.Bytes.Words.{word64-eq, word32-small}
use rtxmac_oc.Bytes.Stores.{put32, word32-put32, word32-put32_apart}
use rtxmac_oc.Bytes.Fill.{load64, load64-word64}
use rtxmac_oc.GspRpc.Defs.{sum_words, fold_sum}

-- A bit pattern taken into the sum at the start is in it at the end.
sum-shift :
    (m : Buffer) (e left i c d : ℕ)
    → sum_words m e left i (bit_xor c d) ≡ bit_xor (sum_words m e left i c) d
unfolding sum_words
sum-shift m e zero i c d = refl
sum-shift m e (suc left) i c d =
    let w = load64 m (e + i * 8) in
    let swapped : bit_xor (bit_xor c d) w ≡ bit_xor (bit_xor c w) d =
      bit_xor_assoc c d w ∙ ap (bit_xor c) (bit_xor_comm d w) ∙ sym (bit_xor_assoc c w d) in
    rw swapped (sum-shift m e left (i + 1) (bit_xor c w) d)

module _ (m m' : Buffer) (e k d : ℕ)
    (same : (j : ℕ) → j ≢ k → load64 m' (e + j * 8) ≡ load64 m (e + j * 8))
    (changed : load64 m' (e + k * 8) ≡ bit_xor (load64 m (e + k * 8)) d) where
  sum_past : (left i c : ℕ) → k < i → sum_words m' e left i c ≡ sum_words m e left i c
  unfolding sum_words
  sum_past zero i c h = refl
  sum_past (suc left) i c h =
      let here = same i (λ is. absurd (omega (arith, h, is))) in
      rw here (sum_past left (i + 1) (bit_xor c (load64 m (e + i * 8))) (omega (arith, h)))

  -- A pattern in one of the words is in the sum.
  sum-changed :
      (left i c : ℕ)
      → i ≤ k
      → k < i + left
      → sum_words m' e left i c ≡ bit_xor (sum_words m e left i c) d
  unfolding sum_words
  sum-changed zero i c low high = absurd (omega (arith, low, high))
  sum-changed (suc left) i c low high = elim (ℕ_discrete i k) [
    | yes is ↦
        let w = load64 m (e + i * 8) in
        let here : load64 m' (e + i * 8) ≡ bit_xor w d = rw is changed in
        let moved : bit_xor c (bit_xor w d) ≡ bit_xor (bit_xor c w) d = sym (bit_xor_assoc c w d) in
        rw (here, moved)
          (sum_past left (i + 1) (bit_xor (bit_xor c w) d) (omega (arith, is))
            ∙ sum-shift m e left (i + 1) (bit_xor c w) d)
    | no other ↦ rw (same i other) (
        sum-changed left (i + 1) (bit_xor c (load64 m (e + i * 8))) (omega (arith, low, other))
          (omega (arith, high)))
  ]

-- The folded sum taken into the sum clears the fold.
fold-cancel : (x : ℕ) → fold_sum (bit_xor x (fold_sum x)) ≡ 0
unfolding fold_sum
fold-cancel x =
    let hi = x / 2 ^ 32 % 2 ^ 32 in
    let lo = x % 2 ^ 32 in
    let d = bit_xor hi lo in
    let small : d % 2 ^ 32 ≡ d =
      bit_xor-mod 32 hi lo
      ∙ (let h : hi % 2 ^ 32 ≡ hi = omega arith in
          let l : lo % 2 ^ 32 ≡ lo = omega arith in rw (h, l) refl) in
    let none_above : d / 2 ^ 32 ≡ 0 = omega (arith, small) in
    let high : bit_xor x d / 2 ^ 32 ≡ x / 2 ^ 32 =
      bit_xor-div 32 x d ∙ rw none_above (bit_xor-zero (x / 2 ^ 32)) in
    let low : bit_xor x d % 2 ^ 32 ≡ hi =
      bit_xor-mod 32 x d
      ∙ rw small (
          bit_xor_comm lo d
          ∙ bit_xor_assoc hi lo lo
          ∙ ap (bit_xor hi) (bit_xor_self lo)
          ∙ bit_xor-zero hi) in
    rw (high, low) (bit_xor_self hi)

fold-small : (x : ℕ) → fold_sum x < 2 ^ 32
unfolding fold_sum
fold-small x =
    let hi = x / 2 ^ 32 % 2 ^ 32 in
    let lo = x % 2 ^ 32 in
    let h : hi % 2 ^ 32 ≡ hi = omega arith in
    let l : lo % 2 ^ 32 ≡ lo = omega arith in
    let same : bit_xor hi lo % 2 ^ 32 ≡ bit_xor hi lo = bit_xor-mod 32 hi lo ∙ rw (h, l) refl in
    omega (arith, same)

-- A word in an empty lower half.
load64-put32 :
    (m : Buffer) (p d : ℕ)
    → d < 2 ^ 32
    → word32 m p ≡ 0
    → load64 (put32 m p d) p ≡ bit_xor (load64 m p) d
load64-put32 m p d small empty =
    let m' = put32 m p d in
    let hi = word32 m (p + 4) in
    let before : load64 m p ≡ hi * 2 ^ 32 =
      omega (arith, load64-word64 m p, word64-eq m p, empty) in
    let kept : word32 m' (p + 4) ≡ hi = word32-put32_apart m p d (p + 4) (inr (omega arith)) in
    let after : load64 m' p ≡ hi * 2 ^ 32 + d =
      omega (arith, load64-word64 m' p, word64-eq m' p, word32-put32 m p d, kept, small) in
    rw before (after ∙ sym (bit_xor_above 32 hi d small))

load64-put32_apart :
    (m : Buffer) (p d x : ℕ) → (x + 8 ≤ p) ⊎ (p + 4 ≤ x) → load64 (put32 m p d) x ≡ load64 m x
load64-put32_apart m p d x h =
    let m' = put32 m p d in
    let low : word32 m' x ≡ word32 m x = word32-put32_apart m p d x (ground (arith, h)) in
    let high : word32 m' (x + 4) ≡ word32 m (x + 4) =
      word32-put32_apart m p d (x + 4) (ground (arith, h)) in
    omega (arith, load64-word64 m' x, load64-word64 m x, word64-eq m' x, word64-eq m x, low, high)

-- With the folded sum in the empty field at 32, the words of an element add up to 0.
pub checked :
    (m : Buffer) (e left : ℕ)
    → 4 < left
    → word32 m (e + 32) ≡ 0
    → fold_sum (sum_words (put32 m (e + 32) (fold_sum (sum_words m e left 0 0))) e left 0 0) ≡ 0
checked m e left long empty =
    let x = sum_words m e left 0 0 in
    let d = fold_sum x in
    let m' = put32 m (e + 32) d in
    let total =
      sum-changed m m' e 4 d
        (λ j other. load64-put32_apart m (e + 32) d (e + j * 8) (ground (arith, other)))
        (load64-put32 m (e + 32) d (fold-small x) empty) left 0 0 (omega arith)
        (omega (arith, long)) in
    ap fold_sum total ∙ fold-cancel x

-- The exclusive or of the 32-bit words from `p` on.
unfoldable pub xor_words : Buffer → ℕ → ℕ → ℕ
xor_words m p zero = 0
xor_words m p (suc left) = bit_xor (word32 m p) (xor_words m (p + 4) left)

fold-xor : (c w : ℕ) → fold_sum (bit_xor c w) ≡ bit_xor (fold_sum c) (fold_sum w)
unfolding fold_sum
fold-xor c w =
    let a = c / 2 ^ 32 % 2 ^ 32 in
    let b = w / 2 ^ 32 % 2 ^ 32 in
    let a' = c % 2 ^ 32 in
    let b' = w % 2 ^ 32 in
    let high : bit_xor c w / 2 ^ 32 % 2 ^ 32 ≡ bit_xor a b =
      rw (bit_xor-div 32 c w) (bit_xor-mod 32 (c / 2 ^ 32) (w / 2 ^ 32)) in
    let swap : bit_xor b (bit_xor a' b') ≡ bit_xor a' (bit_xor b b') =
      sym (bit_xor_assoc b a' b')
      ∙ ap (λ x. bit_xor x b') (bit_xor_comm b a')
      ∙ bit_xor_assoc a' b b' in
    rw (high, bit_xor-mod 32 c w)
      (bit_xor_assoc a b (bit_xor a' b')
        ∙ ap (bit_xor a) swap
        ∙ sym (bit_xor_assoc a a' (bit_xor b b')))

fold-load64 : (m : Buffer) (p : ℕ) → fold_sum (load64 m p) ≡ bit_xor (word32 m (p + 4)) (word32 m p)
unfolding fold_sum
fold-load64 m p =
    let low = word32-small m p in
    let high = word32-small m (p + 4) in
    let v = load64-word64 m p ∙ word64-eq m p in
    let top : load64 m p / 2 ^ 32 % 2 ^ 32 ≡ word32 m (p + 4) = omega (arith, v, low, high) in
    let bottom : load64 m p % 2 ^ 32 ≡ word32 m p = omega (arith, v, low) in rw (top, bottom) refl

-- The folded sum is the exclusive or of the words.
pub fold-sum_words :
    (m : Buffer) (e left i c : ℕ)
    → fold_sum (sum_words m e left i c) ≡ bit_xor (fold_sum c) (xor_words m (e + i * 8) (left * 2))
unfolding sum_words xor_words
fold-sum_words m e zero i c = sym (bit_xor-zero (fold_sum c))
fold-sum_words m e (suc left) i c =
    let p = e + i * 8 in
    let r = xor_words m (p + 4 + 4) (left * 2) in
    let twice : suc left * 2 ≡ suc (suc (left * 2)) = omega arith in
    let next : e + (i + 1) * 8 ≡ p + 4 + 4 = omega arith in
    let both = fold-xor c (load64 m p) ∙ ap (bit_xor (fold_sum c)) (fold-load64 m p) in
    let hi = word32 m (p + 4) in
    let lo = word32 m p in
    let order : bit_xor (bit_xor hi lo) r ≡ bit_xor lo (bit_xor hi r) =
      ap (λ x. bit_xor x r) (bit_xor_comm hi lo) ∙ bit_xor_assoc lo hi r in
    rw twice (
      fold-sum_words m e left (i + 1) (bit_xor c (load64 m p))
      ∙ rw (next, both)
          (bit_xor_assoc (fold_sum c) (bit_xor hi lo) r ∙ ap (bit_xor (fold_sum c)) order))

-- A cleared fold is a clear exclusive or of the words.
pub xor_words-checked :
    (m : Buffer) (e left : ℕ) → fold_sum (sum_words m e left 0 0) ≡ 0 → xor_words m e (left * 2) ≡ 0
unfolding fold_sum
xor_words-checked m e left h =
    let plain : e + 0 * 8 ≡ e = omega arith in
    let f : fold_sum (sum_words m e left 0 0) ≡ bit_xor 0 (xor_words m e (left * 2)) =
      rw plain at (fold-sum_words m e left 0 0) in
    sym (bit_xor_comm 0 (xor_words m e (left * 2)) ∙ bit_xor-zero (xor_words m e (left * 2)))
    ∙ sym f
    ∙ h
