-- ===== src/Bytes/Fill.antt =====
-- Loops that write bytes and 64-bit words, and the reader and writer of 64-bit words as byte loops.
use rtxmac_oc.Base.{ℕ, zero, suc, ◌+◌, ◌*◌, ◌%◌, ◌^◌, ◌≤◌, ◌<◌, ◌≡◌, refl, sym, ap, ◌∙◌, arith}
use rtxmac_oc.Base.{◌⊎◌, inl, bit_or}
use rtxmac_oc.Base.{◌>>>◌, ◌<<<◌}
use native.Mathlib.Decide.{ℕ_discrete}
use rtxmac_oc.Bytes.Defs.{Buffer, byte, word64}
use rtxmac_oc.Bytes.Words.{or_above, word32-eq, word64-eq}
use rtxmac_oc.Bytes.Stores.{
  put8, put32, put64, len-put64, byte-put8, byte-put64, word64-put64, word64-put64_apart,
}

-- `for (i = 0; i < n; i++) p[i] = f(i)`, from index `i` on.
unfoldable pub fill : Buffer → ℕ → (ℕ → ℕ) → ℕ → ℕ → Buffer
fill m off f zero i = m
fill m off f (suc left) i = fill (put8 m (off + i) (f i)) off f left (i + 1)

-- `for (i = 0; i < 8; i++) p[i] = (uint8_t)(v >> (8 * i))`, the `st64` of these files.
unfoldable pub store64 : Buffer → ℕ → ℕ → Buffer
store64 m off v = fill m off (λ i. v >>> (8 * i)) 8 0

-- `for (i = 0; i < 8; i++) v |= (uint64_t)p[i] << (8 * i)`, from byte `i` on.
unfoldable pub load_bytes : Buffer → ℕ → ℕ → ℕ → ℕ → ℕ
load_bytes m off zero i v = v
load_bytes m off (suc left) i v =
    load_bytes m off left (i + 1) (bit_or v (byte m (off + i) <<< (8 * i)))

unfoldable pub load64 : Buffer → ℕ → ℕ
load64 m off = load_bytes m off 8 0 0

-- `for (i = 0; i < n; i++) st64(p + 8 * i, f(i))`, from index `i` on.
unfoldable pub fill64 : Buffer → ℕ → (ℕ → ℕ) → ℕ → ℕ → Buffer
fill64 m off f zero i = m
fill64 m off f (suc left) i = fill64 (store64 m (off + i * 8) (f i)) off f left (i + 1)

module _ (off : ℕ) (f : ℕ → ℕ) where
  pub len-fill : (m : Buffer) (left i : ℕ) → (fill m off f left i).len ≡ m.len
  unfolding fill put8
  len-fill m zero i = refl
  len-fill m (suc left) i = len-fill (put8 m (off + i) (f i)) left (i + 1)

  -- The bytes that the loop writes, and those that it leaves.
  pub byte-fill_outside :
      (m : Buffer) (left i x : ℕ)
      → (x < off + i) ⊎ (off + i + left ≤ x)
      → byte (fill m off f left i) x ≡ byte m x
  unfolding fill
  byte-fill_outside m zero i x h = refl
  byte-fill_outside m (suc left) i x h =
      byte-fill_outside (put8 m (off + i) (f i)) left (i + 1) x (ground (arith, h))
      ∙ byte-put8 m (off + i) (f i) x
      ∙ ground (arith, h)

  pub byte-fill :
      (m : Buffer) (left i j : ℕ)
      → i ≤ j
      → j < i + left
      → byte (fill m off f left i) (off + j) ≡ f j % 2 ^ 8
  unfolding fill
  byte-fill m zero i j low high = absurd (omega (arith, low, high))
  byte-fill m (suc left) i j low high = elim (ℕ_discrete i j) [
    | yes same ↦ rw (sym same) (
        byte-fill_outside (put8 m (off + i) (f i)) left (i + 1) (off + i) (inl (omega arith))
        ∙ byte-put8 m (off + i) (f i) (off + i)
        ∙ ground arith)
    | no other ↦
        byte-fill (put8 m (off + i) (f i)) left (i + 1) j (omega (arith, low, other))
          (omega (arith, high))
  ]

-- The loops read and write the word.
pub store64-put64 : (m : Buffer) (off v : ℕ) → store64 m off v ≡ put64 m off v
unfolding store64 fill put64 put32
store64-put64 m off v = grind arith

-- One more byte above those that have been read.
next_byte :
    (m : Buffer) (off i v : ℕ)
    → v < 2 ^ (8 * i)
    → bit_or v (byte m (off + i) <<< (8 * i)) ≡ byte m (off + i) * 2 ^ (8 * i) + v
next_byte m off i v h = or_above (8 * i) v (byte m (off + i)) h

pub load64-word64 : (m : Buffer) (off : ℕ) → load64 m off ≡ word64 m off
unfolding load64 load_bytes
load64-word64 m off =
    let b = λ (i : ℕ). byte m (off + i) in
    let s0 = next_byte m off 0 0 (omega arith) in
    let s1 = next_byte m off 1 (b 0) (omega arith) in
    let s2 = next_byte m off 2 (b 1 * 2 ^ 8 + b 0) (omega arith) in
    let s3 = next_byte m off 3 (b 2 * 2 ^ 16 + (b 1 * 2 ^ 8 + b 0)) (omega arith) in
    let v3 = b 3 * 2 ^ 24 + (b 2 * 2 ^ 16 + (b 1 * 2 ^ 8 + b 0)) in
    let s4 = next_byte m off 4 v3 (omega arith) in
    let v4 = b 4 * 2 ^ 32 + v3 in
    let s5 = next_byte m off 5 v4 (omega arith) in
    let v5 = b 5 * 2 ^ 40 + v4 in
    let s6 = next_byte m off 6 v5 (omega arith) in
    let v6 = b 6 * 2 ^ 48 + v5 in
    let s7 = next_byte m off 7 v6 (omega arith) in
    let first : bit_or 0 (b 0 <<< (8 * 0)) ≡ b 0 = omega (arith, s0) in
    rw (first, s1, s2, s3, s4, s5, s6, s7)
      (let at : off + 0 ≡ off = omega arith in
        let at5 : off + 4 + 1 ≡ off + 5 = omega arith in
        let at6 : off + 4 + 2 ≡ off + 6 = omega arith in
        let at7 : off + 4 + 3 ≡ off + 7 = omega arith in
        rw (at, word64-eq m off, word32-eq m off, word32-eq m (off + 4), at5, at6, at7)
          (omega arith))

module _ (off : ℕ) (f : ℕ → ℕ) where
  pub len-fill64 : (m : Buffer) (left i : ℕ) → (fill64 m off f left i).len ≡ m.len
  unfolding fill64
  len-fill64 m zero i = refl
  len-fill64 m (suc left) i =
      let m' = store64 m (off + i * 8) (f i) in
      len-fill64 m' left (i + 1)
      ∙ ap (λ b. b.len) (store64-put64 m (off + i * 8) (f i))
      ∙ len-put64 m (off + i * 8) (f i)

  pub byte-fill64 :
      (m : Buffer) (left i x : ℕ)
      → (x < off + i * 8) ⊎ (off + i * 8 + left * 8 ≤ x)
      → byte (fill64 m off f left i) x ≡ byte m x
  unfolding fill64
  byte-fill64 m zero i x h = refl
  byte-fill64 m (suc left) i x h =
      let m' = store64 m (off + i * 8) (f i) in
      byte-fill64 m' left (i + 1) x (ground (arith, h))
      ∙ ap (λ b. byte b x) (store64-put64 m (off + i * 8) (f i))
      ∙ byte-put64 m (off + i * 8) (f i) x (ground (arith, h))

  pub word64-fill64_before :
      (m : Buffer) (left i x : ℕ)
      → x + 8 ≤ off + i * 8
      → word64 (fill64 m off f left i) x ≡ word64 m x
  unfolding fill64
  word64-fill64_before m zero i x h = refl
  word64-fill64_before m (suc left) i x h =
      let m' = store64 m (off + i * 8) (f i) in
      word64-fill64_before m' left (i + 1) x (omega (arith, h))
      ∙ ap (λ b. word64 b x) (store64-put64 m (off + i * 8) (f i))
      ∙ word64-put64_apart m (off + i * 8) (f i) x (inl h)

  -- The words that the loop writes.
  pub word64-fill64 :
      (m : Buffer) (left i j : ℕ)
      → i ≤ j
      → j < i + left
      → word64 (fill64 m off f left i) (off + j * 8) ≡ f j % 2 ^ 64
  unfolding fill64
  word64-fill64 m zero i j low high = absurd (omega (arith, low, high))
  word64-fill64 m (suc left) i j low high = elim (ℕ_discrete i j) [
    | yes same ↦
        let m' = store64 m (off + i * 8) (f i) in
        rw (sym same) (
          word64-fill64_before m' left (i + 1) (off + i * 8) (omega arith)
          ∙ ap (λ b. word64 b (off + i * 8)) (store64-put64 m (off + i * 8) (f i))
          ∙ word64-put64 m (off + i * 8) (f i))
    | no other ↦
        word64-fill64 (store64 m (off + i * 8) (f i)) left (i + 1) j (omega (arith, low, other))
          (omega (arith, high))
  ]
