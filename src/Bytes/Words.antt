-- ===== src/Bytes/Words.antt =====
-- The words that the reads return, as sums of bytes.
use rtxmac_oc.Base.{ℕ, ◌+◌, ◌*◌, ◌^◌, ◌<◌, ◌≡◌, ◌∙◌, bit_or, arith}
use rtxmac_oc.Base.Bits.Mask.{bit_or-shifted, bit_or_comm}
use rtxmac_oc.Bytes.Defs.{Buffer, byte, join16, join32, word16, word32, word64}

-- A field above the others is added to them.
pub or_above : (k r q : ℕ) → r < 2 ^ k → bit_or r (q * 2 ^ k) ≡ q * 2 ^ k + r
or_above k r q h = bit_or_comm r (q * 2 ^ k) ∙ bit_or-shifted k q r h

pub join16-eq : (b0 b1 : ℕ) → b0 < 2 ^ 8 → b1 < 2 ^ 8 → join16 b0 b1 ≡ b0 + b1 * 2 ^ 8
unfolding join16
join16-eq b0 b1 h0 h1 = rw (or_above 8 b0 b1 h0) (omega arith)

pub join32-eq :
    (b0 b1 b2 b3 : ℕ)
    → b0 < 2 ^ 8
    → b1 < 2 ^ 8
    → b2 < 2 ^ 8
    → join32 b0 b1 b2 b3 ≡ b0 + b1 * 2 ^ 8 + b2 * 2 ^ 16 + b3 * 2 ^ 24
unfolding join32
join32-eq b0 b1 b2 b3 h0 h1 h2 =
    rw
      (
        or_above 8 b0 b1 h0,
        or_above 16 (b1 * 2 ^ 8 + b0) b2 (omega arith),
        or_above 24 (b2 * 2 ^ 16 + (b1 * 2 ^ 8 + b0)) b3 (omega arith),
      )
      (omega arith)

pub word16-small : (m : Buffer) (off : ℕ) → word16 m off < 2 ^ 16
unfolding word16 join16
word16-small m off = omega arith

pub word32-eq :
    (m : Buffer) (off : ℕ)
    → word32 m off
      ≡ byte m off
        + byte m (off + 1) * 2 ^ 8
        + byte m (off + 2) * 2 ^ 16
        + byte m (off + 3) * 2 ^ 24
unfolding word32
word32-eq m off = join32-eq _ _ _ _ (omega arith) (omega arith) (omega arith)

pub word32-small : (m : Buffer) (off : ℕ) → word32 m off < 2 ^ 32
word32-small m off = omega (arith, word32-eq m off)

pub word64-eq : (m : Buffer) (off : ℕ) → word64 m off ≡ word32 m off + word32 m (off + 4) * 2 ^ 32
unfolding word64
word64-eq m off =
    omega (arith, or_above 32 (word32 m off) (word32 m (off + 4)) (word32-small m off))

pub word64-small : (m : Buffer) (off : ℕ) → word64 m off < 2 ^ 64
word64-small m off = omega (arith, word64-eq m off, word32-small m off, word32-small m (off + 4))
