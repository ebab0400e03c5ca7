-- ===== src/Bytes/Stores.antt =====
-- Writes with their bounds, and what reads see after them.
use rtxmac_oc.Base.{ℕ, ◌+◌, ◌*◌, ◌%◌, ◌^◌, ◌≤◌, ◌<◌, ◌≡◌, refl, ◌∙◌, arith, leb, ◌==◌}
use rtxmac_oc.Base.{if◌then◌else◌, ◌>>>◌, true, ◌⊎◌, inl}
use rtxmac_oc.Base.{ok, err, List, [], ◌∷◌, length, get_or, zero, suc}
use rtxmac_oc.Bytes.Defs.{Buffer, Outcome, fault, byte, word32, word64, ◌>>=◌}
use rtxmac_oc.Bytes.Words.{word32-eq, word64-eq}
use rtxmac_oc.Bytes.Ensures.{Ensures}

unfoldable pub put8 : Buffer → ℕ → ℕ → Buffer
put8 m off v = record { len = m.len; at = λ x. if off == x then v else m.at x }

-- `st32`, the lowest byte first.
unfoldable pub put32 : Buffer → ℕ → ℕ → Buffer
put32 m off v =
    put8 (put8 (put8 (put8 m off v) (off + 1) (v >>> 8)) (off + 2) (v >>> 16)) (off + 3) (v >>> 24)

-- `st64`.
unfoldable pub put64 : Buffer → ℕ → ℕ → Buffer
put64 m off v = put32 (put32 m off v) (off + 4) (v >>> 32)

module _ {E : Type 0} where
  unfoldable pub st8 : Buffer → ℕ → ℕ → Outcome E Buffer
  st8 m off v = if leb (off + 1) m.len then ok (put8 m off v) else err fault

  unfoldable pub st32 : Buffer → ℕ → ℕ → Outcome E Buffer
  st32 m off v = if leb (off + 4) m.len then ok (put32 m off v) else err fault

  unfoldable pub st64 : Buffer → ℕ → ℕ → Outcome E Buffer
  st64 m off v = if leb (off + 8) m.len then ok (put64 m off v) else err fault

pub len-put8 : (m : Buffer) (off v : ℕ) → (put8 m off v).len ≡ m.len
unfolding put8
len-put8 m off v = refl

pub len-put32 : (m : Buffer) (off v : ℕ) → (put32 m off v).len ≡ m.len
unfolding put32 put8
len-put32 m off v = refl

pub len-put64 : (m : Buffer) (off v : ℕ) → (put64 m off v).len ≡ m.len
unfolding put64 put32 put8
len-put64 m off v = refl

pub byte-put8 :
    (m : Buffer) (off v x : ℕ) → byte (put8 m off v) x ≡ (if off == x then v % 2 ^ 8 else byte m x)
unfolding put8
byte-put8 m off v x = ground arith

-- A word that has been written reads back, and bytes elsewhere keep their value.
pub word32-put32 : (m : Buffer) (off v : ℕ) → word32 (put32 m off v) off ≡ v % 2 ^ 32
unfolding put32 put8
word32-put32 m off v = rw (word32-eq (put32 m off v) off) (ground arith)

pub byte-put32 :
    (m : Buffer) (off v x : ℕ) → (x < off) ⊎ (off + 4 ≤ x) → byte (put32 m off v) x ≡ byte m x
unfolding put32 put8
byte-put32 m off v x h = ground arith

pub word32-put32_apart :
    (m : Buffer) (off v x : ℕ)
    → (x + 4 ≤ off) ⊎ (off + 4 ≤ x)
    → word32 (put32 m off v) x ≡ word32 m x
unfolding word32
word32-put32_apart m off v x h =
    rw
      (
        byte-put32 m off v x (ground arith),
        byte-put32 m off v (x + 1) (ground arith),
        byte-put32 m off v (x + 2) (ground arith),
        byte-put32 m off v (x + 3) (ground arith),
      )
      refl

pub word64-put64 : (m : Buffer) (off v : ℕ) → word64 (put64 m off v) off ≡ v % 2 ^ 64
unfolding put64
word64-put64 m off v =
    rw
      (
        word64-eq (put32 (put32 m off v) (off + 4) (v >>> 32)) off,
        word32-put32 (put32 m off v) (off + 4) (v >>> 32),
        word32-put32_apart (put32 m off v) (off + 4) (v >>> 32) off (inl (omega arith)),
        word32-put32 m off v,
      )
      (omega arith)

pub byte-put64 :
    (m : Buffer) (off v x : ℕ) → (x < off) ⊎ (off + 8 ≤ x) → byte (put64 m off v) x ≡ byte m x
unfolding put64
byte-put64 m off v x h =
    byte-put32 (put32 m off v) (off + 4) (v >>> 32) x (ground arith)
    ∙ byte-put32 m off v x (ground arith)

pub word64-put64_apart :
    (m : Buffer) (off v x : ℕ)
    → (x + 8 ≤ off) ⊎ (off + 8 ≤ x)
    → word64 (put64 m off v) x ≡ word64 m x
unfolding put64
word64-put64_apart m off v x h =
    let m' = put32 m off v in
    rw
      (
        word64-eq (put32 m' (off + 4) (v >>> 32)) x,
        word32-put32_apart m' (off + 4) (v >>> 32) x (ground arith),
        word32-put32_apart m' (off + 4) (v >>> 32) (x + 4) (ground arith),
        word32-put32_apart m off v x (ground arith),
        word32-put32_apart m off v (x + 4) (ground arith),
        word64-eq m x,
      )
      refl

-- Words one after the other.
unfoldable pub put_words : Buffer → ℕ → List ℕ → Buffer
put_words m off [] = m
put_words m off (v ∷ vs) = put_words (put32 m off v) (off + 4) vs

pub len-put_words : (m : Buffer) (off : ℕ) (vs : List ℕ) → (put_words m off vs).len ≡ m.len
unfolding put_words
len-put_words m off [] = refl
len-put_words m off (v ∷ vs) = len-put_words (put32 m off v) (off + 4) vs ∙ len-put32 m off v

pub byte-put_words :
    (m : Buffer) (off : ℕ) (vs : List ℕ) (x : ℕ)
    → (x < off) ⊎ (off + 4 * length vs ≤ x)
    → byte (put_words m off vs) x ≡ byte m x
unfolding put_words
byte-put_words m off [] x h = refl
byte-put_words m off (v ∷ vs) x h =
    byte-put_words (put32 m off v) (off + 4) vs x (ground arith)
    ∙ byte-put32 m off v x (ground arith)

pub word32-put_words_before :
    (m : Buffer) (off : ℕ) (vs : List ℕ) (x : ℕ)
    → x + 4 ≤ off
    → word32 (put_words m off vs) x ≡ word32 m x
unfolding put_words
word32-put_words_before m off [] x h = refl
word32-put_words_before m off (v ∷ vs) x h =
    word32-put_words_before (put32 m off v) (off + 4) vs x (omega arith)
    ∙ word32-put32_apart m off v x (inl (omega arith))

pub word32-put_words_apart :
    (m : Buffer) (off : ℕ) (vs : List ℕ) (x : ℕ)
    → (x + 4 ≤ off) ⊎ (off + 4 * length vs ≤ x)
    → word32 (put_words m off vs) x ≡ word32 m x
unfolding word32
word32-put_words_apart m off vs x h =
    rw
      (
        byte-put_words m off vs x (ground arith),
        byte-put_words m off vs (x + 1) (ground arith),
        byte-put_words m off vs (x + 2) (ground arith),
        byte-put_words m off vs (x + 3) (ground arith),
      )
      refl

-- Each word reads back.
pub word32-put_words :
    (m : Buffer) (off : ℕ) (vs : List ℕ) (i : ℕ)
    → i < length vs
    → word32 (put_words m off vs) (off + 4 * i) ≡ get_or vs i 0 % 2 ^ 32
unfolding put_words
word32-put_words m off [] i h = elim h [ ]
word32-put_words m off (v ∷ vs) zero h =
    let at : off + 4 * 0 ≡ off = omega arith in
    rw at (
      word32-put_words_before (put32 m off v) (off + 4) vs off (omega arith) ∙ word32-put32 m off v)
word32-put_words m off (v ∷ vs) (suc i) h =
    let at : off + 4 * suc i ≡ off + 4 + 4 * i = omega arith in
    rw at (word32-put_words (put32 m off v) (off + 4) vs i (omega arith))

module _ {E A : Type 0} (P : A → Type 0) where
  pub st8-Ensures :
      (m : Buffer) (off v : ℕ) (k : Buffer → Outcome E A)
      → off + 1 ≤ m.len
      → ((m' : Buffer) → m' ≡ put8 m off v → m'.len ≡ m.len → Ensures P (k m'))
      → Ensures P (st8 m off v >>= k)
  unfolding st8 ◌>>=◌
  st8-Ensures m off v k h s =
      let inside : leb (off + 1) m.len ≡ true = ground arith in
      rw inside (s (put8 m off v) refl (len-put8 m off v))

  pub st32-Ensures :
      (m : Buffer) (off v : ℕ) (k : Buffer → Outcome E A)
      → off + 4 ≤ m.len
      → ((m' : Buffer) → m' ≡ put32 m off v → m'.len ≡ m.len → Ensures P (k m'))
      → Ensures P (st32 m off v >>= k)
  unfolding st32 ◌>>=◌
  st32-Ensures m off v k h s =
      let inside : leb (off + 4) m.len ≡ true = ground arith in
      rw inside (s (put32 m off v) refl (len-put32 m off v))

  pub st64-Ensures :
      (m : Buffer) (off v : ℕ) (k : Buffer → Outcome E A)
      → off + 8 ≤ m.len
      → ((m' : Buffer) → m' ≡ put64 m off v → m'.len ≡ m.len → Ensures P (k m'))
      → Ensures P (st64 m off v >>= k)
  unfolding st64 ◌>>=◌
  st64-Ensures m off v k h s =
      let inside : leb (off + 8) m.len ≡ true = ground arith in
      rw inside (s (put64 m off v) refl (len-put64 m off v))

pub st32_value-Ensures :
    {E : Type 0} (m : Buffer) (off v : ℕ)
    → off + 4 ≤ m.len
    → Ensures {E = E} (λ m'. m' ≡ put32 m off v) (st32 m off v)
unfolding st32
st32_value-Ensures m off v h =
    let inside : leb (off + 4) m.len ≡ true = ground arith in rw inside (record { holds = refl })
