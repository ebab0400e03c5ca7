-- ===== src/Bytes/Defs.antt =====
-- Reads with their bounds, and the bounds test that the parsers share.
use rtxmac_oc.Base.{ℕ, ◌+◌, ◌-◌, ◌%◌, ◌^◌, bit_or, Bool, leb, ◌&&◌, if◌then◌else◌, u16, ◌<<<◌}
use rtxmac_oc.Base.{Result, ok, err, true, false}

-- `len` bytes from a pointer on. What stands outside is never looked at.
pub record Buffer : Type 0 where
  pub len : ℕ
  pub at : ℕ → ℕ

-- Why a function stops: an access outside its buffer, or an error code that it returns.
pub data Stop (E : Type 0) : Type 0 where
  fault : Stop E
  code : E → Stop E

abbrev pub Outcome : Type 0 → Type 0 → Type 0
Outcome E A = Result (Stop E) A

-- A step that may stop, and a check that returns its code. They stay shut where a parser is
-- unfolded, so that its steps can be told apart.
module _ {E : Type 0} where
  infixl 5 ◌>>=◌ ◌>>◌
  unfoldable pub ◌>>=◌ : {A B : Type 0} → Outcome E A → (A → Outcome E B) → Outcome E B
  err why >>= next = err why
  ok value >>= next = next value

  unfoldable pub guard : Bool → E → Outcome E (Unit {0})
  guard false e = err (code e)
  guard true e = ok tt

  unfoldable pub ◌>>◌ : {B : Type 0} → Outcome E (Unit {0}) → Outcome E B → Outcome E B
  err why >> next = err why
  ok value >> next = next

-- The four bytes of a word, as the shifts of `ld32` put them together.
unfoldable pub join16 : ℕ → ℕ → ℕ
join16 b0 b1 = u16 (bit_or b0 (b1 <<< 8))

unfoldable pub join32 : ℕ → ℕ → ℕ → ℕ → ℕ
join32 b0 b1 b2 b3 = bit_or (bit_or (bit_or b0 (b1 <<< 8)) (b2 <<< 16)) (b3 <<< 24)

-- A cell is a `uint8_t`.
abbrev pub byte : Buffer → ℕ → ℕ
byte m off = m.at off % 2 ^ 8

unfoldable pub word16 : Buffer → ℕ → ℕ
word16 m off = join16 (byte m off) (byte m (off + 1))

unfoldable pub word32 : Buffer → ℕ → ℕ
word32 m off = join32 (byte m off) (byte m (off + 1)) (byte m (off + 2)) (byte m (off + 3))

unfoldable pub word64 : Buffer → ℕ → ℕ
word64 m off = bit_or (word32 m off) (word32 m (off + 4) <<< 32)

module _ {E : Type 0} where
  unfoldable pub ld8 : Buffer → ℕ → Outcome E ℕ
  ld8 m off = if leb (off + 1) m.len then ok (byte m off) else err fault

  unfoldable pub ld16 : Buffer → ℕ → Outcome E ℕ
  ld16 m off = if leb (off + 2) m.len then ok (word16 m off) else err fault

  unfoldable pub ld32 : Buffer → ℕ → Outcome E ℕ
  ld32 m off = if leb (off + 4) m.len then ok (word32 m off) else err fault

  unfoldable pub ld64 : Buffer → ℕ → Outcome E ℕ
  ld64 m off = if leb (off + 8) m.len then ok (word64 m off) else err fault

-- `fits`: the difference is taken only where it does not wrap.
unfoldable pub fits : ℕ → ℕ → ℕ → Bool
fits off need len = leb off len && leb need (len - off)
