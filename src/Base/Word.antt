-- ===== src/Base/Word.antt =====
-- Machine words as native numbers: wrap-around is written out, a shift is a product or quotient.
use Prim.Native.Nat.{ℕ, ◌+◌, ◌-◌, ◌*◌, ◌/◌, ◌%◌, ◌^◌, ◌<◌}

abbrev pub u8 : ℕ → ℕ
u8 x = x % 2 ^ 8

abbrev pub u16 : ℕ → ℕ
u16 x = x % 2 ^ 16

abbrev pub u32 : ℕ → ℕ
u32 x = x % 2 ^ 32

abbrev pub u64 : ℕ → ℕ
u64 x = x % 2 ^ 64

-- `uint64_t` arithmetic; `-` on ℕ stops at 0, so the modulus is added first.
infixl 65 ◌+64◌ ◌-64◌ ◌+32◌ ◌-32◌
abbrev pub ◌+64◌ : ℕ → ℕ → ℕ
a +64 b = (a + b) % 2 ^ 64

abbrev pub ◌-64◌ : ℕ → ℕ → ℕ
a -64 b = (a + 2 ^ 64 - b) % 2 ^ 64

abbrev pub ◌+32◌ : ℕ → ℕ → ℕ
a +32 b = (a + b) % 2 ^ 32

abbrev pub ◌-32◌ : ℕ → ℕ → ℕ
a -32 b = (a + 2 ^ 32 - b) % 2 ^ 32

-- `~x` at 64 bits.
abbrev pub not64 : ℕ → ℕ
not64 x = 2 ^ 64 - 1 - x

infixl 75 ◌<<<◌ ◌>>>◌
abbrev pub ◌<<<◌ : ℕ → ℕ → ℕ
x <<< k = x * 2 ^ k

abbrev pub ◌>>>◌ : ℕ → ℕ → ℕ
x >>> k = x / 2 ^ k

-- UINT64_MAX
abbrev pub u64_max : ℕ
u64_max = 2 ^ 64 - 1

-- A value of type `uint64_t`.
abbrev pub IsU64 : ℕ → Type 0
IsU64 x = x < 2 ^ 64
