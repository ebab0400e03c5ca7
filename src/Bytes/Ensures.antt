-- ===== src/Bytes/Ensures.antt =====
-- What a function over buffers ensures: it makes no access outside them, and what it returns has a
-- property. One rule for each statement that the parsers are made of.
use rtxmac_oc.Base.{ℕ, ◌+◌, ◌≤◌, ◌<◌, ◌≡◌, refl, Bool, true, false, leb, ◌^◌, if◌then◌else◌}
use rtxmac_oc.Base.{arith}
use rtxmac_oc.Base.{ok, err}
use rtxmac_oc.Bytes.Defs.{guard, ◌>>=◌, ◌>>◌}
use rtxmac_oc.Bytes.Defs.{Buffer, fault, code, Outcome, byte, word16, word32, word64, ld8, ld16}
use rtxmac_oc.Bytes.Defs.{ld32, ld64, fits}
use rtxmac_oc.Bytes.Words.{word16-small, word32-small, word64-small}

module _ {E : Type 0} where
  abbrev Holds : {A : Type 0} → (A → Type 0) → Outcome E A → Type 0
  Holds P (ok a) = P a
  Holds P (err fault) = ⊥
  Holds P (err (code e)) = Unit

  -- No fault; an error code says nothing; a value has the property.
  pub record Ensures {A : Type 0} (P : A → Type 0) (r : Outcome E A) : Type 0 where
    pub holds : Holds P r

module _ {E A : Type 0} where
  pub Ensures-weaken :
      {P Q : A → Type 0} (r : Outcome E A) → Ensures P r → ((a : A) → P a → Q a) → Ensures Q r
  Ensures-weaken (ok a) h f = record { holds = f a h.holds }
  Ensures-weaken (err fault) h f = record { holds = h.holds }
  Ensures-weaken (err (code e)) h f = record { holds = tt }

module _ {E A : Type 0} (P : A → Type 0) where
  pub ok-Ensures : (a : A) → P a → Ensures {E = E} P (ok a)
  ok-Ensures a h = record { holds = h }

module _ {E A : Type 0} (P : A → Type 0) where
  -- A check, and what it lets through.
  pub guard-Ensures :
      (test : Bool) (e : E) (k : Outcome E A)
      → (test ≡ true → Ensures P k)
      → Ensures P (guard test e >> k)
  unfolding guard ◌>>◌
  guard-Ensures false e k h = record { holds = tt }
  guard-Ensures true e k h = h refl

  pub if-Ensures :
      (test : Bool) (x y : Outcome E A)
      → (test ≡ true → Ensures P x)
      → (test ≡ false → Ensures P y)
      → Ensures P (if test then x else y)
  if-Ensures true x y hx hy = hx refl
  if-Ensures false x y hx hy = hy refl

  pub bind-Ensures :
      {B : Type 0} (Q : B → Type 0) (r : Outcome E B) (k : B → Outcome E A)
      → Ensures Q r
      → ((b : B) → Q b → Ensures P (k b))
      → Ensures P (r >>= k)
  unfolding ◌>>=◌
  bind-Ensures Q (ok b) k q h = h b q.holds
  bind-Ensures Q (err fault) k q h = record { holds = q.holds }
  bind-Ensures Q (err (code e)) k q h = record { holds = tt }

  pub ld8-Ensures :
      (m : Buffer) (off : ℕ) (k : ℕ → Outcome E A)
      → off + 1 ≤ m.len
      → ((v : ℕ) → v < 2 ^ 8 → Ensures P (k v))
      → Ensures P (ld8 m off >>= k)
  unfolding ld8 ◌>>=◌
  ld8-Ensures m off k h s =
      let inside : leb (off + 1) m.len ≡ true = ground arith in
      rw inside (s (byte m off) (omega arith))

  pub ld16-Ensures :
      (m : Buffer) (off : ℕ) (k : ℕ → Outcome E A)
      → off + 2 ≤ m.len
      → ((v : ℕ) → v < 2 ^ 16 → Ensures P (k v))
      → Ensures P (ld16 m off >>= k)
  unfolding ld16 ◌>>=◌
  ld16-Ensures m off k h s =
      let inside : leb (off + 2) m.len ≡ true = ground arith in
      rw inside (s (word16 m off) (word16-small m off))

  pub ld32-Ensures :
      (m : Buffer) (off : ℕ) (k : ℕ → Outcome E A)
      → off + 4 ≤ m.len
      → ((v : ℕ) → v < 2 ^ 32 → Ensures P (k v))
      → Ensures P (ld32 m off >>= k)
  unfolding ld32 ◌>>=◌
  ld32-Ensures m off k h s =
      let inside : leb (off + 4) m.len ≡ true = ground arith in
      rw inside (s (word32 m off) (word32-small m off))

  pub ld64-Ensures :
      (m : Buffer) (off : ℕ) (k : ℕ → Outcome E A)
      → off + 8 ≤ m.len
      → ((v : ℕ) → v < 2 ^ 64 → Ensures P (k v))
      → Ensures P (ld64 m off >>= k)
  unfolding ld64 ◌>>=◌
  ld64-Ensures m off k h s =
      let inside : leb (off + 8) m.len ≡ true = ground arith in
      rw inside (s (word64 m off) (word64-small m off))

-- A read inside the buffer returns the word that stands there.
module _ {E : Type 0} (m : Buffer) (off : ℕ) where
  pub ld8_value-Ensures : off + 1 ≤ m.len → Ensures {E = E} (λ v. v ≡ byte m off) (ld8 m off)
  unfolding ld8
  ld8_value-Ensures h =
      let inside : leb (off + 1) m.len ≡ true = ground arith in rw inside (record { holds = refl })

  pub ld16_value-Ensures : off + 2 ≤ m.len → Ensures {E = E} (λ v. v ≡ word16 m off) (ld16 m off)
  unfolding ld16
  ld16_value-Ensures h =
      let inside : leb (off + 2) m.len ≡ true = ground arith in rw inside (record { holds = refl })

  pub ld32_value-Ensures : off + 4 ≤ m.len → Ensures {E = E} (λ v. v ≡ word32 m off) (ld32 m off)
  unfolding ld32
  ld32_value-Ensures h =
      let inside : leb (off + 4) m.len ≡ true = ground arith in rw inside (record { holds = refl })

  pub ld64_value-Ensures : off + 8 ≤ m.len → Ensures {E = E} (λ v. v ≡ word64 m off) (ld64 m off)
  unfolding ld64
  ld64_value-Ensures h =
      let inside : leb (off + 8) m.len ≡ true = ground arith in rw inside (record { holds = refl })

-- What the bounds test shows.
pub fits-le : (off need len : ℕ) → fits off need len ≡ true → off + need ≤ len
unfolding fits
fits-le off need len h = ground arith
