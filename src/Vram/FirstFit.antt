-- ===== src/Vram/FirstFit.antt =====
-- The search loop of vram.c: it ends, and finds the lowest place that is free, if there is one.
use rtxmac_oc.Base.{ℕ, ◌+◌, ◌-◌, ◌^◌, ◌≤◌, ◌<◌, ◌≡◌, ◌⊎◌, arith}
use rtxmac_oc.Base.{List, [], ◌∷◌, All}
use rtxmac_oc.Vram.Defs.{Span, bump, scan}

-- `[x, x + bytes)` and the span do not meet.
abbrev pub IsApart : ℕ → ℕ → Span → Type 0
IsApart bytes x s = (s.base + s.size ≤ x) ⊎ (x + bytes ≤ s.base)

abbrev pub IsFree : ℕ → List Span → ℕ → Type 0
IsFree bytes spans x = All (IsApart bytes x) spans

-- A span that ends below 2^64.
abbrev pub IsSpan : ℕ → Span → Type 0
IsSpan bound s = s.base + s.size ≤ bound

module _ (c bytes : ℕ) where
  bump-le_of_apart :
      (s : Span) (next x : ℕ)
      → IsSpan (2 ^ 64 - 1) s
      → IsApart bytes x s
      → c ≤ x
      → next ≤ x
      → x + bytes < 2 ^ 64
      → bump c bytes s next ≤ x
  unfolding bump
  bump-le_of_apart s next x sp a p q w = ground arith

  -- The scan stops short of every free place at or above its start.
  pub scan-le_of_free :
      (spans : List Span) (next x : ℕ)
      → All (IsSpan (2 ^ 64 - 1)) spans
      → IsFree bytes spans x
      → c ≤ x
      → next ≤ x
      → x + bytes < 2 ^ 64
      → scan c bytes spans next ≤ x
  unfolding scan
  scan-le_of_free [] next x sp f p q w = q
  scan-le_of_free (s ∷ rest) next x sp f p q w =
      scan-le_of_free rest (bump c bytes s next) x sp.1 f.1 p
        (bump-le_of_apart s next x sp.0 f.0 p q w) w

  le-bump : (s : Span) (next : ℕ) → next ≤ bump c bytes s next
  unfolding bump
  le-bump s next = ground arith

  pub le-scan : (spans : List Span) (next : ℕ) → next ≤ scan c bytes spans next
  unfolding scan
  le-scan [] next = omega arith
  le-scan (s ∷ rest) next = omega (arith, le-bump s next, le-scan rest (bump c bytes s next))

  IsApart-of_bump :
      (s : Span)
      → IsSpan (2 ^ 64 - 1) s
      → c + bytes < 2 ^ 64
      → bump c bytes s c ≡ c
      → IsApart bytes c s
  unfolding bump
  IsApart-of_bump s sp w e = ground arith

  -- A scan that leaves its start in place met no span.
  pub free_of_scan :
      (spans : List Span)
      → All (IsSpan (2 ^ 64 - 1)) spans
      → c + bytes < 2 ^ 64
      → scan c bytes spans c ≡ c
      → IsFree bytes spans c
  unfolding scan
  free_of_scan [] sp w e = tt
  free_of_scan (s ∷ rest) sp w e =
      let stays : bump c bytes s c ≡ c =
        omega (arith, le-bump s c, le-scan rest (bump c bytes s c)) in
      (IsApart-of_bump s sp.0 w stays, free_of_scan rest sp.1 w (rw stays at e))

  bump-le :
      (s : Span) (next bound : ℕ)
      → IsSpan bound s
      → bound < 2 ^ 64
      → next ≤ bound
      → bump c bytes s next ≤ bound
  unfolding bump
  bump-le s next bound sp w h = ground arith

  pub scan-le :
      (spans : List Span) (next bound : ℕ)
      → All (IsSpan bound) spans
      → bound < 2 ^ 64
      → next ≤ bound
      → scan c bytes spans next ≤ bound
  unfolding scan
  scan-le [] next bound sp w h = h
  scan-le (s ∷ rest) next bound sp w h =
      scan-le rest (bump c bytes s next) bound sp.1 w (bump-le s next bound sp.0 w h)
