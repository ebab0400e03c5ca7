-- ===== src/GspMemory/Regions.antt =====
-- What the checks of `nv_gsp_memory_plan` accept and what the loop over the regions gives.
use rtxmac_oc.Base.{◌+◌, ◌-◌, ◌*◌, ◌^◌, ◌≤◌, ◌<◌, ◌≡◌, ◌≢◌, refl, arith, ◌⊎◌, inl, inr, All}
use rtxmac_oc.Base.{ltb, leb, ◌+64◌, ◌-64◌, ◌&&◌, ◌||◌, ◌==◌, if◌then◌else◌, false, Bool-cases}
use rtxmac_oc.Base.{List, [], ◌∷◌, ◌++◌, Option, none, some, ok}
use rtxmac_oc.Vram.Defs.{Span, is_empty}
use rtxmac_oc.GspMemory.Defs.{Region, meets_one, free_spans, excluded_spans}

-- The first and the last byte of a region, below 2^40.
pub record IsRegion (r : Region) : Type 0 where
  pub ordered : r.base ≤ r.limit
  pub reachable : r.limit < 2 ^ 40

abbrev pub IsApart : Region → Region → Type 0
IsApart a b = (a.limit < b.base) ⊎ (b.limit < a.base)

-- Regions of which no two meet.
abbrev pub AreRegions : List Region → Type 0
AreRegions [] = Unit
AreRegions (r ∷ rest) = IsRegion r × All (IsApart r) rest × AreRegions rest

-- The bytes of the regions that are neither reserved nor protected, in their order.
unfoldable pub free_of : List Region → List Span
free_of [] = []
free_of (r ∷ rest) =
    let more = free_of rest in
    if (r.reserved == 0) && (r.prot == 0)
    then record { base = r.base; size = r.limit + 1 - r.base } ∷ more
    else more

-- The platform's console, unless it has no bytes.
unfoldable pub console_of : Option Span → List Span
console_of none = []
console_of (some s) = if s.size == 0 then [] else s ∷ []

-- What a plan stays clear of: the low 512 MiB and the console.
abbrev pub kept_clear : Option Span → List Span
kept_clear extra = record { base = 0; size = 512 * 2 ^ 20 } ∷ console_of extra

pub excluded_spans-eq : (extra : Option Span) → excluded_spans extra ≡ kept_clear extra
unfolding excluded_spans console_of
excluded_spans-eq none = refl
excluded_spans-eq (some s) = elim (Bool-cases (s.size == 0)) [
  | inl e ↦ rw e refl
  | inr e ↦ rw e refl
]

apart_meets :
    (r : Region) (before : List Region) → All (IsApart r) before → meets_one r before ≡ false
unfolding meets_one
apart_meets r [] h = refl
apart_meets r (o ∷ rest) h = let later = apart_meets r rest h.1 in ground (arith, h.0, later)

module _ {ℓ κ} {A : Type ℓ} (P : A → Type κ) where
  All-snoc : (l : List A) (a : A) → All P l → P a → All P (l ++ (a ∷ []))
  All-snoc [] a h p = (p, tt)
  All-snoc (x ∷ l) a h p = (h.0, All-snoc l a h.1 p)

extended :
    (before : List Region) (r : Region) (rest : List Region)
    → All (λ s. All (IsApart s) before) rest
    → All (IsApart r) rest
    → All (λ s. All (IsApart s) (before ++ (r ∷ []))) rest
extended before r [] h a = tt
extended before r (s ∷ rest) h a =
    (All-snoc (IsApart s) before r h.0 (ground (arith, a.0)), extended before r rest h.1 a.1)

free_spans-from :
    (before regions : List Region)
    → AreRegions regions
    → All (λ s. All (IsApart s) before) regions
    → free_spans before regions ≡ ok (free_of regions)
unfolding free_spans free_of
free_spans-from before [] h a = refl
free_spans-from before (r ∷ rest) h a =
    let more = free_spans-from (before ++ (r ∷ [])) rest h.2 (extended before r rest a.1 h.1) in
    let clear = apart_meets r before a.0 in
    let accepted : (ltb r.limit r.base || leb (2 ^ 40) r.limit || meets_one r before) ≡ false =
      ground (arith, h.0, clear) in
    let size : r.limit -64 r.base +64 1 ≡ r.limit + 1 - r.base = omega (arith, h.0) in
    elim (Bool-cases (r.reserved == 0)) [
      | inr e ↦ rw (accepted, e) more
      | inl e ↦ elim (Bool-cases (r.prot == 0)) [
        | inr e' ↦ rw (accepted, e, e') more
        | inl e' ↦ rw (accepted, e, e', more, size) refl
      ]
    ]

-- For regions that lie below 2^40 and apart, the loop accepts and gives the free ones.
pub free_spans-free_of :
    (regions : List Region) → AreRegions regions → free_spans [] regions ≡ ok (free_of regions)
free_spans-free_of regions h = free_spans-from [] regions h (nothing_before regions)
  where
    nothing_before : (l : List Region) → All (λ s. All (IsApart s) []) l
    nothing_before [] = tt
    nothing_before (s ∷ l) = (tt, nothing_before l)

pub some-is_empty : (l : List Span) → l ≢ [] → is_empty l ≡ false
unfolding is_empty
some-is_empty [] h = absurd (h refl)
some-is_empty (s ∷ l) h = refl
