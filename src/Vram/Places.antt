-- ===== src/Vram/Places.antt =====
-- Where a search may place bytes, and the laws that its loop relies on.
use rtxmac_oc.Base.{ℕ, ◌+◌, ◌-◌, ◌^◌, ◌<◌, ◌≡◌, refl, arith, bit_and}
use rtxmac_oc.Base.{List, [], ◌∷◌, All, Option-cases, inl, inr}
use rtxmac_oc.Base.{true, ◌-64◌}
use rtxmac_oc.Base.Bits.Align.{IsAligned}
use rtxmac_oc.Base.Bits.Mask.{bit_and-low}
use native.Mathlib.Nat.{mod_self}
use rtxmac_oc.Vram.Defs.{Span, scan, align_up, span_valid, spans_valid, alignment_valid}
use rtxmac_oc.Vram.AlignUp.{IsAlignment, align_up-RoundsUp, align_up-none}
use rtxmac_oc.Vram.FirstFit.{IsSpan, scan-le, le-scan, free_of_scan, scan-le_of_free}
use rtxmac_oc.Vram.Search.{Steps, IsLowest}

-- A word that is a multiple of the alignment.
abbrev pub IsPlace : ℕ → ℕ → Type 0
IsPlace alignment x = IsAligned alignment x × (x < 2 ^ 64)

pub align_up-IsLowest :
    (v a : ℕ) → IsAlignment a → v < 2 ^ 64 → IsLowest (IsPlace a) v (align_up v a)
align_up-IsLowest v a al w = elim (Option-cases (align_up v a)) [
  | inl e ↦ rw e (λ x h q. absurd (omega (arith, align_up-none v a x al w e q.0 h)))
  | inr (c, e) ↦
      let (up, word) = align_up-RoundsUp v a al w e in
      rw e ((up.aligned, word), up.above, λ x h q. up.least x q.0 h)
]

pub Steps-find :
    (a end bytes : ℕ) (excluded : List Span)
    → IsAlignment a
    → end < 2 ^ 64
    → All (IsSpan (2 ^ 64 - 1)) excluded
    → Steps (IsPlace a) end bytes excluded (λ c. scan c bytes excluded c) (λ n. align_up n a)
Steps-find a end bytes excluded al w sp = record {
  word = w;
  scan_up = λ c. le-scan c bytes excluded c;
  scan_free = λ c h e. free_of_scan c bytes excluded sp (omega arith) e;
  scan_low = λ c x h p q f. scan-le_of_free c bytes excluded c x sp f p p (omega arith);
  next = λ c h.
      align_up-IsLowest (scan c bytes excluded c) a al
        (omega (arith, scan-le c bytes excluded c (2 ^ 64 - 1) sp (omega arith) (omega arith)));
}

-- A span that the searches accept: not empty, its end a word.
abbrev pub IsRange : Span → Type 0
IsRange s = (0 < s.size) × (s.base + s.size < 2 ^ 64)

pub span_valid_of_range : (s : Span) → IsRange s → span_valid s.base s.size ≡ true
unfolding span_valid
span_valid_of_range s h = ground arith

pub spans_valid_of_ranges : (l : List Span) → All IsRange l → spans_valid l ≡ true
unfolding spans_valid
spans_valid_of_ranges [] h = refl
spans_valid_of_ranges (s ∷ rest) h = rw (span_valid_of_range s h.0) (spans_valid_of_ranges rest h.1)

pub ranges-IsSpan : (l : List Span) → All IsRange l → All (IsSpan (2 ^ 64 - 1)) l
ranges-IsSpan [] h = tt
ranges-IsSpan (s ∷ rest) h = (omega (arith, h.0), ranges-IsSpan rest h.1)

pub alignment_valid_of_power : (a : ℕ) → IsAlignment a → alignment_valid a ≡ true
unfolding alignment_valid
alignment_valid_of_power a al =
    let pred : a -64 1 ≡ 2 ^ al.exponent - 1 = omega (arith, al.page, al.word, al.power) in
    let low : bit_and a (a -64 1) ≡ 0 =
      rw (pred, bit_and-low al.exponent a, ← al.power) (mod_self a) in
    ground (arith, low, al.page)
