-- ===== src/Vram/Find.antt =====
-- `nv_vram_find_range` finds the lowest place in the first available span that has one.
use rtxmac_oc.Base.{ℕ, ◌+◌, ◌-◌, ◌%◌, ◌^◌, ◌<◌, ◌≡◌, refl, arith, bit_and, ◌⊎◌, inl, inr}
use rtxmac_oc.Base.{none, some, List, [], ◌∷◌, All, Option-cases, Result, ok, err}
use rtxmac_oc.Base.{false, ◌+64◌}
use rtxmac_oc.Base.Bits.Mask.{bit_and-low}
use rtxmac_oc.Vram.Defs.{Span, Error, no_space, find_in, find_each, find_range, is_empty}
use rtxmac_oc.Vram.Defs.{align_up}
use rtxmac_oc.Vram.AlignUp.{IsAlignment}
use rtxmac_oc.Vram.FirstFit.{IsSpan}
use rtxmac_oc.Vram.Search.{Fits, IsLowest, IsLowest-from, first_fit-IsLowest}
use rtxmac_oc.Vram.Places.{IsPlace, IsRange, Steps-find, align_up-IsLowest, ranges-IsSpan}
use rtxmac_oc.Vram.Places.{spans_valid_of_ranges, alignment_valid_of_power}

module _ (excluded : List Span) (bytes alignment : ℕ) where
  -- An aligned place for `bytes` inside the span, clear of every exclusion.
  abbrev pub FitsIn : Span → ℕ → Type 0
  FitsIn s x = Fits (IsPlace alignment) (s.base + s.size) bytes excluded x

  -- What the search may return: a result in the first span with a place, and the lowest there.
  abbrev pub IsFound : List Span → Result Error Span → Type 0
  IsFound [] r = r ≡ err no_space
  IsFound (s ∷ rest) r =
      ((x : ℕ) × IsLowest (FitsIn s) s.base (some x) × (r ≡ ok (record { base = x; size = bytes })))
      ⊎ (IsLowest (FitsIn s) s.base none × IsFound rest r)

  find_in-IsLowest :
      (s : Span)
      → IsAlignment alignment
      → All (IsSpan (2 ^ 64 - 1)) excluded
      → IsRange s
      → IsLowest (FitsIn s) s.base (find_in s excluded bytes alignment)
  unfolding find_in
  find_in-IsLowest s al sp range =
      let end : s.base +64 s.size ≡ s.base + s.size = omega (arith, range) in
      let low = align_up-IsLowest s.base alignment al (omega (arith, range)) in
      elim (Option-cases (align_up s.base alignment)) [
        | inl e ↦ rw (e, find_in) (λ x h q. (rw e at low) x h q.place)
        | inr (c, e) ↦
            let at_c : IsLowest (IsPlace alignment) s.base (some c) = rw e at low in
            rw (e, find_in, end)
              (IsLowest-from _ at_c.1 (λ x h q. at_c.2 x h q.place)
                (first_fit-IsLowest (IsPlace alignment) (s.base + s.size) bytes excluded _ _
                  (Steps-find alignment (s.base + s.size) bytes excluded al range.1 sp)
                  (s.base + s.size + 1) c (omega arith) at_c.0))
      ]

  find_each-IsFound :
      (available : List Span)
      → IsAlignment alignment
      → All (IsSpan (2 ^ 64 - 1)) excluded
      → All IsRange available
      → IsFound available (find_each available excluded bytes alignment)
  unfolding find_each
  find_each-IsFound [] al sp ranges = refl
  find_each-IsFound (s ∷ rest) al sp ranges =
      let here = find_in-IsLowest s al sp ranges.0 in
      elim (Option-cases (find_in s excluded bytes alignment)) [
        | inl e ↦ rw (e, find_each) (inr (rw e at here, find_each-IsFound rest al sp ranges.1))
        | inr (x, e) ↦ rw (e, find_each) (inl (x, rw e at here, refl))
      ]

-- What `nv_vram_find_range` asks of its arguments.
pub record IsRequest (available excluded : List Span) (bytes alignment : ℕ) : Type 0 where
  pub some_span : is_empty available ≡ false
  pub positive : 0 < bytes
  pub pages : bytes % 4096 ≡ 0
  pub aligned : IsAlignment alignment
  pub ranges : All IsRange available
  pub excluded_ranges : All IsRange excluded

-- On arguments that it accepts, `nv_vram_find_range` returns the lowest aligned place for `bytes`
-- that lies inside the first available span that has one and meets no excluded span, and says
-- that there is no space only if no available span has such a place.
pub find_range-IsFound :
    (available excluded : List Span) (bytes alignment : ℕ)
    → IsRequest available excluded bytes alignment
    → IsFound excluded bytes alignment available (find_range available excluded bytes alignment)
find_range-IsFound available excluded bytes alignment q = rw enters (
    find_each-IsFound excluded bytes alignment available q.aligned
      (ranges-IsSpan excluded q.excluded_ranges) q.ranges)
  where
    low : bit_and bytes (4096 - 1) ≡ 0
    low = rw (bit_and-low 12 bytes) q.pages

    enters :
        find_range available excluded bytes alignment ≡ find_each available excluded bytes alignment
    enters =
        unfold find_range in
        ground (
          arith,
          low,
          q.positive,
          q.some_span,
          alignment_valid_of_power alignment q.aligned,
          spans_valid_of_ranges available q.ranges,
          spans_valid_of_ranges excluded q.excluded_ranges,
        )
