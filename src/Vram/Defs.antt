-- ===== src/Vram/Defs.antt =====
-- The types of vram.h, the checks, the search loop of vram.c, and `nv_vram_find_range`.
use rtxmac_oc.Base.{ℕ, zero, suc, ◌+◌, ◌-◌, bit_and}
use rtxmac_oc.Base.{◌+64◌, ◌-64◌, not64, u64_max, ltb, leb, ◌==◌, if◌then◌else◌}
use rtxmac_oc.Base.{Bool, true, false, not, ◌&&◌, ◌||◌, Option, none, some, List, [], ◌∷◌}
use rtxmac_oc.Base.{Result, ok, err}

-- -1 and -2.
pub data Error : Type 0 where
  invalid no_space : Error

-- `nv_vram_span`: `[base, base + size)`.
pub record Span : Type 0 where
  pub base : ℕ
  pub size : ℕ

-- `nv_vram_allocation`; handle 0 marks a free slot.
pub record Allocation : Type 0 where
  pub handle : ℕ
  pub offset : ℕ
  pub size : ℕ

-- `nv_vram_pool`; the array of `max_allocs` slots is a list.
pub record Pool : Type 0 where
  pub phys : ℕ
  pub va : ℕ
  pub size : ℕ
  pub used : ℕ
  pub next_handle : ℕ
  pub allocations : List Allocation

abbrev pub page_bytes : ℕ
page_bytes = 4096

abbrev pub max_allocs : ℕ
max_allocs = 128

unfoldable pub span_valid : ℕ → ℕ → Bool
span_valid base size = not (size == 0) && leb size (u64_max -64 base)

unfoldable pub alignment_valid : ℕ → Bool
alignment_valid alignment = leb page_bytes alignment && (bit_and alignment (alignment -64 1) == 0)

-- `none` is the -1 of an overflow.
unfoldable pub align_up : ℕ → ℕ → Option ℕ
align_up value alignment =
    if ltb (u64_max -64 (alignment -64 1)) value
    then none
    else some (bit_and (value +64 alignment -64 1) (not64 (alignment -64 1)))

-- The test and the update of `next` in the inner loop of both searches.
unfoldable pub bump : ℕ → ℕ → Span → ℕ → ℕ
bump candidate bytes s next =
    if ltb candidate (s.base +64 s.size)
      && ltb s.base (candidate +64 bytes)
      && ltb next (s.base +64 s.size)
    then s.base +64 s.size
    else next

-- `for (j = 0; j < excluded_count; j++)`.
unfoldable pub scan : ℕ → ℕ → List Span → ℕ → ℕ
scan candidate bytes [] next = next
scan candidate bytes (s ∷ rest) next = scan candidate bytes rest (bump candidate bytes s next)

-- The same loop over the slots of a pool, where a free slot is passed over.
unfoldable pub scan_slots : ℕ → ℕ → List Allocation → ℕ → ℕ
scan_slots candidate bytes [] next = next
scan_slots candidate bytes (a ∷ rest) next = scan_slots candidate bytes rest (
    if a.handle == 0
    then next
    else bump candidate bytes (record { base = a.offset; size = a.size }) next)

-- `while (candidate <= end && bytes <= end - candidate) { ... }`, the loop of both searches: `some`
-- is the candidate that `next` leaves in place, `none` that the loop is left without one. Each
-- round moves the candidate up, so `limit + 1` rounds are enough.
module _ (scan_from : ℕ → ℕ) (advance : ℕ → Option ℕ) (limit bytes : ℕ) where
  unfoldable pub first_fit : ℕ → ℕ → Option ℕ
  first_fit zero candidate = none
  first_fit (suc fuel) candidate =
      let next = scan_from candidate in
      let again : Option ℕ = elim (advance next) [ none ↦ none | some c ↦ first_fit fuel c ] in
      if leb candidate limit && leb bytes (limit -64 candidate)
      then (if next == candidate then some candidate else again)
      else none

-- One available span: `continue` and `break` both go on to the next span.
unfoldable pub find_in : Span → List Span → ℕ → ℕ → Option ℕ
find_in s excluded bytes alignment =
    let end = s.base +64 s.size in
    elim (align_up s.base alignment) [
      | none ↦ none
      | some c ↦
          first_fit (λ c. scan c bytes excluded c) (λ next. align_up next alignment) end bytes
            (end + 1) c
    ]

unfoldable pub find_each : List Span → List Span → ℕ → ℕ → Result Error Span
find_each [] excluded bytes alignment = err no_space
find_each (s ∷ rest) excluded bytes alignment =
    let later = find_each rest excluded bytes alignment in
    elim (find_in s excluded bytes alignment) [
      | none ↦ later
      | some c ↦ ok (record { base = c; size = bytes })
    ]

unfoldable pub spans_valid : List Span → Bool
spans_valid [] = true
spans_valid (s ∷ rest) = span_valid s.base s.size && spans_valid rest

unfoldable pub is_empty : List Span → Bool
is_empty [] = true
is_empty (s ∷ rest) = false

-- `nv_vram_find_range`. The counts are the lengths of the lists.
unfoldable pub find_range : List Span → List Span → ℕ → ℕ → Result Error Span
find_range available excluded bytes alignment =
    if is_empty available
      || (bytes == 0)
      || not (alignment_valid alignment)
      || not (bit_and bytes (page_bytes - 1) == 0)
      || not (spans_valid available)
      || not (spans_valid excluded)
    then err invalid
    else find_each available excluded bytes alignment
