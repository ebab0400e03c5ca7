-- ===== src/Vram/Offset.antt =====
-- The search for an offset in a pool finds the lowest gap with an aligned address.
use rtxmac_oc.Base.{ℕ, ◌+◌, ◌-◌, ◌^◌, ◌≤◌, ◌≡◌, sym, ◌∙◌, arith, inl, inr}
use rtxmac_oc.Base.{All, Option, none, some, Option-cases, ◌-64◌, ◌+64◌}
use mathlib.Core.Option
use rtxmac_oc.Vram.Defs.{Pool, align_up, scan_slots}
use rtxmac_oc.Vram.Pool.{find_offset}
use rtxmac_oc.Vram.AlignUp.{IsAlignment}
use rtxmac_oc.Vram.FirstFit.{IsSpan, scan-le, le-scan, free_of_scan, scan-le_of_free}
use rtxmac_oc.Vram.Search.{Fits, Steps, IsLowest, IsLowest-from, first_fit-IsLowest}
use rtxmac_oc.Vram.Places.{IsPlace, align_up-IsLowest}
use rtxmac_oc.Vram.Invariant.{IsPool, live_spans, scan_slots-eq-scan, live_spans-IsSpan, All-map}

module _ (p : Pool) (bytes alignment : ℕ) where
  -- An offset whose virtual address is a multiple of the alignment.
  abbrev pub IsOffset : ℕ → Type 0
  IsOffset x = IsPlace alignment (p.va + x)

  -- A gap: an aligned offset with `bytes` free inside the pool.
  abbrev pub IsGap : ℕ → Type 0
  IsGap x = Fits IsOffset p.size bytes (live_spans p.allocations) x

  abbrev pub advance : ℕ → Option ℕ
  advance next = Option.map (λ a. a -64 p.va) (align_up (p.va +64 next) alignment)

  -- The offset that `nv_vram_alloc` starts from and the search itself.
  abbrev pub lowest_offset : Option ℕ
  lowest_offset = elim (align_up p.va alignment) [
    | none ↦ none
    | some address ↦ find_offset p bytes alignment (address -64 p.va)
  ]

  module _ (inv : IsPool p) (al : IsAlignment alignment) where
    advance-IsLowest : (n : ℕ) → n ≤ p.size → IsLowest IsOffset n (advance n)
    advance-IsLowest n h =
        let sum : p.va +64 n ≡ p.va + n = omega (arith, inv.va_word) in
        let low = align_up-IsLowest (p.va + n) alignment al (omega (arith, inv.va_word)) in
        elim (Option-cases (align_up (p.va + n) alignment)) [
          | inl e ↦ rw (sum, e) (λ x q r. (rw e at low) (p.va + x) (omega arith) r)
          | inr (a, e) ↦
              let at_a : IsLowest (IsPlace alignment) (p.va + n) (some a) = rw e at low in
              let back : a -64 p.va ≡ a - p.va = omega (arith, at_a, inv.va_word) in
              let there : p.va + (a - p.va) ≡ a = omega (arith, at_a.1) in
              rw (sum, e, back)
                (
                  rw there at_a.0,
                  omega (arith, at_a.1),
                  λ x q r. omega (arith, at_a.2 (p.va + x) (omega arith) r),
                )
        ]

    spans_in : All (IsSpan p.size) (live_spans p.allocations)
    spans_in = live_spans-IsSpan p.size p.next_handle p.allocations inv.live

    spans_word : All (IsSpan (2 ^ 64 - 1)) (live_spans p.allocations)
    spans_word = All-map (live_spans p.allocations) (λ s h. omega (arith, h, inv.va_word)) spans_in

    Steps-alloc :
        Steps IsOffset p.size bytes
          (live_spans p.allocations)
          (λ c. scan_slots c bytes p.allocations c)
          advance
    Steps-alloc = record {
      word = omega (arith, inv.va_word);
      scan_up = λ c. omega (
        arith,
        scan_slots-eq-scan c bytes p.allocations c,
        le-scan c bytes (live_spans p.allocations) c,
      );
      scan_free = λ c h e.
          free_of_scan c bytes (live_spans p.allocations) spans_word (omega (arith, inv.va_word))
            (sym (scan_slots-eq-scan c bytes p.allocations c) ∙ e);
      scan_low = λ c x h q i f. rw (scan_slots-eq-scan c bytes p.allocations c) (
          scan-le_of_free c bytes (live_spans p.allocations) c x spans_word f q q
            (omega (arith, inv.va_word)));
      next = λ c h. advance-IsLowest (scan_slots c bytes p.allocations c) (
          rw (scan_slots-eq-scan c bytes p.allocations c) (
            scan-le c bytes (live_spans p.allocations) c p.size spans_in
              (omega (arith, inv.va_word)) h));
    }

    -- The search from the first aligned address finds the lowest gap, if there is one.
    pub lowest_offset-IsLowest : IsLowest IsGap 0 lowest_offset
    unfolding find_offset
    lowest_offset-IsLowest =
        let low = align_up-IsLowest p.va alignment al (omega (arith, inv.va_word)) in
        elim (Option-cases (align_up p.va alignment)) [
          | inl e ↦ rw (e, lowest_offset) (λ x h q. (rw e at low) (p.va + x) (omega arith) q.place)
          | inr (a, e) ↦
              let at_a : IsLowest (IsPlace alignment) p.va (some a) = rw e at low in
              let back : a -64 p.va ≡ a - p.va = omega (arith, at_a, inv.va_word) in
              let there : p.va + (a - p.va) ≡ a = omega (arith, at_a.1) in
              rw (e, lowest_offset, back)
                (IsLowest-from _ (omega arith)
                  (λ x h q. omega (arith, at_a.2 (p.va + x) (omega arith) q.place))
                  (first_fit-IsLowest IsOffset p.size bytes (live_spans p.allocations) _ _
                    Steps-alloc (p.size + 1) (a - p.va) (omega arith) (rw there at_a.0)))
        ]
