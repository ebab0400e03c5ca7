-- ===== src/Vram/Alloc.antt =====
-- `nv_vram_alloc`: what a successful call does to the pool, and why a call fails.
use rtxmac_oc.Base.{ℕ, ◌+◌, ◌-◌, ◌%◌, ◌^◌, ◌≤◌, ◌<◌, ◌≡◌, ◌≢◌, ◌∙◌, refl, arith, ◌⊎◌, inl, inr}
use rtxmac_oc.Base.{Option, none, some, List, Option-cases, ◌-64◌, ◌+64◌}
use rtxmac_oc.Base.{get_elem?, ◌==◌, false, Result, ok, err}
use native.Mathlib.Decide.{dec_lt, ℕ_discrete}
use rtxmac_oc.Base.{length-set}
use rtxmac_oc.Vram.Defs.{Pool, Error, no_space, Allocation, align_up}
use rtxmac_oc.Vram.Pool.{alloc_pages, take_slot, find_offset, free_slot_from, free_slot}
use rtxmac_oc.Vram.AlignUp.{IsAlignment}
use rtxmac_oc.Vram.Search.{IsLowest}
use rtxmac_oc.Vram.Invariant.{IsPool, IsSlot-grow, IsSlot, free_slot_from-get}
use rtxmac_oc.Vram.Invariant.{IsClear-of_free, IsDisjoint-set, All-set, All-map, total-set}
use rtxmac_oc.Vram.Offset.{IsGap, lowest_offset, lowest_offset-IsLowest}

-- Why whole pages are refused: no handle, no budget, no slot or no gap.
abbrev pub Refusal : Pool → ℕ → ℕ → Type 0
Refusal p bytes alignment =
    (p.next_handle ≡ 2 ^ 64 - 1)
    ⊎ ((p.size < p.used + bytes)
        ⊎ ((free_slot_from p.allocations 0 ≡ 128) ⊎ IsLowest (IsGap p bytes alignment) 0 none))

module _ (p : Pool) (bytes alignment : ℕ) (inv : IsPool p) (al : IsAlignment alignment) where
  -- What the code does with the outcome of the search.
  finish : Option ℕ → Result Error (ℕ × Pool)
  finish none = err no_space
  finish (some c) = ok (take_slot p (free_slot_from p.allocations 0) bytes c)

  alloc_pages-finish :
      p.next_handle < 2 ^ 64 - 1
      → p.used + bytes ≤ p.size
      → free_slot_from p.allocations 0 ≢ 128
      → alloc_pages p bytes alignment ≡ finish (lowest_offset p bytes alignment)
  unfolding finish alloc_pages
  alloc_pages-finish h r s =
      let slot : (free_slot_from p.allocations 0 == 128) ≡ false = ground arith in
      let left : p.size -64 p.used ≡ p.size - p.used = omega (arith, inv.va_word) in
      elim (Option-cases (align_up p.va alignment)) [
        | inl e ↦ rw (e, lowest_offset) (ground (arith, inv.handle_pos, inv.budget, slot, left))
        | inr (a, e) ↦ elim (Option-cases (find_offset p bytes alignment (a -64 p.va))) [
          | inl e' ↦
              rw (e, lowest_offset, e') (ground (arith, inv.handle_pos, inv.budget, slot, left))
          | inr (c, e') ↦
              rw (e, lowest_offset, e') (ground (arith, inv.handle_pos, inv.budget, slot, left))
        ]
      ]

  -- The outcome on whole pages, by what the search finds.
  pub alloc_pages_cases :
      ((c : ℕ) × IsLowest (IsGap p bytes alignment) 0 (some c)
        × (p.next_handle < 2 ^ 64 - 1)
        × (p.used + bytes ≤ p.size)
        × (free_slot_from p.allocations 0 ≢ 128)
        × (alloc_pages p bytes alignment
            ≡ ok (take_slot p (free_slot_from p.allocations 0) bytes c)))
      ⊎ (Refusal p bytes alignment × (alloc_pages p bytes alignment ≡ err no_space))
  alloc_pages_cases = elim (dec_lt p.next_handle (2 ^ 64 - 1)) [
    | no h ↦ inr (inl (omega (arith, inv.handle_word)), unfold alloc_pages in ground arith)
    | yes h ↦ elim (dec_lt p.size (p.used + bytes)) [
      | yes r ↦ inr (inr (inl r), unfold alloc_pages in ground (arith, inv.budget, inv.va_word))
      | no r ↦ elim (ℕ_discrete (free_slot_from p.allocations 0) 128) [
        | yes s ↦ inr (inr (inr (inl s)), unfold alloc_pages in ground arith)
        | no s ↦
            let low = lowest_offset-IsLowest p bytes alignment inv al in
            let run = alloc_pages-finish h (omega arith) s in
            elim (Option-cases (lowest_offset p bytes alignment)) [
              | inl e ↦ inr (inr (inr (inr (rw e at low))), rw (run, e) (unfold finish in refl))
              | inr (c, e) ↦
                  inl (c, rw e at low, h, omega arith, s, rw (run, e) (unfold finish in refl))
            ]
      ]
    ]
  ]

  -- A slot set to a new allocation leaves a pool.
  pub take_slot-IsPool :
      (c : ℕ)
      → IsGap p bytes alignment c
      → 0 < bytes
      → bytes % 4096 ≡ 0
      → p.next_handle < 2 ^ 64 - 1
      → p.used + bytes ≤ p.size
      → free_slot_from p.allocations 0 ≢ 128
      → IsPool (take_slot p (free_slot_from p.allocations 0) bytes c).1
  unfolding take_slot
  take_slot-IsPool c gap pos pages h r s = record {
    positive = inv.positive;
    phys_word = inv.phys_word;
    va_word = inv.va_word;
    phys_pages = inv.phys_pages;
    va_pages = inv.va_pages;
    size_pages = inv.size_pages;
    handle_pos = omega arith;
    handle_word = omega arith;
    slots = rw (length-set l i v) inv.slots;
    live =
        All-set (IsSlot p.size (p.next_handle +64 1)) l i v
          (All-map l
            (λ a q. IsSlot-grow p.size p.next_handle (p.next_handle +64 1) a (omega arith) q)
            inv.live)
          (inr (omega (arith, inv.handle_pos, gap.inside)));
    disjoint =
        IsDisjoint-set l i v inv.disjoint
          (IsClear-of_free p.size p.next_handle bytes c l inv.live gap.free);
    counted = omega (arith, inv.counted, inv.va_word, total-set l i v {a = free_slot} at_slot);
    budget = omega (arith, inv.va_word);
  }
    where
      l : List Allocation
      l = p.allocations

      i : ℕ
      i = free_slot_from p.allocations 0

      v : Allocation
      v = record { handle = p.next_handle; offset = c; size = bytes }

      at_slot : get_elem? l i ≡ some free_slot
      at_slot = free_slot_from-get l p.size p.next_handle inv.live (λ q. s (q ∙ inv.slots))
