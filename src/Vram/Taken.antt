-- ===== src/Vram/Taken.antt =====
-- `nv_vram_alloc` in terms of the slot it takes: checks, rounding to pages, and the search.
use rtxmac_oc.Base.{ℕ, ◌+◌, ◌-◌, ◌^◌, ◌≤◌, ◌<◌, ◌≡◌, ◌≢◌, refl, arith, ◌⊎◌, inl, inr}
use rtxmac_oc.Base.{some, Option-cases, Bool-cases, ◌==◌, ◌||◌, true, false}
use rtxmac_oc.Base.{not, Result, ok, err}
use rtxmac_oc.Base.{Bool}
use rtxmac_oc.Base.Bits.Align.{RoundsUp}
use rtxmac_oc.Vram.Defs.{Pool, Error, no_space, invalid, align_up, alignment_valid, page_bytes}
use rtxmac_oc.Vram.Pool.{alloc, take_slot, free_slot_from}
use rtxmac_oc.Vram.AlignUp.{
  IsAlignment, align_up_lem, align_up-RoundsUp, alignment_valid-IsAlignment,
}
use rtxmac_oc.Vram.Search.{IsLowest}
use rtxmac_oc.Vram.Invariant.{IsPool}
use rtxmac_oc.Vram.Offset.{IsGap}
use rtxmac_oc.Vram.Alloc.{Refusal, alloc_pages_cases}

page-IsAlignment : IsAlignment page_bytes
page-IsAlignment = record {
  exponent = 12;
  power = refl;
  page = omega arith;
  word = omega arith;
  narrow = omega arith;
}

-- What a successful call found, and the slot that it took.
pub record IsTaken (p : Pool) (bytes alignment handle : ℕ) (p' : Pool) : Type 0 where
  pub request : IsAlignment alignment
  pub rounded : ℕ
  pub rounds : RoundsUp page_bytes bytes rounded
  pub positive : 0 < bytes
  pub offset : ℕ
  pub lowest : IsLowest (IsGap p rounded alignment) 0 (some offset)
  pub handles : p.next_handle < 2 ^ 64 - 1
  pub room : p.used + rounded ≤ p.size
  pub slot : free_slot_from p.allocations 0 ≢ 128
  pub stored : (handle, p') ≡ take_slot p (free_slot_from p.allocations 0) rounded offset

-- What the checks, the rounding and the search of `nv_vram_alloc` come to.
abbrev pub AllocCase : Pool → ℕ → ℕ → Result Error (ℕ × Pool) → Type 0
AllocCase p bytes alignment (ok r) = IsTaken p bytes alignment r.0 r.1
AllocCase p bytes alignment (err no_space) =
    (rounded : ℕ) × RoundsUp page_bytes bytes rounded × Refusal p rounded alignment
AllocCase p bytes alignment (err invalid) =
    (bytes ≡ 0) ⊎ ((alignment_valid alignment ≡ false) ⊎ (2 ^ 64 < bytes + page_bytes))

pub alloc_cases :
    (p : Pool) (bytes alignment : ℕ)
    → IsPool p
    → bytes < 2 ^ 64
    → alignment < 2 ^ 64
    → AllocCase p bytes alignment (alloc p bytes alignment)
unfolding alloc
alloc_cases p bytes alignment inv wb wa = elim (Bool-cases bad_test) [
  | inl bad ↦ rw (bad, alloc) (ground (arith, inv.positive))
  | inr good ↦
      let accepted : (0 < bytes) × (alignment_valid alignment ≡ true) =
        ground (arith, inv.positive) in
      let al = alignment_valid-IsAlignment alignment wa accepted.1 in
      elim (Option-cases (align_up bytes page_bytes)) [
        | inl e ↦
            rw (good, e, alloc)
              (inr (inr (ground (arith, align_up_lem bytes page_bytes page-IsAlignment wb))))
        | inr (r, e) ↦
            let up = align_up-RoundsUp bytes page_bytes page-IsAlignment wb e in
            elim (alloc_pages_cases p r alignment inv al) [
              | inl (c, low, h, room, slot, run) ↦
                  rw (good, e, run, alloc)
                    (record {
                      request = al;
                      rounded = r;
                      rounds = up.0;
                      positive = accepted.0;
                      offset = c;
                      lowest = low;
                      handles = h;
                      room = room;
                      slot = slot;
                      stored = refl;
                    })
              | inr (why, run) ↦ rw (good, e, run, alloc) (r, up.0, why)
            ]
      ]
]
  where
    bad_test : Bool
    bad_test = (p.size == 0) || (bytes == 0) || not (alignment_valid alignment)
