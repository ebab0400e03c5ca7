-- ===== src/Vram/Tests.antt =====
-- Runs of the allocator on small pools, and the theorems of vram.c at concrete inputs.
use rtxmac_oc.Base.{ℕ, ◌+◌, ◌≤◌, ◌<◌, ◌≡◌, ◌⊎◌, refl, arith, List, [], ◌∷◌, none}
use rtxmac_oc.Base.{ok, err, replicate}
use rtxmac_oc.Base.Bits.Align.{IsAligned}
use rtxmac_oc.Base.{sym, ◌≢◌}
use rtxmac_oc.Vram.Defs.{Span, Pool, invalid, no_space, max_allocs, find_range}
use rtxmac_oc.Vram.Defs.{
  find_each, find_in, first_fit, scan, bump, align_up, span_valid, spans_valid,
}
use rtxmac_oc.Vram.Defs.{alignment_valid, is_empty, scan_slots}
use rtxmac_oc.Vram.Pool.{pool_init, alloc, alloc_pages, take_slot, find_offset, free_slot_from}
use rtxmac_oc.Vram.AlignUp.{IsAlignment}
use rtxmac_oc.Vram.Find.{IsRequest, IsFound, find_range-IsFound}
use rtxmac_oc.Vram.Invariant.{IsPool}
use rtxmac_oc.Vram.Request.{IsOutcome, alloc-IsOutcome, alloc-IsPool}
use rtxmac_oc.Vram.Safety.{resolve_disjoint, resolve-alloc, alloc_fresh}
use rtxmac_oc.Vram.Free.{free-IsPool, resolve-free_self, free-alloc}
use rtxmac_oc.Vram.History.{handles_never_reused, done}
use rtxmac_oc.Vram.History.{free_slots, IsDisjoint-free, total_free}
use rtxmac_oc.Vram.Pool.{free_slot, free, release, resolve, find_handle}

abbrev fresh : Pool
fresh = record {
  phys = 0x20000000;
  va = 0x100000000;
  size = 0x10000;
  used = 0;
  next_handle = 1;
  allocations = replicate max_allocs free_slot;
}

-- One page under handle 1, at the start of the pool.
abbrev one_page : Pool
one_page = record {
  phys = 0x20000000;
  va = 0x100000000;
  size = 0x10000;
  used = 4096;
  next_handle = 2;
  allocations = record { handle = 1; offset = 0; size = 4096 } ∷ replicate 127 free_slot;
}

pool_init_runs : pool_init 0x20000000 0x100000000 0x10000 ≡ ok fresh
unfolding pool_init span_valid
pool_init_runs = refl

alloc_runs : alloc fresh 100 4096 ≡ ok (1, one_page)
unfolding alloc alloc_pages take_slot find_offset free_slot_from first_fit scan_slots bump align_up
    alignment_valid
alloc_runs = refl

-- Two pages, under handles 1 and 2.
abbrev two_pages : Pool
two_pages = record {
  phys = 0x20000000;
  va = 0x100000000;
  size = 0x10000;
  used = 8192;
  next_handle = 3;
  allocations =
      record { handle = 1; offset = 0; size = 4096 }
      ∷ record { handle = 2; offset = 4096; size = 4096 }
      ∷ replicate 126 free_slot;
}

alloc_second : alloc one_page 4096 4096 ≡ ok (2, two_pages)
unfolding alloc alloc_pages take_slot find_offset free_slot_from first_fit scan_slots bump align_up
    alignment_valid
alloc_second = refl

resolve_first : resolve two_pages 1 16 100 ≡ ok (0x20000010, 0x100000010)
unfolding resolve find_handle
resolve_first = refl

resolve_second : resolve two_pages 2 0 4096 ≡ ok (0x20001000, 0x100001000)
unfolding resolve find_handle
resolve_second = refl

resolve_outside : resolve two_pages 2 4000 97 ≡ err invalid
unfolding resolve find_handle
resolve_outside = refl

abbrev available : List Span
available = record { base = 0x10000; size = 0x5000 } ∷ []

abbrev excluded : List Span
excluded = record { base = 0x11000; size = 0x1800 } ∷ record { base = 0x10000; size = 0x1000 } ∷ []

find_range_runs :
    find_range available excluded 0x1000 0x2000 ≡ ok (record { base = 0x14000; size = 0x1000 })
unfolding find_range find_each find_in first_fit scan bump align_up span_valid spans_valid
    alignment_valid is_empty
find_range_runs = refl

find_range_full : find_range available excluded 0x2000 0x2000 ≡ err no_space
unfolding find_range find_each find_in first_fit scan bump align_up span_valid spans_valid
    alignment_valid is_empty
find_range_full = refl

abbrev two_pages_aligned : IsAlignment 0x2000
two_pages_aligned = record {
  exponent = 13;
  power = refl;
  page = omega arith;
  word = omega arith;
  narrow = omega arith;
}

request : IsRequest available excluded 0x1000 0x2000
unfolding is_empty
request = record {
  some_span = refl;
  positive = omega arith;
  pages = refl;
  aligned = two_pages_aligned;
  ranges = omega arith;
  excluded_ranges = omega arith;
}

find_range-IsFound_example :
    IsFound excluded 0x1000 0x2000 available (find_range available excluded 0x1000 0x2000)
find_range-IsFound_example = find_range-IsFound available excluded 0x1000 0x2000 request

fresh-IsPool : IsPool fresh
fresh-IsPool = record {
  positive = omega arith;
  phys_word = omega arith;
  va_word = omega arith;
  phys_pages = refl;
  va_pages = refl;
  size_pages = refl;
  handle_pos = omega arith;
  handle_word = omega arith;
  slots = refl;
  live = free_slots 0x10000 1 128;
  disjoint = IsDisjoint-free 128;
  counted = sym (total_free 128);
  budget = omega arith;
}

one_page-IsPool : IsPool one_page
one_page-IsPool = alloc-IsPool fresh 100 4096 fresh-IsPool (omega arith) (omega arith) alloc_runs

two_pages-IsPool : IsPool two_pages
two_pages-IsPool =
    alloc-IsPool one_page 4096 4096 one_page-IsPool (omega arith) (omega arith) alloc_second

alloc-IsOutcome_example : IsOutcome one_page 4096 4096 (alloc one_page 4096 4096)
alloc-IsOutcome_example =
    alloc-IsOutcome one_page 4096 4096 one_page-IsPool (omega arith) (omega arith)

alloc-IsPool_example : IsPool two_pages
alloc-IsPool_example =
    alloc-IsPool one_page 4096 4096 one_page-IsPool (omega arith) (omega arith) alloc_second

resolve-alloc_example :
    (c : ℕ) × IsAligned 4096 (0x100000000 + c)
    × (c + 4096 ≤ 0x10000)
    × ((offset n : ℕ)
        → 0 < n
        → offset + n ≤ 4096
        → resolve two_pages 2 offset n ≡ ok (0x20000000 + c + offset, 0x100000000 + c + offset))
resolve-alloc_example =
    resolve-alloc one_page 4096 4096 one_page-IsPool (omega arith) (omega arith) alloc_second

alloc_fresh_example :
    (find_handle one_page.allocations 2 ≡ none)
    × ((other offset n : ℕ)
        → other ≢ 2
        → resolve two_pages other offset n ≡ resolve one_page other offset n)
alloc_fresh_example =
    alloc_fresh one_page 4096 4096 one_page-IsPool (omega arith) (omega arith) alloc_second

resolve_disjoint_example :
    ((0x20000010 + 100 ≤ 0x20001000) ⊎ (0x20001000 + 4096 ≤ 0x20000010))
    × ((0x100000010 + 100 ≤ 0x100001000) ⊎ (0x100001000 + 4096 ≤ 0x100000010))
resolve_disjoint_example =
    resolve_disjoint two_pages 1 2 16 100 0 4096 two_pages-IsPool (omega arith) (omega arith)
      (omega arith) (omega arith) (omega arith) resolve_first resolve_second

free_runs : free two_pages 2 ≡ ok (record one_page { next_handle = 3 })
unfolding free release
free_runs = refl

free-IsPool_example : IsPool (record one_page { next_handle = 3 })
free-IsPool_example = free-IsPool two_pages 2 two_pages-IsPool free_runs

resolve-free_self_example :
    (resolve (record one_page { next_handle = 3 }) 2 0 16 ≡ err invalid)
    × (free (record one_page { next_handle = 3 }) 2 ≡ err invalid)
resolve-free_self_example = resolve-free_self two_pages 2 0 16 two_pages-IsPool free_runs

free-alloc_example : free two_pages 2 ≡ ok (record one_page { next_handle = 2 + 1 })
free-alloc_example =
    free-alloc one_page 4096 4096 one_page-IsPool (omega arith) (omega arith) alloc_second

handles_never_reused_example : 1 < 2
handles_never_reused_example =
    handles_never_reused 100 4096 4096 4096 fresh-IsPool (omega arith) (omega arith) (omega arith)
      (omega arith) alloc_runs done alloc_second
