-- ===== src/Vram/Pool.antt =====
-- The operations of vram.c on a pool.
use rtxmac_oc.Base.{ℕ, ◌+◌, ◌-◌, bit_and, bit_or}
use rtxmac_oc.Base.{◌+64◌, ◌-64◌, u64_max, ltb, ◌==◌, if◌then◌else◌}
use rtxmac_oc.Base.{not, ◌||◌, Option, none, some, List, [], ◌∷◌}
use rtxmac_oc.Base.{Result, ok, err, set, replicate}
use mathlib.Core.Option
use rtxmac_oc.Vram.Defs.{Error, invalid, no_space, Allocation, Pool, page_bytes, max_allocs}
use rtxmac_oc.Vram.Defs.{span_valid, alignment_valid, align_up, scan_slots, first_fit}

abbrev pub free_slot : Allocation
free_slot = record { handle = 0; offset = 0; size = 0 }

-- `nv_vram_pool_init`.
unfoldable pub pool_init : ℕ → ℕ → ℕ → Result Error Pool
pool_init phys va size =
    if not (bit_and (bit_or (bit_or phys va) size) (page_bytes - 1) == 0)
      || not (span_valid phys size)
      || not (span_valid va size)
    then err invalid
    else ok (record {
      phys = phys;
      va = va;
      size = size;
      used = 0;
      next_handle = 1;
      allocations = replicate max_allocs free_slot;
    })

-- `while (slot < NV_VRAM_MAX_ALLOCS && p->allocations[slot].handle) slot++;`
unfoldable pub free_slot_from : List Allocation → ℕ → ℕ
free_slot_from [] slot = slot
free_slot_from (a ∷ rest) slot = if a.handle == 0 then slot else free_slot_from rest (slot + 1)

-- The search for an offset in the pool.
unfoldable pub find_offset : Pool → ℕ → ℕ → ℕ → Option ℕ
find_offset p bytes alignment candidate =
    first_fit (λ c. scan_slots c bytes p.allocations c)
      (λ next. Option.map (λ a. a -64 p.va) (align_up (p.va +64 next) alignment)) p.size bytes
      (p.size + 1) candidate

-- What `nv_vram_alloc` stores once it has an offset: the new handle, and the pool with the slot set.
unfoldable pub take_slot : Pool → ℕ → ℕ → ℕ → ℕ × Pool
take_slot p slot bytes candidate = (
  p.next_handle,
  record p {
    used = p.used +64 bytes;
    next_handle = p.next_handle +64 1;
    allocations =
        set p.allocations slot
          (record { handle = p.next_handle; offset = candidate; size = bytes });
  },
)

-- `nv_vram_alloc` once the arguments are checked and `bytes` is rounded up to pages.
unfoldable pub alloc_pages : Pool → ℕ → ℕ → Result Error (ℕ × Pool)
alloc_pages p bytes alignment =
    if (p.next_handle == 0)
      || (p.next_handle == u64_max)
      || ltb p.size p.used
      || ltb (p.size -64 p.used) bytes
    then err no_space
    else let slot = free_slot_from p.allocations 0 in
      if slot == max_allocs then err no_space else elim (align_up p.va alignment) [
        | none ↦ err no_space
        | some address ↦ elim (find_offset p bytes alignment (address -64 p.va)) [
          | none ↦ err no_space
          | some candidate ↦ ok (take_slot p slot bytes candidate)
        ]
      ]

-- `nv_vram_alloc`: the handle and the pool after the call. On an error the pool is as it was, and
-- the handle that the caller sees is 0.
unfoldable pub alloc : Pool → ℕ → ℕ → Result Error (ℕ × Pool)
alloc p bytes alignment =
    if (p.size == 0) || (bytes == 0) || not (alignment_valid alignment)
    then err invalid
    else elim (align_up bytes page_bytes) [
      | none ↦ err invalid
      | some rounded ↦ alloc_pages p rounded alignment
    ]

-- The loop of `nv_vram_free` over the slots: the size given back and the slots after it.
unfoldable pub release : List Allocation → ℕ → Option (ℕ × List Allocation)
release [] handle = none
release (a ∷ rest) handle =
    if a.handle == handle
    then some (a.size, free_slot ∷ rest)
    else Option.map (λ (r : ℕ × List Allocation). (r.0, a ∷ r.1)) (release rest handle)

-- `nv_vram_free`.
unfoldable pub free : Pool → ℕ → Result Error Pool
free p handle = if handle == 0 then err invalid else elim (release p.allocations handle) [
  | none ↦ err invalid
  | some r ↦ ok (record p { used = p.used -64 r.0; allocations = r.1 })
]

-- The loop of `nv_vram_resolve`: the first slot with the handle decides.
unfoldable pub find_handle : List Allocation → ℕ → Option Allocation
find_handle [] handle = none
find_handle (a ∷ rest) handle = if a.handle == handle then some a else find_handle rest handle

-- `nv_vram_resolve`: the physical and the virtual address.
unfoldable pub resolve : Pool → ℕ → ℕ → ℕ → Result Error (ℕ × ℕ)
resolve p handle offset bytes =
    if (handle == 0) || (bytes == 0) then err invalid else elim (find_handle p.allocations handle) [
      | none ↦ err invalid
      | some a ↦
          if ltb a.size offset || ltb (a.size -64 offset) bytes
          then err invalid
          else ok (p.phys +64 a.offset +64 offset, p.va +64 a.offset +64 offset)
    ]
