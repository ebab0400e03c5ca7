-- ===== src/GspFw/Layout.antt =====
-- The regions below the FRTS region.
use rtxmac_oc.Base.{ℕ, ◌+◌, ◌-◌, ◌*◌, ◌/◌, ◌%◌, ◌^◌, ◌≤◌, ◌<◌, ◌≡◌, refl, ◌∙◌, arith, ltb, ◌==◌}
use rtxmac_oc.Base.{◌||◌, true, false, Bool-cases, inl, inr, ◌⊎◌}
use rtxmac_oc.Base.{◌+64◌, ◌-64◌, ◌>>>◌, u64, ok, err}
use native.Mathlib.Nat.{mod-lt}
use native.Mathlib.Decide.{dec_lt}
use rtxmac_oc.Base.Bits.Align.{bit_and-not64_low, IsAligned-sub_mod}
use rtxmac_oc.GspFw.Defs.{
  Error, argument, bounds, FwLayout, align_down, align_up, heap_need, place_regions, is_ordered,
  fb_layout,
}

down12 : (v : ℕ) → v < 2 ^ 64 → align_down v 0x1000 ≡ v - v % 0x1000
unfolding align_down
down12 v h = bit_and-not64_low 12 v (omega arith) h

down16 : (v : ℕ) → v < 2 ^ 64 → align_down v 0x10000 ≡ v - v % 0x10000
unfolding align_down
down16 v h = bit_and-not64_low 16 v (omega arith) h

down20 : (v : ℕ) → v < 2 ^ 64 → align_down v 0x100000 ≡ v - v % 0x100000
unfolding align_down
down20 v h = bit_and-not64_low 20 v (omega arith) h

up20 : (v : ℕ) → v < 2 ^ 60 → align_up v (2 ^ 20) ≡ (v + 0xfffff) / 0x100000 * 0x100000
unfolding align_up
up20 v h =
    let sum : v +64 2 ^ 20 -64 1 ≡ v + 0xfffff = omega (arith, h) in
    rw sum (bit_and-not64_low 20 (v + 0xfffff) (omega arith) (omega (arith, h)) ∙ omega arith)

-- The heap in MiB: 124, and 96 KiB for each GiB of memory that is begun.
abbrev pub heap_mib : ℕ → ℕ
heap_mib fb_size = 124 + (0x18000 * ((fb_size + 0x3fffffff) / 0x40000000) + 0xfffff) / 0x100000

heap_need-eq : (fb_size : ℕ) → fb_size < 2 ^ 62 → heap_need fb_size ≡ heap_mib fb_size * 0x100000
unfolding heap_need
heap_need-eq fb_size h =
    let gb : (fb_size +64 2 ^ 30 -64 1) >>> 30 ≡ (fb_size + 0x3fffffff) / 0x40000000 =
      omega (arith, h) in
    let bytes : u64 (0x18000 * ((fb_size + 0x3fffffff) / 0x40000000))
        ≡ 0x18000 * ((fb_size + 0x3fffffff) / 0x40000000) =
      omega (arith, h) in
    let up = up20 (0x18000 * ((fb_size + 0x3fffffff) / 0x40000000)) (omega (arith, h)) in
    let clients : align_up (0xc000 * 2048) (2 ^ 20) ≡ 0x6000000 =
      up20 (0xc000 * 2048) (omega arith) in
    let whole : 0x1400000
          +64 0x800000
          +64 (0x18000 * ((fb_size + 0x3fffffff) / 0x40000000) + 0xfffff) / 0x100000 * 0x100000
          +64 0x6000000
        ≡ heap_mib fb_size * 0x100000 =
      omega (arith, h) in
    let large : ltb (heap_mib fb_size * 0x100000) 0x5400000 ≡ false = ground arith in
    rw (gb, bytes, up, clients, whole, large) refl

-- A region of `size` bytes as high below `top` as the alignment allows: a difference that ran below 0
-- would stand above `top`.
region_below :
    (top size a : ℕ)
    → top < 2 ^ 63
    → size < 2 ^ 62
    → 0 < a
    → a ≤ 0x100000
    → (top -64 size) - (top -64 size) % a ≤ top
    → ((top -64 size) - (top -64 size) % a + size ≤ top)
      × (top < (top -64 size) - (top -64 size) % a + size + a)
      × (((top -64 size) - (top -64 size) % a) % a ≡ 0)
region_below top size a h k pos few below =
    let x = top -64 size in
    let rem = mod-lt x pos in
    (
      omega (arith, rem, below, h, k, few),
      omega (arith, rem, below, h, k, few),
      IsAligned-sub_mod a x pos,
    )

-- Where there is room, the difference is taken below `top`.
region_fits :
    (top size a : ℕ)
    → top < 2 ^ 63
    → 0 < size
    → 0 < a
    → size + a ≤ top
    → ((top -64 size) - (top -64 size) % a < top)
      × (top < (top -64 size) - (top -64 size) % a + size + a)
region_fits top size a h few pos room =
    let rem = mod-lt (top -64 size) pos in
    (omega (arith, rem, h, few, room), omega (arith, rem, h, few, room))

-- The heap is the whole MiB between its start and the firmware.
heap_space :
    (elf heap size mib : ℕ)
    → elf < 2 ^ 62
    → heap < elf
    → size ≡ (elf -64 heap) - (elf -64 heap) % 0x100000
    → heap + mib * 0x100000 ≤ elf
    → (heap + size ≤ elf) × (mib * 0x100000 ≤ size)
heap_space elf heap size mib small low e room =
    (omega (arith, small, low, e), omega (arith, small, low, e, room))

-- The regions stand one below the other, each as high as its alignment allows: FRTS at the top of
-- WPR2, the boot loader at a page, the firmware at 64 KiB, the heap at 1 MiB with at least the space
-- that it needs, the start of WPR2 at 1 MiB with room for the meta data, and 1 MiB below it.
pub record IsPlaced (fb_size frts_addr frts_size boot_size elf_size : ℕ) (l : FwLayout)
    : Type 0 where
  pub top : frts_addr + frts_size ≡ l.wpr2_end
  pub inside : l.wpr2_end ≤ fb_size
  pub boot : l.boot_addr + boot_size ≤ frts_addr
  pub boot_near : frts_addr < l.boot_addr + boot_size + 0x1000
  pub boot_aligned : l.boot_addr % 0x1000 ≡ 0
  pub elf : l.elf_addr + elf_size ≤ l.boot_addr
  pub elf_near : l.boot_addr < l.elf_addr + elf_size + 0x10000
  pub elf_aligned : l.elf_addr % 0x10000 ≡ 0
  pub heap : l.heap_addr + l.heap_size ≤ l.elf_addr
  pub heap_enough : heap_mib fb_size * 0x100000 ≤ l.heap_size
  pub heap_aligned : l.heap_addr % 0x100000 ≡ 0
  pub meta : l.wpr2_addr + 256 ≤ l.heap_addr
  pub wpr2_aligned : l.wpr2_addr % 0x100000 ≡ 0
  pub wpr2 : l.wpr2_addr + l.wpr2_size ≡ l.wpr2_end
  pub below : l.nonwpr_heap_addr + l.nonwpr_heap_size ≡ l.wpr2_addr

module _ (fb_size frts_addr frts_size boot_size elf_size : ℕ) (fb_small : fb_size < 2 ^ 62)
    (addr_small : frts_addr < 2 ^ 62) (frts_small : frts_size < 2 ^ 62)
    (boot_small : boot_size < 2 ^ 62) (elf_small : elf_size < 2 ^ 62) where
  abbrev placed : FwLayout
  placed = place_regions fb_size frts_addr frts_size boot_size elf_size

  -- The chain of addresses from the top down.
  record Chain : Type 0 where
    boot_eq : placed.boot_addr ≡ (frts_addr -64 boot_size) - (frts_addr -64 boot_size) % 0x1000
    elf_eq :
        placed.elf_addr
        ≡ (placed.boot_addr -64 elf_size) - (placed.boot_addr -64 elf_size) % 0x10000
    heap_eq :
        placed.heap_addr
        ≡ (placed.elf_addr -64 heap_mib fb_size * 0x100000)
          - (placed.elf_addr -64 heap_mib fb_size * 0x100000) % 0x100000
    size_eq :
        placed.heap_size
        ≡ (placed.elf_addr -64 placed.heap_addr) - (placed.elf_addr -64 placed.heap_addr) % 0x100000
    wpr2_eq : placed.wpr2_addr ≡ (placed.heap_addr -64 256) - (placed.heap_addr -64 256) % 0x100000
    end_eq : placed.wpr2_end ≡ frts_addr +64 frts_size
    wpr2_size_eq : placed.wpr2_size ≡ placed.wpr2_end -64 placed.wpr2_addr
    nonwpr_eq : placed.nonwpr_heap_addr ≡ placed.wpr2_addr -64 0x100000
    nonwpr_size_eq : placed.nonwpr_heap_size ≡ 0x100000

  chain : Chain
  unfolding place_regions
  chain = record {
    boot_eq = down12 _ (omega arith);
    elf_eq = down16 _ (omega arith);
    heap_eq = rw (heap_need-eq fb_size fb_small) (down20 _ (omega arith));
    size_eq = down20 _ (omega arith);
    wpr2_eq = down20 _ (omega arith);
    end_eq = refl;
    wpr2_size_eq = refl;
    nonwpr_eq = refl;
    nonwpr_size_eq = refl;
  }

  record Order : Type 0 where
    first : placed.nonwpr_heap_addr < placed.wpr2_addr
    second : placed.wpr2_addr ≤ placed.heap_addr
    third : placed.heap_addr < placed.elf_addr
    fourth : placed.elf_addr < placed.boot_addr
    fifth : placed.boot_addr < frts_addr

  frts_kept : placed.frts_addr ≡ frts_addr
  unfolding place_regions
  frts_kept = refl

  order_of : is_ordered placed ≡ true → Order
  unfolding is_ordered
  order_of h = record {
    first = ground (arith, h);
    second = ground (arith, h);
    third = ground (arith, h);
    fourth = ground (arith, h);
    fifth = ground (arith, h, frts_kept);
  }

  ordered-IsPlaced :
      placed.wpr2_end ≤ fb_size
      → is_ordered placed ≡ true
      → IsPlaced fb_size frts_addr frts_size boot_size elf_size placed
  ordered-IsPlaced inside h =
      let o = order_of h in
      let need = heap_mib fb_size * 0x100000 in
      let need_small : need < 2 ^ 62 = omega (arith, fb_small) in
      let b =
        region_below frts_addr boot_size 0x1000 (omega (arith, addr_small)) boot_small (omega arith)
          (omega arith) (omega (arith, chain.boot_eq, o.fifth)) in
      let e =
        region_below placed.boot_addr elf_size 0x10000 (omega (arith, addr_small, o.fifth))
          elf_small (omega arith) (omega arith) (omega (arith, chain.elf_eq, o.fourth)) in
      let p =
        region_below placed.elf_addr need 0x100000 (omega (arith, addr_small, o.fourth, o.fifth))
          need_small (omega arith) (omega arith) (omega (arith, chain.heap_eq, o.third)) in
      let space =
        heap_space placed.elf_addr placed.heap_addr placed.heap_size (heap_mib fb_size)
          (omega (arith, addr_small, o.fourth, o.fifth)) o.third chain.size_eq
          (omega (arith, p, chain.heap_eq)) in
      let w =
        region_below placed.heap_addr 256 0x100000
          (omega (arith, addr_small, o.third, o.fourth, o.fifth)) (omega arith) (omega arith)
          (omega arith) (omega (arith, chain.wpr2_eq, o.second)) in
      record {
        top = omega (arith, chain.end_eq, addr_small, frts_small);
        inside = inside;
        boot = omega (arith, b, chain.boot_eq);
        boot_near = omega (arith, b, chain.boot_eq);
        boot_aligned = rw chain.boot_eq b.2;
        elf = omega (arith, e, chain.elf_eq);
        elf_near = omega (arith, e, chain.elf_eq);
        elf_aligned = rw chain.elf_eq e.2;
        heap = space.0;
        heap_enough = space.1;
        heap_aligned = rw chain.heap_eq p.2;
        meta = omega (arith, w, chain.wpr2_eq);
        wpr2_aligned = rw chain.wpr2_eq w.2;
        wpr2 = omega (
          arith, chain.wpr2_size_eq, chain.end_eq, addr_small, frts_small, o.second, o.third,
          o.fourth, o.fifth,
        );
        below = omega (
          arith, chain.nonwpr_eq, chain.nonwpr_size_eq, o.first, o.second, o.third, o.fourth,
          o.fifth, addr_small,
        );
      }

  roomy-Order :
      0 < boot_size
      → 0 < elf_size
      → boot_size + elf_size + heap_mib fb_size * 0x100000 + 0x400000 ≤ frts_addr
      → Order
  roomy-Order has_boot has_elf room =
      let need = heap_mib fb_size * 0x100000 in
      let need_pos : 0 < need = omega arith in
      let b =
        region_fits frts_addr boot_size 0x1000 (omega (arith, addr_small)) has_boot (omega arith)
          (omega (arith, room)) in
      let at_boot : (placed.boot_addr < frts_addr)
          × (frts_addr < placed.boot_addr + boot_size + 0x1000) =
        rw chain.boot_eq b in
      let e =
        region_fits placed.boot_addr elf_size 0x10000 (omega (arith, at_boot, addr_small)) has_elf
          (omega arith) (omega (arith, at_boot, room)) in
      let at_elf : (placed.elf_addr < placed.boot_addr)
          × (placed.boot_addr < placed.elf_addr + elf_size + 0x10000) =
        rw chain.elf_eq e in
      let p =
        region_fits placed.elf_addr need 0x100000 (omega (arith, at_boot, at_elf, addr_small))
          need_pos (omega arith) (omega (arith, at_boot, at_elf, room)) in
      let at_heap : (placed.heap_addr < placed.elf_addr)
          × (placed.elf_addr < placed.heap_addr + need + 0x100000) =
        rw chain.heap_eq p in
      let w =
        region_fits placed.heap_addr 256 0x100000
          (omega (arith, at_boot, at_elf, at_heap, addr_small)) (omega arith) (omega arith)
          (omega (arith, at_boot, at_elf, at_heap, room)) in
      let at_wpr2 : (placed.wpr2_addr < placed.heap_addr)
          × (placed.heap_addr < placed.wpr2_addr + 256 + 0x100000) =
        rw chain.wpr2_eq w in
      record {
        first = omega (arith, chain.nonwpr_eq, at_boot, at_elf, at_heap, at_wpr2, room, addr_small);
        second = omega (arith, at_wpr2);
        third = at_heap.0;
        fourth = at_elf.0;
        fifth = at_boot.0;
      }

  ordered : Order → is_ordered placed ≡ true
  unfolding is_ordered
  ordered o = ground (arith, frts_kept, o.first, o.second, o.third, o.fourth, o.fifth)

  -- With sizes and an address below 2^62, nv_gsp_fb_layout either returns a layout whose regions stand
  -- one below the other, disjoint, aligned and inside the memory, with the heap that the memory's size
  -- needs; or it returns an error, and then a size is 0, the FRTS region ends behind the memory, or the
  -- regions and 4 MiB for alignment do not fit below it.
  pub fb_layout-IsPlaced :
      ((l : FwLayout) × (fb_layout fb_size frts_addr frts_size boot_size elf_size ≡ ok l)
        × IsPlaced fb_size frts_addr frts_size boot_size elf_size l)
      ⊎ ((e : Error) × (fb_layout fb_size frts_addr frts_size boot_size elf_size ≡ err e)
          × ((frts_size ≡ 0)
              ⊎ (boot_size ≡ 0)
              ⊎ (elf_size ≡ 0)
              ⊎ (fb_size < frts_addr + frts_size)
              ⊎ (frts_addr < boot_size + elf_size + heap_mib fb_size * 0x100000 + 0x400000)))
  unfolding fb_layout
  fb_layout-IsPlaced =
      elim (Bool-cases
        ((fb_size == 0) || (frts_size == 0) || (boot_size == 0) || (elf_size == 0))) [
          | inl none_given ↦ inr (argument, rw none_given refl, ground (arith, none_given))
          | inr given ↦ elim (Bool-cases (ltb fb_size placed.wpr2_end)) [
            | inl beyond ↦ inr (
              bounds,
              rw (given, beyond) refl,
              ground (arith, beyond, chain.end_eq, addr_small, frts_small),
            )
            | inr within ↦ elim (Bool-cases (is_ordered placed)) [
              | inl in_order ↦ inl (
                placed,
                rw (given, within, in_order) refl,
                ordered-IsPlaced (ground (arith, within)) in_order,
              )
              | inr mixed ↦ inr (
                bounds,
                rw (given, within, mixed) refl,
                inr (
                    inr (
                      inr (
                        inr
                          (elim (dec_lt frts_addr
                            (boot_size + elf_size + heap_mib fb_size * 0x100000 + 0x400000)) [
                              | yes short ↦ short
                              | no room ↦ absurd (
                                  ground (
                                    arith,
                                    mixed,
                                    ordered (
                                        roomy-Order (ground (arith, given)) (ground (arith, given))
                                          (omega (arith, room))),
                                  ))
                            ])))),
              )
            ]
          ]
        ]
