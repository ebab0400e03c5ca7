-- ===== src/Gmmu/Tests.antt =====
-- The theorems on the page tables applied to a concrete window: VRAM as a function, aimed by a number.
use rtxmac_oc.Base.{◌+◌, ◌*◌, ◌^◌, ◌≤◌, ◌≡◌, refl, arith, inl}
use rtxmac_oc.Base.{ltb, if◌then◌else◌, some}
use rtxmac_oc.Gmmu.Branch.{Tables, map_range, build_1page}
use rtxmac_oc.Gmmu.Range.{range_plan, planned, too_small}
use rtxmac_oc.Gmmu.Card.{card, card_window, bus}
use rtxmac_oc.Gmmu.Content.{IsTables}
use rtxmac_oc.Gmmu.Translate.{IsTranslated, map_range-IsTranslated, build_1page-map_range}
use rtxmac_oc.Gmmu.Plan.{block_bits, IsRequest, IsPlan, all_tables, spanned, range_plan-IsPlan}

abbrev tables : Tables
tables = record {
  pd3_phys = 0x100000;
  pd2_phys = 0x101000;
  pd1_phys = 0x102000;
  pd0_phys = 0x103000;
  spt_phys = 0x1ff000;
}

tables-IsTables : IsTables tables
tables-IsTables = record {
  pd3 = record { aligned = refl; inside = omega arith };
  pd2 = record { aligned = refl; inside = omega arith };
  pd1 = record { aligned = refl; inside = omega arith };
  pd0 = record { aligned = refl; inside = omega arith };
  spt = record { aligned = refl; inside = omega arith };
  pd3-pd2 = λ e. omega arith;
  pd3-pd1 = λ e. omega arith;
  pd3-pd0 = λ e. omega arith;
  pd3-spt = λ e. omega arith;
  pd2-pd1 = λ e. omega arith;
  pd2-pd0 = λ e. omega arith;
  pd2-spt = λ e. omega arith;
  pd1-pd0 = λ e. omega arith;
  pd1-spt = λ e. omega arith;
  pd0-spt = λ e. omega arith;
}

map_range-IsTranslated_example :
    IsTranslated card card_window tables 0x200005000 0x40000000 3 bus
      (map_range card tables 0x200005000 0x40000000 3 bus)
map_range-IsTranslated_example =
    map_range-IsTranslated card card_window tables 0x200005000 0x40000000 3 bus tables-IsTables
      (record {
        va_paged = refl;
        va_small = omega arith;
        fits = omega arith;
        paged = refl;
        small = omega arith;
      })
      (inl refl)

build_1page-map_range_example :
    map_range card tables 0x200005000 0x40000000 1 bus
    ≡ some (build_1page card tables 0x200005000 0x40000000 bus)
build_1page-map_range_example =
    build_1page-map_range card tables 0x200005000 0x40000000 bus (omega arith)

plan-IsRequest : IsRequest 0x1ff000 0x3000 0x100000
plan-IsRequest = record {
  some_bytes = omega arith;
  va_paged = refl;
  bytes_paged = refl;
  table_paged = refl;
  inside = omega arith;
  few_bytes = omega arith;
  reachable = omega arith;
}

plan_fits : 0x100000 + all_tables block_bits 0x1ff000 0x3000 * 2 ^ 12 ≤ 2 ^ 40
unfolding all_tables spanned
plan_fits = omega arith

range_plan-IsPlan_example :
    ((range_plan 0x1ff000 0x3000 0x100000 0x6000).0 ≡ (
      if ltb 0x6000 (all_tables block_bits 0x1ff000 0x3000 * 2 ^ 12) then too_small else planned))
    × IsPlan 0x1ff000 0x3000 0x100000 (range_plan 0x1ff000 0x3000 0x100000 0x6000).1
range_plan-IsPlan_example =
    range_plan-IsPlan 0x1ff000 0x3000 0x100000 0x6000 plan-IsRequest plan_fits

-- The range crosses a 2 MiB boundary: a root, three middle tables and two leaves.
range_plan_run : all_tables block_bits 0x1ff000 0x3000 ≡ 6
unfolding all_tables spanned
range_plan_run = refl
