-- ===== src/GspMemory/Layout.antt =====
-- A plan of gsp_memory.c that succeeds cuts the bytes it owns into parts that follow one another.
use rtxmac_oc.Base.{ℕ, ◌+◌, ◌*◌, ◌%◌, ◌^◌, ◌≤◌, ◌<◌, ◌≡◌, refl, ◌∙◌, arith}
use rtxmac_oc.Base.{ltb, ◌+64◌, false}
use rtxmac_oc.Base.{ok}
use rtxmac_oc.Vram.Defs.{Span}
use rtxmac_oc.Gmmu.Range.{planned, is_planned, range_plan}
use rtxmac_oc.Gmmu.Plan.{block_bits, spanned, all_tables, IsPlan, range_plan-IsPlan}
use rtxmac_oc.GspMemory.Defs.{Layout, place_layout}

-- The tables of a mapping at the base of the applications' addresses.
abbrev pub tables_of : ℕ → ℕ
tables_of mapped = all_tables block_bits 0x20000000 mapped

pub tables_few : (mapped : ℕ) → mapped ≤ 2 ^ 39 + 2 ^ 20 → tables_of mapped ≤ 2 ^ 19
unfolding all_tables spanned
tables_few mapped h = omega arith

pub tables_some : (mapped : ℕ) → 0 < tables_of mapped
unfolding all_tables spanned
tables_some mapped = omega arith

-- The parts, each where the one before it ends: the service bytes, the application's, the page
-- tables, the channel's, up to the end of the bytes owned; and the tables are those of the mapping.
pub record IsLayout (app_bytes : ℕ) (owned : Span) (p : Layout) : Type 0 where
  pub same : p.owned ≡ owned
  pub service : p.service_phys ≡ owned.base
  pub app : p.app_phys ≡ p.service_phys + 2 ^ 20
  pub tables_at : p.tables.table_phys ≡ p.app_phys + app_bytes
  pub channel : p.channel_phys ≡ p.tables.table_phys + p.tables.table_bytes
  pub end : p.channel_phys + 2 ^ 16 ≡ owned.base + owned.size
  pub plan : IsPlan 0x20000000 (2 ^ 20 + app_bytes) p.tables.table_phys p.tables
  pub virtual : (p.app_va ≡ 0x20000000 + 2 ^ 20) × (p.app_bytes ≡ app_bytes)

-- For whole units of 64 KiB, at least one and at most 2^39 bytes, and owned bytes of exactly the size
-- that the parts need, at a multiple of 64 KiB and below 2^40, the layout is made, its parts follow
-- one another from the start of the owned bytes to their end, and its tables are a plan for the
-- service and application bytes.
pub place_layout-IsLayout :
    (app_bytes : ℕ) (owned : Span)
    → app_bytes % 2 ^ 16 ≡ 0
    → app_bytes ≤ 2 ^ 39
    → owned.base % 2 ^ 16 ≡ 0
    → owned.size ≡ 2 ^ 20 + app_bytes + tables_of (2 ^ 20 + app_bytes) * 2 ^ 12 + 2 ^ 16
    → owned.base + owned.size ≤ 2 ^ 40
    → (p : Layout) × (place_layout app_bytes
          (2 ^ 20 + app_bytes)
          (tables_of (2 ^ 20 + app_bytes) * 2 ^ 12)
          owned
        ≡ ok p)
      × IsLayout app_bytes owned p
unfolding place_layout is_planned
place_layout-IsLayout app_bytes owned paged most at size end =
    let mapped = 2 ^ 20 + app_bytes in
    let few = tables_few mapped (omega arith) in
    let start = owned.base + mapped in
    let table_bytes = tables_of mapped * 2 ^ 12 in
    let plan =
      range_plan-IsPlan 0x20000000 mapped start table_bytes
        (record {
          some_bytes = omega arith;
          va_paged = refl;
          bytes_paged = omega arith;
          table_paged = omega arith;
          inside = omega arith;
          few_bytes = omega arith;
          reachable = omega arith;
        })
        (omega arith) in
    let same_start : owned.base +64 mapped ≡ start = omega arith in
    let enough : ltb table_bytes table_bytes ≡ false = ground arith in
    let code : (range_plan 0x20000000 mapped start table_bytes).0 ≡ planned =
      plan.0 ∙ rw enough refl in
    let tables = (range_plan 0x20000000 mapped start table_bytes).1 in
    let at_tables : tables.table_phys ≡ start = (plan.1).table_same in
    (
      record {
        owned = owned;
        tables = tables;
        service_phys = owned.base;
        app_phys = owned.base +64 2 ^ 20;
        app_va = 0x20000000 + 2 ^ 20;
        app_bytes = app_bytes;
        channel_phys = tables.table_phys +64 table_bytes;
      },
      rw (same_start, code) refl,
      record {
        same = refl;
        service = refl;
        app = omega arith;
        tables_at = omega (arith, at_tables);
        channel = omega (arith, at_tables, (plan.1).total);
        end = omega (arith, at_tables);
        plan = rw at_tables plan.1;
        virtual = (refl, refl);
      },
    )
