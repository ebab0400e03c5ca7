-- ===== src/GspMemory/Plan.antt =====
-- `nv_gsp_memory_plan`: the search among the free regions and the layout of what it finds.
use rtxmac_oc.Base.{ℕ, ◌+◌, ◌*◌, ◌%◌, ◌^◌, ◌≤◌, ◌<◌, ◌≡◌, ◌≢◌, refl, ◌∙◌, arith, ◌⊎◌, inl, inr, All}
use rtxmac_oc.Base.{ltb, leb, bit_and, ◌+64◌, ◌-64◌, not, ◌||◌, ◌&&◌, ◌==◌, true, false}
use rtxmac_oc.Base.{Bool-cases, List, [], ◌∷◌, ◌++◌, Option}
use rtxmac_oc.Base.{Result, ok, err, Result-cases, length}
use rtxmac_oc.Base.Bits.Mask.{bit_and-low}
use rtxmac_oc.Vram.Defs.{Error, no_space, Span, find_range, is_empty}
use rtxmac_oc.Vram.AlignUp.{IsAlignment}
use rtxmac_oc.Vram.Places.{IsRange}
use rtxmac_oc.Vram.Find.{IsFound, find_range-IsFound}
use rtxmac_oc.Gmmu.Range.{too_small, range_plan}
use rtxmac_oc.Gmmu.Plan.{range_plan-IsPlan}
use rtxmac_oc.GspMemory.Defs.{Region, Layout, free_spans, meets_one, memory_plan, excluded_spans}
use rtxmac_oc.GspMemory.Defs.{is_too_small}
use rtxmac_oc.GspMemory.Regions.{AreRegions, free_of, console_of, kept_clear, excluded_spans-eq}
use rtxmac_oc.GspMemory.Regions.{free_spans-free_of, some-is_empty}
use rtxmac_oc.GspMemory.Layout.{IsLayout, tables_of, tables_few, tables_some, place_layout-IsLayout}

-- A free span is a range below 2^40.
abbrev IsLow : Span → Type 0
IsLow s = IsRange s × (s.base + s.size ≤ 2 ^ 40)

free_spans-IsLow :
    (before regions : List Region) (available : List Span)
    → free_spans before regions ≡ ok available
    → All IsLow available
unfolding free_spans
free_spans-IsLow before [] available e = let same : [] ≡ available = cc in rw (← same) tt
free_spans-IsLow before (r ∷ rest) available e =
    elim (Bool-cases (ltb r.limit r.base || leb (2 ^ 40) r.limit || meets_one r before)) [
      | inl bad ↦ let no = rw bad at e in cc
      | inr good ↦ elim (Bool-cases (not (r.reserved == 0) || not (r.prot == 0))) [
        | inl skip ↦ free_spans-IsLow (before ++ (r ∷ [])) rest available (rw (good, skip) at e)
        | inr take ↦ elim (Result-cases (free_spans (before ++ (r ∷ [])) rest)) [
          | inl (more, m) ↦
              let now = rw (good, take, m) at e in
              let same : (record { base = r.base; size = r.limit -64 r.base +64 1 } ∷ more)
                  ≡ available =
                cc in
              rw (← same) (
                ((ground (arith, good), ground (arith, good)), ground (arith, good)),
                free_spans-IsLow (before ++ (r ∷ [])) rest more m,
              )
          | inr (code, m) ↦ let now = rw (good, take, m) at e in cc
        ]
      ]
    ]

units-IsAlignment : IsAlignment 0x10000
units-IsAlignment = record {
  exponent = 16;
  power = refl;
  page = omega arith;
  word = omega arith;
  narrow = omega arith;
}

found_low :
    (excluded available : List Span) (bytes : ℕ) (owned : Span)
    → All IsLow available
    → IsFound excluded bytes 0x10000 available (ok owned)
    → (owned.base % 2 ^ 16 ≡ 0) × (owned.size ≡ bytes) × (owned.base + owned.size ≤ 2 ^ 40)
found_low excluded [] bytes owned low h = cc
found_low excluded (s ∷ rest) bytes owned low h = elim h [
  | inl (x, at, e) ↦
      let same : owned ≡ record { base = x; size = bytes } = cc in
      rw same (((at.0).place).0, refl, omega (arith, (at.0).inside, (low.0).1))
  | inr (none_here, later) ↦ found_low excluded rest bytes owned low.1 later
]

low-IsRange : (l : List Span) → All IsLow l → All IsRange l
low-IsRange [] h = tt
low-IsRange (s ∷ rest) h = ((h.0).0, low-IsRange rest h.1)

-- The bytes that a plan for an application needs.
abbrev pub needed : ℕ → ℕ
needed app_bytes = 2 ^ 20 + app_bytes + tables_of (2 ^ 20 + app_bytes) * 2 ^ 12 + 2 ^ 16

-- Either no free region has room, or the bytes owned are the lowest place in the first that has, and
-- the layout cuts them up.
pub record IsPlanned (app_bytes : ℕ) (available excluded : List Span) (r : Result Error Layout)
    : Type 0 where
  pub found : Result Error Span
  pub search : IsFound excluded (needed app_bytes) 0x10000 available found
  pub outcome :
      ((found ≡ err no_space) × (r ≡ err no_space))
      ⊎ ((owned : Span) × (p : Layout) × (found ≡ ok owned)
          × (r ≡ ok p)
          × IsLayout app_bytes owned p)

found_cases :
    (excluded available : List Span) (bytes : ℕ) (r : Result Error Span)
    → IsFound excluded bytes 0x10000 available r
    → (r ≡ err no_space) ⊎ ((owned : Span) × (r ≡ ok owned))
found_cases excluded [] bytes r h = inl h
found_cases excluded (s ∷ rest) bytes r h = elim h [
  | inl (x, at, e) ↦ inr (_, e)
  | inr (none_here, later) ↦ found_cases excluded rest bytes r later
]

memory_plan_from :
    (regions : List Region) (app_bytes : ℕ) (extra : Option Span) (available : List Span)
    → 0 < length regions
    → length regions ≤ 16
    → 2 ^ 30 ≤ app_bytes
    → app_bytes ≤ 2 ^ 39
    → app_bytes % 2 ^ 16 ≡ 0
    → free_spans [] regions ≡ ok available
    → is_empty available ≡ false
    → All IsRange (excluded_spans extra)
    → IsPlanned app_bytes available (excluded_spans extra) (memory_plan regions app_bytes extra)
unfolding memory_plan is_too_small
memory_plan_from regions app_bytes extra available some_region few least most paged free some_free
      console =
    let mapped = 2 ^ 20 + app_bytes in
    let tables = tables_few mapped (omega arith) in
    let low = free_spans-IsLow [] regions available free in
    let sized =
      range_plan-IsPlan 0x20000000 mapped 0 0
        (record {
          some_bytes = omega arith;
          va_paged = refl;
          bytes_paged = omega arith;
          table_paged = refl;
          inside = omega arith;
          few_bytes = omega arith;
          reachable = omega arith;
        })
        (omega arith) in
    let more : ltb 0 (tables_of mapped * 2 ^ 12) ≡ true = ground (arith, tables_some mapped) in
    let code : (range_plan 0x20000000 mapped 0 0).0 ≡ too_small = sized.0 ∙ rw more refl in
    let sum : 2 ^ 20 +64 app_bytes ≡ mapped = omega arith in
    let total : mapped +64 tables_of mapped * 2 ^ 12 +64 0x10000 ≡ needed app_bytes = omega arith in
    let accepted : (ltb 0 (length regions)
          && leb (length regions) 16
          && leb (2 ^ 30) app_bytes
          && (bit_and app_bytes 0xffff == 0)
          && leb app_bytes (2 ^ 39))
        ≡ true =
      ground (arith, bit_and-low 16 app_bytes) in
    let r = find_range available (excluded_spans extra) (needed app_bytes) 0x10000 in
    let search =
      find_range-IsFound available (excluded_spans extra) (needed app_bytes) 0x10000 (record {
        some_span = some_free;
        positive = omega arith;
        pages = omega arith;
        aligned = units-IsAlignment;
        ranges = low-IsRange available low;
        excluded_ranges = console;
      }) in
    rw (sum, accepted, code, (sized.1).total, free, some_free, total)
      (record {
        found = r;
        search = search;
        outcome = elim (found_cases (excluded_spans extra) available (needed app_bytes) r search) [
          | inl e ↦ inl (e, rw e refl)
          | inr (owned, e) ↦
              let (at, size, end) =
                found_low (excluded_spans extra) available (needed app_bytes) owned low
                  (rw e at search) in
              let (p, made, laid) = place_layout-IsLayout app_bytes owned paged most at size end in
              inr (owned, p, e, rw (e, made) refl, laid)
        ];
      })

-- For one to sixteen regions below 2^40, of which no two meet and one at least is free, an application
-- of whole units of 64 KiB from 2^30 to 2^39 bytes, and a console span that is a range or empty, the
-- plan either reports no space, when no region that is neither reserved nor protected has room clear
-- of the low 512 MiB and the console, or owns the lowest such place of the first region that has one,
-- with its parts one behind the other.
pub memory_plan-IsPlanned :
    (regions : List Region) (app_bytes : ℕ) (extra : Option Span)
    → 0 < length regions
    → length regions ≤ 16
    → 2 ^ 30 ≤ app_bytes
    → app_bytes ≤ 2 ^ 39
    → app_bytes % 2 ^ 16 ≡ 0
    → AreRegions regions
    → free_of regions ≢ []
    → All IsRange (console_of extra)
    → IsPlanned app_bytes (free_of regions) (kept_clear extra) (memory_plan regions app_bytes extra)
memory_plan-IsPlanned regions app_bytes extra some_region few least most paged apart some_free
      console =
    rw (← excluded_spans-eq extra) (
      memory_plan_from regions app_bytes extra (free_of regions) some_region few least most paged
        (free_spans-free_of regions apart) (some-is_empty (free_of regions) some_free)
        (rw (excluded_spans-eq extra) ((omega arith, omega arith), console)))
