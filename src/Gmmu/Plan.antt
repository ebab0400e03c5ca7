-- ===== src/Gmmu/Plan.antt =====
-- `nv_gmmu_range_plan` against a count of the tables that a range spans.
use rtxmac_oc.Base.{ℕ, ◌+◌, ◌-◌, ◌*◌, ◌/◌, ◌%◌, ◌^◌, ◌≤◌, ◌<◌, ◌≡◌, ◌∙◌, refl, arith}
use rtxmac_oc.Base.{ltb, leb, not, ◌||◌, ◌==◌, ==_iff, if◌then◌else◌, ◌+64◌, ◌-64◌, u32, u64}
use rtxmac_oc.Base.{bit_or, bit_and}
use rtxmac_oc.Base.{List, [], ◌∷◌, Bool, true, false, ◌↔◌}
use rtxmac_oc.Base.Bits.Mask.{bit_and-low, mod-bit_or}
use rtxmac_oc.Gmmu.Branch.{page_bytes}
use rtxmac_oc.Gmmu.Range.{Range, planned, too_small, range_plan, plan_levels, level_tables}

-- The blocks of 2^shift bytes that the range from `va` meets: each needs one table.
unfoldable pub spanned : ℕ → ℕ → ℕ → ℕ
spanned va bytes shift = (va + bytes - 1) / 2 ^ shift - va / 2 ^ shift + 1

-- The sizes, as powers of two, of the blocks that a table of each level covers, from the root down:
-- a leaf table has 2^9 pages of 2^12 bytes, and the levels above it 2^8, 2^9, 2^9 and 2^2 entries.
abbrev pub block_bits : List ℕ
block_bits = 49 ∷ 47 ∷ 38 ∷ 29 ∷ 21 ∷ []

-- What the plan accepts: whole pages inside the 49-bit space, at most 2^40 bytes of them, and a
-- page for the first table below 2^40.
pub record IsRequest (va bytes table_phys : ℕ) : Type 0 where
  pub some_bytes : 0 < bytes
  pub va_paged : va % 2 ^ 12 ≡ 0
  pub bytes_paged : bytes % 2 ^ 12 ≡ 0
  pub table_paged : table_phys % 2 ^ 12 ≡ 0
  pub inside : va + bytes ≤ 2 ^ 49
  pub few_bytes : bytes ≤ 2 ^ 40
  pub reachable : table_phys < 2 ^ 40

-- The tables of the levels, their numbers, and their places one behind the other.
unfoldable pub all_tables : List ℕ → ℕ → ℕ → ℕ
all_tables [] va bytes = 0
all_tables (shift ∷ shifts) va bytes = spanned va bytes shift + all_tables shifts va bytes

unfoldable pub counts : List ℕ → ℕ → ℕ → List ℕ
counts [] va bytes = []
counts (shift ∷ shifts) va bytes = spanned va bytes shift ∷ counts shifts va bytes

unfoldable pub places : List ℕ → ℕ → ℕ → ℕ → List ℕ
places [] va bytes at = []
places (shift ∷ shifts) va bytes at =
    at ∷ places shifts va bytes (at + spanned va bytes shift * 2 ^ 12)

paged_iff :
    (a b c : ℕ)
    → ((bit_and (bit_or (bit_or a b) c) 0xfff == 0) ≡ true)
      ↔ ((a % 2 ^ 12 ≡ 0) × (b % 2 ^ 12 ≡ 0) × (c % 2 ^ 12 ≡ 0))
paged_iff a b c = (
  λ h.
      let all =
        (mod-bit_or 12 (bit_or a b) c).0
          (omega (arith, (==_iff _ _).0 h, bit_and-low 12 (bit_or (bit_or a b) c))) in
      let two = (mod-bit_or 12 a b).0 all.0 in (two.0, two.1, all.1),
  λ h. (==_iff _ _).1 (
      bit_and-low 12 (bit_or (bit_or a b) c)
      ∙ (mod-bit_or 12 (bit_or a b) c).1 ((mod-bit_or 12 a b).1 (h.0, h.1), h.2)),
)

record IsCounted (va bytes shift : ℕ) : Type 0 where
  exact : level_tables va (va +64 bytes -64 1) shift ≡ spanned va bytes shift
  few : spanned va bytes shift ≤ 2 ^ 28

unfoldable AreCounted : List ℕ → ℕ → ℕ → Type 0
AreCounted [] va bytes = Unit {0}
AreCounted (shift ∷ shifts) va bytes = IsCounted va bytes shift × AreCounted shifts va bytes

blocks_counted : (va bytes : ℕ) → 0 < bytes → va + bytes ≤ 2 ^ 49 → AreCounted block_bits va bytes
unfolding level_tables spanned AreCounted
blocks_counted va bytes h i = (
  record { exact = omega arith; few = omega arith },
  (
    record { exact = omega arith; few = omega arith },
    (
      record { exact = omega arith; few = omega arith },
      (
        record { exact = omega arith; few = omega arith },
        (record { exact = omega arith; few = omega arith }, tt),
      ),
    ),
  ),
)

plan_levels_lem :
    (shifts : List ℕ) (va bytes table_phys table_bytes : ℕ)
    → AreCounted shifts va bytes
    → table_phys + table_bytes + all_tables shifts va bytes * 2 ^ 12 < 2 ^ 64
    → plan_levels shifts va (va +64 bytes -64 1) table_phys table_bytes ≡ (
      table_bytes + all_tables shifts va bytes * 2 ^ 12,
      places shifts va bytes (table_phys + table_bytes),
      counts shifts va bytes,
    )
unfolding plan_levels AreCounted all_tables places counts
plan_levels_lem [] va bytes table_phys table_bytes a h =
    let none_left : table_bytes + 0 ≡ table_bytes = omega arith in rw none_left refl
plan_levels_lem (shift ∷ shifts) va bytes table_phys table_bytes a h =
    let n = spanned va bytes shift in
    let m = all_tables shifts va bytes in
    let here : table_phys +64 table_bytes ≡ table_phys + table_bytes = omega arith in
    let step : table_bytes +64 u64 (n * 4096) ≡ table_bytes + n * 4096 = omega (arith, (a.0).few) in
    let narrow : u32 n ≡ n = omega (arith, (a.0).few) in
    let rest =
      plan_levels_lem shifts va bytes table_phys (table_bytes + n * 4096) a.1 (omega arith) in
    let sum : table_bytes + n * 4096 + m * 4096 ≡ table_bytes + (n + m) * 4096 = omega arith in
    let next : table_phys + (table_bytes + n * 4096) ≡ table_phys + table_bytes + n * 4096 =
      omega arith in
    rw ((a.0).exact, here, step, narrow, rest, sum, next) refl

-- The plan of a request: the counts and places of the five levels, and the bytes of all tables.
pub record IsPlan (va bytes table_phys : ℕ) (r : Range) : Type 0 where
  pub va_same : r.va ≡ va
  pub bytes_same : r.bytes ≡ bytes
  pub table_same : r.table_phys ≡ table_phys
  pub count : r.level_count ≡ counts block_bits va bytes
  pub place : r.level_phys ≡ places block_bits va bytes table_phys
  pub total : r.table_bytes ≡ all_tables block_bits va bytes * 2 ^ 12
  pub one_root : spanned va bytes 49 ≡ 1

unfoldable refuses : ℕ → ℕ → ℕ → Bool
refuses va bytes table_phys =
    (bytes == 0)
    || not (bit_and (bit_or (bit_or va bytes) table_phys) (page_bytes - 1) == 0)
    || leb (2 ^ 49) va
    || ltb (2 ^ 49 -64 va) bytes
    || ltb (2 ^ 40) bytes
    || leb (2 ^ 40) table_phys

one_root_lem : (va bytes : ℕ) → 0 < bytes → va + bytes ≤ 2 ^ 49 → spanned va bytes 49 ≡ 1
unfolding spanned
one_root_lem va bytes h i = omega arith

refuses_request :
    (va bytes table_phys : ℕ) → IsRequest va bytes table_phys → refuses va bytes table_phys ≡ false
unfolding refuses
refuses_request va bytes table_phys q = ground (
  arith,
  (paged_iff va bytes table_phys).1 (q.va_paged, q.bytes_paged, q.table_paged),
  q.some_bytes,
  q.inside,
  q.few_bytes,
  q.reachable,
)

-- A request whose tables fit below 2^40 is planned, or reported as too large for the capacity
-- exactly when its tables are, and in both cases the plan has one root, for every level one table
-- for each block that the range meets, and the levels one behind the other from `table_phys`.
pub range_plan-IsPlan :
    (va bytes table_phys capacity : ℕ)
    → IsRequest va bytes table_phys
    → table_phys + all_tables block_bits va bytes * 2 ^ 12 ≤ 2 ^ 40
    → ((range_plan va bytes table_phys capacity).0
        ≡ (if ltb capacity (all_tables block_bits va bytes * 2 ^ 12) then too_small else planned))
      × IsPlan va bytes table_phys (range_plan va bytes table_phys capacity).1
unfolding range_plan refuses
range_plan-IsPlan va bytes table_phys capacity q h =
    let levels =
      plan_levels_lem block_bits va bytes table_phys 0
        (blocks_counted va bytes q.some_bytes q.inside) (omega arith) in
    let fits : ltb (2 ^ 40 -64 table_phys) (all_tables block_bits va bytes * 2 ^ 12) ≡ false =
      ground (arith, q.reachable) in
    let from_zero : 0 + all_tables block_bits va bytes * 2 ^ 12
        ≡ all_tables block_bits va bytes * 2 ^ 12 =
      omega arith in
    let start : table_phys + 0 ≡ table_phys = omega arith in
    rw (refuses_request va bytes table_phys q, levels, from_zero, start, fits)
      (
        refl,
        record {
          va_same = refl;
          bytes_same = refl;
          table_same = refl;
          count = refl;
          place = refl;
          total = refl;
          one_root = one_root_lem va bytes q.some_bytes q.inside;
        },
      )
