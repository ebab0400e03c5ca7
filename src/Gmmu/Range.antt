-- ===== src/Gmmu/Range.antt =====
-- The tables of a contiguous range: the plan, and the writes that build it.
use rtxmac_oc.Base.{ℕ, ◌-◌, ◌*◌, ◌/◌, ◌^◌, bit_and, bit_or, Bool, true, false}
use rtxmac_oc.Base.{not, ◌&&◌, ◌||◌, ltb, leb, ◌==◌, if◌then◌else◌, for_each, List, [], ◌∷◌, get_or}
use rtxmac_oc.Base.{u32, ◌+64◌, ◌-64◌, ◌<<<◌, ◌>>>◌, Option, none, some, u64}
use rtxmac_oc.Mmio.{Mmio}
use rtxmac_oc.Gmmu.Pramin.{Bus, pramin_wr64}
use rtxmac_oc.Gmmu.Entry.{make_pte_vram, make_pde_vram}
use rtxmac_oc.Gmmu.Branch.{page_bytes, zero_table}

-- `nv_gmmu_range`; the arrays over the five levels are lists.
pub record Range : Type 0 where
  pub va : ℕ
  pub bytes : ℕ
  pub table_phys : ℕ
  pub table_bytes : ℕ
  pub level_phys : List ℕ
  pub level_count : List ℕ

abbrev pub zero_range : Range
zero_range = record {
  va = 0;
  bytes = 0;
  table_phys = 0;
  table_bytes = 0;
  level_phys = 0 ∷ 0 ∷ 0 ∷ 0 ∷ 0 ∷ [];
  level_count = 0 ∷ 0 ∷ 0 ∷ 0 ∷ 0 ∷ [];
}

abbrev pub pramin_phys_end : ℕ
pramin_phys_end = 2 ^ 40

abbrev pub range_shift : List ℕ
range_shift = 49 ∷ 47 ∷ 38 ∷ 29 ∷ 21 ∷ []

abbrev pub range_entries : List ℕ
range_entries = 4 ∷ 512 ∷ 512 ∷ 256 ∷ 512 ∷ []

-- 0, -2 and -1.
pub data Code : Type 0 where
  planned too_small rejected : Code

unfoldable pub is_planned : Code → Bool
is_planned planned = true
is_planned too_small = false
is_planned rejected = false

-- The tables that a level needs for the addresses from `va` to `last`.
unfoldable pub level_tables : ℕ → ℕ → ℕ → ℕ
level_tables va last shift = (last >>> shift) -64 (va >>> shift) +64 1

-- The loop over the levels: `table_bytes`, then the arrays `level_phys` and `level_count`.
unfoldable pub plan_levels : List ℕ → ℕ → ℕ → ℕ → ℕ → ℕ × List ℕ × List ℕ
plan_levels [] va last table_phys table_bytes = (table_bytes, [], [])
plan_levels (shift ∷ shifts) va last table_phys table_bytes =
    let count = level_tables va last shift in
    let rest = plan_levels shifts va last table_phys (table_bytes +64 u64 (count * page_bytes)) in
    (rest.0, (table_phys +64 table_bytes) ∷ rest.1, u32 count ∷ rest.2)

unfoldable pub range_plan : ℕ → ℕ → ℕ → ℕ → Code × Range
range_plan va bytes table_phys capacity =
    if (bytes == 0)
      || not (bit_and (bit_or (bit_or va bytes) table_phys) (page_bytes - 1) == 0)
      || leb (2 ^ 49) va
      || ltb (2 ^ 49 -64 va) bytes
      || ltb pramin_phys_end bytes
      || leb pramin_phys_end table_phys
    then (rejected, zero_range)
    else let levels = plan_levels range_shift va (va +64 bytes -64 1) table_phys 0 in
      if ltb (pramin_phys_end -64 table_phys) levels.0 then (rejected, zero_range) else (
        if ltb capacity levels.0 then too_small else planned,
        record {
          va = va;
          bytes = bytes;
          table_phys = table_phys;
          table_bytes = levels.0;
          level_phys = levels.1;
          level_count = levels.2;
        },
      )

abbrev pub level : List ℕ → ℕ → ℕ
level l i = get_or l i 0

-- Where the PDE of the `n`-th table of level `child` stands in the level above.
unfoldable pub child_entry : Range → ℕ → ℕ → ℕ
child_entry r child n =
    let parent = child - 1 in
    let number = (r.va >>> level range_shift child) +64 n in
    let address = u64 (number <<< level range_shift child) in
    let parent_num =
      (address >>> level range_shift parent) -64 (r.va >>> level range_shift parent) in
    let index = bit_and number (level range_entries parent - 1) in
    let stride = if parent == 3 then 16 else 8 in
    let entry =
      level r.level_phys parent +64 u64 (parent_num * page_bytes) +64 u64 (index * stride) in
    if parent == 3 then entry +64 8 else entry

-- Where the PTE of the page at `offset` stands.
unfoldable pub leaf_entry : Range → ℕ → ℕ
leaf_entry r offset =
    let address = r.va +64 offset in
    let leaf = (address >>> 21) -64 (r.va >>> 21) in
    let index = bit_and (address >>> 12) 511 in
    level r.level_phys 4 +64 u64 (leaf * page_bytes) +64 u64 (index * 8)

-- The arrays of a plan are compared level by level.
unfoldable pub same_levels : List ℕ → List ℕ → Bool
same_levels [] ys = true
same_levels (x ∷ xs) [] = false
same_levels (x ∷ xs) (y ∷ ys) = (x == y) && same_levels xs ys

-- The checks of `nv_gmmu_range_build`, all made before the first write.
unfoldable pub build_allowed : Range → ℕ → Bool
build_allowed r phys =
    let (code, checked) = range_plan r.va r.bytes r.table_phys r.table_bytes in
    is_planned code
    && (r.table_bytes == checked.table_bytes)
    && (bit_and phys (page_bytes - 1) == 0)
    && ltb phys pramin_phys_end
    && leb r.bytes (pramin_phys_end -64 phys)
    && same_levels r.level_phys checked.level_phys
    && same_levels r.level_count checked.level_count
    && not (ltb phys (r.table_phys +64 r.table_bytes) && ltb r.table_phys (phys +64 r.bytes))

module _ (io : Mmio) (r : Range) where
  unfoldable pub clear_tables : Bus io.State → Bus io.State
  clear_tables b =
      for_each (λ k. zero_table io (r.table_phys +64 k * page_bytes) page_bytes)
        (r.table_bytes / page_bytes) 0 b

  unfoldable pub write_children : ℕ → Bus io.State → Bus io.State
  write_children child b =
      for_each
        (λ n.
          pramin_wr64 io (child_entry r child n)
            (make_pde_vram (level r.level_phys child +64 n * page_bytes)))
        (level r.level_count child) 0 b

  unfoldable pub write_leaves : ℕ → Bus io.State → Bus io.State
  write_leaves phys b =
      for_each
        (λ k.
          pramin_wr64 io (leaf_entry r (k * page_bytes))
            (make_pte_vram (phys +64 k * page_bytes) false false))
        (r.bytes / page_bytes) 0 b

  -- `none` is the -1 of a plan that does not check.
  unfoldable pub range_build : ℕ → Bus io.State → Option (Bus io.State)
  range_build phys b =
      if build_allowed r phys
      then some (
          write_leaves phys (
            write_children 4
              (write_children 3 (write_children 2 (write_children 1 (clear_tables b))))))
      else none
