-- ===== src/GspMemory/Defs.antt =====
-- The regions that the GSP reports, and `nv_gsp_memory_plan`.
use rtxmac_oc.Base.{ℕ, ◌^◌, bit_and, Bool, true, false, not, ◌&&◌, ◌||◌, ltb, leb, ◌==◌}
use rtxmac_oc.Base.{if◌then◌else◌}
use rtxmac_oc.Base.{
  ◌+64◌, ◌-64◌, List, [], ◌∷◌, ◌++◌, length, Option, none, some, Result, ok, err, ◌>>=◌, ◌>>◌,
  guard,
}
use rtxmac_oc.Vram.Defs.{Error, invalid, no_space, Span, find_range, is_empty}
use rtxmac_oc.Gmmu.Range.{Range, Code, planned, too_small, rejected, is_planned, range_plan}

-- `nv_gsp_fb_region`, the fields that the plan reads.
pub record Region : Type 0 where
  pub base : ℕ
  pub limit : ℕ
  pub reserved : ℕ
  pub prot : ℕ

-- `nv_gsp_memory_layout`.
pub record Layout : Type 0 where
  pub owned : Span
  pub tables : Range
  pub service_phys : ℕ
  pub app_phys : ℕ
  pub app_va : ℕ
  pub app_bytes : ℕ
  pub channel_phys : ℕ

abbrev pub fbregion_max : ℕ
fbregion_max = 16

abbrev pub service_bytes : ℕ
service_bytes = 0x100000

abbrev pub channel_bytes : ℕ
channel_bytes = 0x10000

abbrev pub app_va_base : ℕ
app_va_base = 0x20000000

unfoldable pub is_too_small : Code → Bool
is_too_small planned = false
is_too_small too_small = true
is_too_small rejected = false

-- The loop over the earlier regions: whether one of them meets `r`.
unfoldable pub meets_one : Region → List Region → Bool
meets_one r [] = false
meets_one r (o ∷ rest) = (leb r.base o.limit && leb o.base r.limit) || meets_one r rest

-- The loop over the regions: the free ones as spans, in order.
unfoldable pub free_spans : List Region → List Region → Result Error (List Span)
free_spans before [] = ok []
free_spans before (r ∷ rest) =
    let more = free_spans (before ++ (r ∷ [])) rest in
    if ltb r.limit r.base || leb (2 ^ 40) r.limit || meets_one r before
    then err invalid
    else if not (r.reserved == 0) || not (r.prot == 0)
    then more
    else (more >>= λ l. ok (record { base = r.base; size = r.limit -64 r.base +64 1 } ∷ l))

-- The low 512 MiB, and the span of the platform's console if there is one.
unfoldable pub excluded_spans : Option Span → List Span
excluded_spans none = record { base = 0; size = 0x20000000 } ∷ []
excluded_spans (some extra) =
    if extra.size == 0
    then record { base = 0; size = 0x20000000 } ∷ []
    else record { base = 0; size = 0x20000000 } ∷ extra ∷ []

-- The layout of the bytes found.
unfoldable pub place_layout : ℕ → ℕ → ℕ → Span → Result Error Layout
place_layout app_bytes mapped table_bytes owned =
    let (code, tables) = range_plan app_va_base mapped (owned.base +64 mapped) table_bytes in
    if is_planned code
    then ok (record {
      owned = owned;
      tables = tables;
      service_phys = owned.base;
      app_phys = owned.base +64 service_bytes;
      app_va = app_va_base +64 service_bytes;
      app_bytes = app_bytes;
      channel_phys = tables.table_phys +64 table_bytes;
    })
    else err invalid

unfoldable pub memory_plan : List Region → ℕ → Option Span → Result Error Layout
memory_plan regions app_bytes extra =
    let mapped = service_bytes +64 app_bytes in
    let (code, sized) = range_plan app_va_base mapped 0 0 in
    let total = mapped +64 sized.table_bytes +64 channel_bytes in
    guard
      (ltb 0 (length regions)
        && leb (length regions) fbregion_max
        && leb (2 ^ 30) app_bytes
        && (bit_and app_bytes 0xffff == 0)
        && leb app_bytes (2 ^ 39))
      invalid
    >> guard (is_too_small code) invalid
    >> (free_spans [] regions >>= λ available.
        guard (not (is_empty available)) no_space
        >> (find_range available (excluded_spans extra) total 0x10000 >>= λ owned.
            place_layout app_bytes mapped sized.table_bytes owned))
