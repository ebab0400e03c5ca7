-- ===== src/GspMemory/Tests.antt =====
-- The plan at a card of 8 GiB whose last 256 MiB are reserved, with a console span of 32 MiB.
use rtxmac_oc.Base.{◌^◌, ◌≡◌, refl, arith, List, [], ◌∷◌, some, Option, ◌≢◌, inl}
use rtxmac_oc.Base.{All}
use rtxmac_oc.Vram.Defs.{Span}
use rtxmac_oc.Vram.Places.{IsRange}
use rtxmac_oc.GspMemory.Defs.{Region, memory_plan}
use rtxmac_oc.GspMemory.Regions.{AreRegions, free_of, console_of, kept_clear}
use rtxmac_oc.GspMemory.Plan.{IsPlanned, memory_plan-IsPlanned}

abbrev regions : List Region
regions =
    record { base = 0; limit = 0x1efffffff; reserved = 0; prot = 0 }
    ∷ record { base = 0x1f0000000; limit = 0x1ffffffff; reserved = 0x10000000; prot = 0 }
    ∷ []

regions-AreRegions : AreRegions regions
regions-AreRegions = (
  record { ordered = omega arith; reachable = omega arith },
  (inl (omega arith), tt),
  (record { ordered = omega arith; reachable = omega arith }, tt, tt),
)

free_run : free_of regions ≡ record { base = 0; size = 0x1f0000000 } ∷ []
unfolding free_of
free_run = refl

some_free : free_of regions ≢ []
unfolding free_of
some_free e = cc

abbrev console : Option Span
console = some (record { base = 0x20000000; size = 0x2000000 })

console-IsRange : All IsRange (console_of console)
unfolding console_of
console-IsRange = ((omega arith, omega arith), tt)

memory_plan-IsPlanned_example :
    IsPlanned (2 ^ 30) (free_of regions) (kept_clear console) (memory_plan regions (2 ^ 30) console)
memory_plan-IsPlanned_example =
    memory_plan-IsPlanned regions (2 ^ 30) console (omega arith) (omega arith) (omega arith)
      (omega arith) refl regions-AreRegions some_free console-IsRange
