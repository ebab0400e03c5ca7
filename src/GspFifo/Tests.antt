-- ===== src/GspFifo/Tests.antt =====
-- Two pushbuffers, a ring entry and a table of engines, and the theorems at them.
use rtxmac_oc.Base.{ℕ, ◌≡◌, refl, arith}
use rtxmac_oc.Base.{some, List, [], ◌∷◌}
use rtxmac_oc.GspFifo.Pushbuffer.{build_sem_release, gpfifo_entry, pb_hdr}
use rtxmac_oc.GspFifo.Copy.{entry_address, entry_length, entry-gpfifo_entry}
use rtxmac_oc.GspFifo.Devices.{Engine, find_engine, find_engine_from}

header_run : pb_hdr 4 0x240 3 ≡ 0x20038090
unfolding pb_hdr
header_run = refl

release_run : build_sem_release 0x1_0000_2000 7 ≡ 0x20050017 ∷ 0x2000 ∷ 1 ∷ 7 ∷ 0 ∷ 0x100001 ∷ []
unfolding build_sem_release
release_run = refl

entry-gpfifo_entry_example :
    (entry_address (gpfifo_entry 0x1_0000_1000 15) ≡ 0x1_0000_1000)
    × (entry_length (gpfifo_entry 0x1_0000_1000 15) ≡ 15)
entry-gpfifo_entry_example =
    entry-gpfifo_entry 0x1_0000_1000 15 (omega arith) (omega arith) (omega arith)

abbrev engine : ℕ → ℕ → Engine
engine t r = record { eng_desc = 0; rm_engine_type = t; runlist = r; runlist_pri_base = 0 }

abbrev engines : List Engine
engines = engine 1 0 ∷ engine 9 1 ∷ engine 9 2 ∷ []

engine_run : find_engine engines 9 ≡ some 1
unfolding find_engine find_engine_from
engine_run = refl
