-- ===== src/GspRpc/Tests.antt =====
-- A command in an empty queue and a region with room, and the theorems at them.
use rtxmac_oc.Base.{ℕ, ◌*◌, ◌≤◌, ◌<◌, ◌≡◌, refl, arith, ◌⊎◌, Option, some, ok, err}
use rtxmac_oc.Bytes.Defs.{Buffer}
use rtxmac_oc.GspRpc.Defs.{bounds, element_size, round_up, rpc_length, element_at, cmdq_write}
use rtxmac_oc.GspRpc.Defs.{shm_init, build_registry, write_entries}
use rtxmac_oc.GspRpc.Message.{pages_for, IsMessage, cmdq_write-IsMessage}
use rtxmac_oc.GspRpc.Shared.{shared_layout, IsShared, shm_init-IsShared}

abbrev queue : Buffer
queue = record { len = 0x40000; at = λ x. 7 }

abbrev payload : Buffer
payload = record { len = 664; at = λ x. x }

size_run : element_size 664 ≡ 4096
unfolding element_size round_up rpc_length
size_run = refl

long_run : element_size 4100 ≡ 8192
unfolding element_size round_up rpc_length
long_run = refl

registry_run : (build_registry queue).0 ≡ 82
unfolding build_registry write_entries
registry_run = refl

abbrev MessageCase : ℕ → Option Buffer → ℕ → Type 0
MessageCase slot source len =
    ((cmdq_write queue slot 5 72 source len).0 ≡ pages_for len)
    × IsMessage queue (element_at slot) (pages_for len * 4096) 5 72 source len
        (cmdq_write queue slot 5 72 source len).1

cmdq_write-IsMessage_example : MessageCase 1 (some payload) 664
cmdq_write-IsMessage_example = cmdq_write-IsMessage queue 1 5 72 (some payload) 664 (omega arith)

abbrev region : Buffer
region = record { len = 0x81000; at = λ x. 0xff }

shm_init-IsShared_example :
    ((region.len < 0x81000) × (shm_init region 0x12340000 ≡ err bounds))
    ⊎ ((0x81000 ≤ region.len)
        × (m : Buffer) × (shm_init region 0x12340000 ≡ ok (m, shared_layout))
        × IsShared region 0x12340000 m)
shm_init-IsShared_example = shm_init-IsShared region 0x12340000
