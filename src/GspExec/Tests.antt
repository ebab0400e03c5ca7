-- ===== src/GspExec/Tests.antt =====
-- A copy on a card that is a function, and the theorems at it.
use rtxmac_oc.Base.{ℕ, ◌<◌, ◌≡◌, ◌⊎◌}
use rtxmac_oc.Base.{true, false}
use rtxmac_oc.Gmmu.Card.{card, bus}
use rtxmac_oc.GspExec.Defs.{GpuContext, gpu_copy}
use rtxmac_oc.GspExec.Wait.{IsCopied, gpu_copy-IsCopied}

-- The ring is full up to its last slot.
abbrev gpu : GpuContext
gpu = record {
  ok = true;
  external_vmm = true;
  pool_selftest_ok = false;
  chid = 3;
  runlist = 2;
  ring_phys = 0x200000;
  ring_entries = 512;
  pb_va = 0x1_0000_1000;
  pb_phys = 0x201000;
  sem_va = 0x1_0000_2000;
  sem_phys = 0x202000;
  userd_phys = 0x300000;
  scratch_va = 0x1_0010_0000;
  scratch_phys = 0x40000000;
  scratch_size = 0x40000000;
  class_engine_id = 0xc7b5;
  gp_put = 511;
  seq = 0xffff;
  object_bound = false;
}

abbrev length_copied : ℕ
length_copied = 4096

gpu_copy-IsCopied_example :
    (((gpu.ok ≡ false) ⊎ (length_copied ≡ 0) ⊎ (gpu.ring_entries ≡ 0))
      × (gpu_copy card gpu 0x1_0000_3000 0x1_0000_5000 length_copied 1 bus ≡ (false, gpu, bus)))
    ⊎ ((gpu.ok ≡ true)
        × (0 < length_copied)
        × (0 < gpu.ring_entries)
        × IsCopied card gpu 0x1_0000_3000 0x1_0000_5000 length_copied 1 bus
            (gpu_copy card gpu 0x1_0000_3000 0x1_0000_5000 length_copied 1 bus))
gpu_copy-IsCopied_example =
    gpu_copy-IsCopied card gpu 0x1_0000_3000 0x1_0000_5000 length_copied 1 bus
