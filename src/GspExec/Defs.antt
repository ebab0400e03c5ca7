-- ===== src/GspExec/Defs.antt =====
-- gsp_exec.c over the platform and the window into VRAM. What is written to the log is left out.
use rtxmac_oc.Base.{ℕ, zero, suc, ◌+◌, ◌*◌, ◌/◌, ◌%◌, ◌^◌, ltb, bit_and, bit_or, bit_xor}
use rtxmac_oc.Base.{Bool, true, false, not, ◌||◌, ◌==◌, if◌then◌else◌, for_each, List, [], ◌∷◌}
use rtxmac_oc.Base.{length, u32, ◌+32◌, ◌+64◌, ◌-64◌, ◌<<<◌}
use rtxmac_oc.Mmio.{Mmio}
use rtxmac_oc.Gmmu.Pramin.{Bus, pramin_rd32, pramin_wr32}
use rtxmac_oc.GspFifo.Pushbuffer.{build_ce_copy, gpfifo_entry}

-- The fields of `nv_gsp_gpu_ctx_t` that gsp_exec.c reads or writes.
pub record GpuContext : Type 0 where
  pub ok : Bool
  pub external_vmm : Bool
  pub pool_selftest_ok : Bool
  pub chid : ℕ
  pub runlist : ℕ
  pub ring_phys : ℕ
  pub ring_entries : ℕ
  pub pb_va : ℕ
  pub pb_phys : ℕ
  pub sem_va : ℕ
  pub sem_phys : ℕ
  pub userd_phys : ℕ
  pub scratch_va : ℕ
  pub scratch_phys : ℕ
  pub scratch_size : ℕ
  pub class_engine_id : ℕ
  pub gp_put : ℕ
  pub seq : ℕ
  pub object_bound : Bool

-- The payload of the `seq`-th copy.
unfoldable pub payload_of : ℕ → ℕ
payload_of seq = bit_or 0xC0DE0000 (bit_and seq 0xffff)

module _ (io : Mmio) where
  -- `for (i = 0; i < nd; i++) nv_pramin_wr32(..., pb_phys + i * 4, pb[i])`, from word `i` on.
  unfoldable pub write_words : ℕ → List ℕ → ℕ → Bus io.State → Bus io.State
  write_words phys [] i b = b
  write_words phys (word ∷ words) i b =
      write_words phys words (i + 1) (pramin_wr32 io (phys +64 i * 4) word b)

  unfoldable pub next_put : GpuContext → ℕ
  next_put gpu = (gpu.gp_put +32 1) % gpu.ring_entries

  -- The semaphore, the pushbuffer, the ring entry in the current slot and GP_PUT.
  unfoldable pub queue_words : GpuContext → List ℕ → Bus io.State → Bus io.State
  queue_words gpu pb b =
      let b1 = pramin_wr32 io gpu.sem_phys 0 b in
      let b2 = write_words gpu.pb_phys pb 0 b1 in
      let slot = gpu.gp_put % gpu.ring_entries in
      let e = gpfifo_entry gpu.pb_va (length pb) in
      let b3 = pramin_wr32 io (gpu.ring_phys +64 u32 (slot * 8)) e.0 b2 in
      let b4 = pramin_wr32 io (gpu.ring_phys +64 u32 (slot * 8) +64 4) e.1 b3 in
      pramin_wr32 io (gpu.userd_phys +64 0x8c) (next_put gpu) b4

  unfoldable pub ring_doorbell : GpuContext → Bus io.State → Bus io.State
  ring_doorbell gpu b = record {
    win_base = b.win_base;
    dev = io.wr 0x00bb0090 (bit_or (u32 (gpu.runlist <<< 16)) gpu.chid) b.dev;
  }

  -- The wait for the semaphore: whether it came.
  unfoldable pub wait_semaphore : ℕ → ℕ → ℕ → Bus io.State → Bool × Bus io.State
  wait_semaphore zero phys payload b = (false, b)
  wait_semaphore (suc ticks) phys payload b =
      let seen = pramin_rd32 io phys b in
      let later : Bus io.State = record {
        win_base = seen.1.win_base;
        dev = io.udelay 20 seen.1.dev;
      } in
      let again = wait_semaphore ticks phys payload later in
      if seen.0 == payload then (true, seen.1) else again

  unfoldable pub ticks_for : ℕ → ℕ
  ticks_for timeout_ms = u32 ((if timeout_ms == 0 then 2000 else timeout_ms) * 50)

  -- The context once the semaphore came, or did not.
  unfoldable pub settled : ℕ → Bool → GpuContext → GpuContext
  settled set_obj true gpu = if set_obj == 0 then gpu else record gpu { object_bound = true }
  settled set_obj false gpu = record gpu { ok = false }

  unfoldable pub started : GpuContext → GpuContext
  started gpu = record gpu { seq = gpu.seq +32 1; gp_put = next_put gpu }

  unfoldable pub class_to_set : GpuContext → ℕ
  class_to_set gpu = if gpu.object_bound then 0 else gpu.class_engine_id

  unfoldable pub copy_words : GpuContext → ℕ → ℕ → ℕ → List ℕ
  copy_words gpu src_va dst_va bytes =
      build_ce_copy (class_to_set gpu) src_va dst_va bytes gpu.sem_va (payload_of (gpu.seq +32 1))

  -- Whether it returns 0, the context and the state after it. The words of a copy are never none.
  unfoldable pub gpu_copy :
      GpuContext → ℕ → ℕ → ℕ → ℕ → Bus io.State → Bool × GpuContext × Bus io.State
  gpu_copy gpu src_va dst_va bytes timeout_ms b =
      let queued = queue_words gpu (copy_words gpu src_va dst_va bytes) b in
      let waited =
        wait_semaphore (ticks_for timeout_ms) gpu.sem_phys (payload_of (gpu.seq +32 1))
          (ring_doorbell gpu queued) in
      if not gpu.ok || (bytes == 0)
      then (false, gpu, b)
      else if gpu.ring_entries == 0
      then (false, gpu, b)
      else (waited.0, settled (class_to_set gpu) waited.0 (started gpu), waited.1)

  -- The words of the source of probe `n`, and zeros at its destination.
  unfoldable pub probe_word : ℕ → ℕ → ℕ
  probe_word n o = bit_xor o 0x7f10abcd +32 n

  unfoldable pub fill_probe : GpuContext → ℕ → ℕ → Bus io.State → Bus io.State
  fill_probe gpu offset n b =
      for_each
        (λ k t.
          pramin_wr32 io (gpu.scratch_phys +64 offset +64 k * 4) 0
            (pramin_wr32 io (gpu.scratch_phys +64 k * 4) (probe_word n (k * 4)) t))
        (65536 / 4) 0 b

  -- The words of the destination that are not those of the source, from word `k` on.
  unfoldable pub mismatches : GpuContext → ℕ → ℕ → ℕ → ℕ → Bus io.State → ℕ × Bus io.State
  mismatches gpu offset n zero k b = (0, b)
  mismatches gpu offset n (suc left) k b =
      let seen = pramin_rd32 io (gpu.scratch_phys +64 offset +64 k * 4) b in
      let rest = mismatches gpu offset n left (k + 1) seen.1 in
      (if seen.0 == probe_word n (k * 4) then rest.0 else rest.0 + 1, rest.1)

  -- One probe: whether the test goes on.
  unfoldable pub probe : GpuContext → ℕ → ℕ → Bus io.State → Bool × GpuContext × Bus io.State
  probe gpu offset n b =
      let copied =
        gpu_copy gpu gpu.scratch_va (gpu.scratch_va +64 offset) 65536 2000
          (fill_probe gpu offset n b) in
      let bad = mismatches gpu offset n (65536 / 4) 0 copied.2 in
      if ltb offset 65536 || ltb (gpu.scratch_size -64 65536) offset
      then (false, gpu, b)
      else if copied.0
      then (bad.0 == 0, copied.1, bad.1)
      else copied

  -- The copy that crosses a boundary of 512 MiB, and the one that ends with the pool.
  unfoldable pub boundary_offset : GpuContext → ℕ
  boundary_offset gpu = (bit_or gpu.scratch_va 0x1fffffff +64 1) -64 gpu.scratch_va -64 65536 / 2

  unfoldable pub gpu_pool_test : GpuContext → Bus io.State → Bool × GpuContext × Bus io.State
  gpu_pool_test gpu b =
      let cleared = record gpu { pool_selftest_ok = false } in
      let first = probe cleared (boundary_offset gpu) 0 b in
      let second = probe first.1 (gpu.scratch_size -64 65536) 1 first.2 in
      if not gpu.ok || not gpu.external_vmm || ltb gpu.scratch_size (2 ^ 30)
      then (false, gpu, b)
      else if not first.0
      then first
      else if not second.0
      then second
      else (true, record (second.1) { pool_selftest_ok = true }, second.2)
