-- ===== src/GspExec/Command.antt =====
-- What the GPU reads when the doorbell rings: the copy that was asked for.
use rtxmac_oc.Base.{ℕ, zero, suc, ◌+◌, ◌*◌, ◌%◌, ◌^◌, ◌≡◌, arith}
use rtxmac_oc.Base.{◌≢◌, if◌then◌else◌}
use rtxmac_oc.Base.{bit_and, u32, ◌+32◌, ◌>>>◌, List, [], ◌∷◌, ◌++◌}
use rtxmac_oc.Base.Bits.Mask.{bit_and-low, bit_or-shifted}
use rtxmac_oc.Mmio.{Mmio}
use rtxmac_oc.Gmmu.Pramin.{Bus}
use rtxmac_oc.Gmmu.Window.{Window, word}
use rtxmac_oc.GspFifo.Pushbuffer.{pb_hdr, launch_copy}
use rtxmac_oc.GspFifo.Methods.{Write, methods, register, address}
use rtxmac_oc.GspFifo.Copy.{entry_address, entry_length}
use rtxmac_oc.GspExec.Defs.{GpuContext, payload_of}
use rtxmac_oc.GspExec.Queue.{entry_place}

pub payload_of-eq : (seq : ℕ) → payload_of seq ≡ 0xC0DE0000 + seq % 2 ^ 16
unfolding payload_of
payload_of-eq seq =
    let low : bit_and seq 0xffff ≡ seq % 2 ^ 16 = bit_and-low 16 seq in
    rw low (bit_or-shifted 16 0xC0DE (seq % 2 ^ 16) (omega arith))

-- A copy's payload is not 0, which the semaphore is set to, nor that of the copy before.
pub payload_fresh :
    (seq : ℕ) → (payload_of (seq +32 1) ≢ 0) × (payload_of (seq +32 1) ≢ payload_of seq)
payload_fresh seq =
    rw (payload_of-eq (seq +32 1), payload_of-eq seq)
      (λ h. absurd (omega (arith, h)), λ h. absurd (omega (arith, h)))

module _ (cls src dst bytes sem payload : ℕ) where
  abbrev body : List ℕ
  body =
      pb_hdr 4 0x240 3
      ∷ u32 (bit_and (sem >>> 32) 0x1ffff)
      ∷ u32 (bit_and sem 0xffffffff)
      ∷ payload
      ∷ pb_hdr 4 0x400 4
      ∷ u32 (bit_and (src >>> 32) 0x1ffff)
      ∷ u32 (bit_and src 0xffffffff)
      ∷ u32 (bit_and (dst >>> 32) 0x1ffff)
      ∷ u32 (bit_and dst 0xffffffff)
      ∷ pb_hdr 4 0x418 1
      ∷ bytes
      ∷ pb_hdr 4 0x300 1
      ∷ launch_copy
      ∷ []

module _ (io : Mmio) (w : Window io) where
  -- The words that the hardware fetches.
  unfoldable pub fetch : Bus io.State → ℕ → ℕ → ℕ → List ℕ
  fetch t phys i zero = []
  fetch t phys i (suc n) = word io w t (phys + i * 4) ∷ fetch t phys (i + 1) n

  -- The ring entry in the current slot, as the hardware takes it apart.
  abbrev pub ring_entry : GpuContext → Bus io.State → ℕ × ℕ
  ring_entry gpu t = (word io w t (entry_place io w gpu), word io w t (entry_place io w gpu + 4))

  -- The program of methods behind a ring entry of `n` words.
  abbrev pub program : GpuContext → Bus io.State → ℕ → List ℕ
  program gpu t n = fetch t gpu.pb_phys 0 n

  -- The entry leads to a pushbuffer whose last method is the one launch: a copy that is not pipelined,
  -- between linear layouts, with a flush and then the release of a semaphore of one word. When it
  -- comes, the engine has been told `bytes`, `src`, `dst`, the context's semaphore, which is clear, and
  -- `payload`, and has the class if it was not bound.
  pub record IsCommanded (gpu : GpuContext) (src dst bytes payload : ℕ) (t : Bus io.State)
      : Type 0 where
    pub words : ℕ
    pub address_of : entry_address (ring_entry gpu t) ≡ gpu.pb_va
    pub length_of : entry_length (ring_entry gpu t) ≡ words
    pub before : List Write
    pub launched :
        methods (program gpu t words)
        ≡ before ++ record { subch = 4; mthd = 0x300; value = 0x400018e } ∷ []
    pub once : register 4 0x300 before 0 ≡ 0
    pub source : address 4 0x400 before ≡ src
    pub destination : address 4 0x408 before ≡ dst
    pub semaphore : address 4 0x240 before ≡ gpu.sem_va
    pub length_in : register 4 0x418 before 0 ≡ bytes
    pub released : register 4 0x248 before 0 ≡ payload
    pub class_given : register 4 0 before 0 ≡ (if gpu.object_bound then 0 else gpu.class_engine_id)
    pub cleared : word io w t gpu.sem_phys ≡ 0
    pub put : word io w t (gpu.userd_phys + 0x8c) ≡ (gpu.gp_put + 1) % gpu.ring_entries
