-- ===== src/GspFifo/Copy.antt =====
-- What the hardware makes of the pushbuffers and ring entries.
use rtxmac_oc.Base.{ℕ, ◌+◌, ◌*◌, ◌/◌, ◌%◌, ◌^◌, ◌≤◌, ◌<◌, ◌≡◌, refl, ◌∙◌, arith}
use rtxmac_oc.Base.{inl, inr, ◌==◌, if◌then◌else◌, Bool-cases}
use rtxmac_oc.Base.{bit_and, bit_or, u32, ◌>>>◌, List, [], ◌∷◌, ◌++◌, length}
use rtxmac_oc.Base.Bits.Mask.{bit_and-low, bit_or-shifted, bit_or_comm}
use rtxmac_oc.Base.Bits.{bit_and_step}
use rtxmac_oc.GspFifo.Pushbuffer.{pb_hdr, build_ce_copy, build_sem_release, gpfifo_entry}
use rtxmac_oc.GspFifo.Methods.{Write, execute, methods, register, address}

upper : (v : ℕ) → v < 2 ^ 49 → u32 (bit_and (v >>> 32) 0x1ffff) ≡ v / 2 ^ 32
upper v h = omega (arith, h, bit_and-low 17 (v / 2 ^ 32))

upper8 : (v : ℕ) → v < 2 ^ 40 → u32 (bit_and (v >>> 32) 0xff) ≡ v / 2 ^ 32
upper8 v h = omega (arith, h, bit_and-low 8 (v / 2 ^ 32))

lower : (v : ℕ) → u32 (bit_and v 0xffffffff) ≡ v % 2 ^ 32
lower v = omega (arith, bit_and-low 32 v)

aligned : (v : ℕ) → v % 4 ≡ 0 → u32 (bit_and v 0xfffffffc) ≡ v % 2 ^ 32
aligned v h = omega (
  arith,
  h,
  bit_and_step v 0xfffffffc,
  bit_and_step (v / 2) 0x7ffffffe,
  bit_and-low 30 (v / 2 / 2),
)

abbrev copy_write : ℕ → ℕ → Write
copy_write mthd value = record { subch = 4; mthd = mthd; value = value }

abbrev bound_writes : ℕ → List Write
bound_writes class_engine_id =
    if class_engine_id == 0 then [] else copy_write 0 class_engine_id ∷ []

module _ (class_engine_id src dst bytes sem payload : ℕ) where
  abbrev copy_words : List ℕ
  copy_words = build_ce_copy class_engine_id src dst bytes sem payload

  -- The methods before the launch.
  abbrev pub setup_writes : List Write
  setup_writes =
      bound_writes class_engine_id
      ++ copy_write 0x240 (sem / 2 ^ 32)
        ∷ copy_write 0x244 (sem % 2 ^ 32)
        ∷ copy_write 0x248 payload
        ∷ copy_write 0x400 (src / 2 ^ 32)
        ∷ copy_write 0x404 (src % 2 ^ 32)
        ∷ copy_write 0x408 (dst / 2 ^ 32)
        ∷ copy_write 0x40c (dst % 2 ^ 32)
        ∷ copy_write 0x418 bytes
        ∷ []

  -- For addresses below 2^49, the words that nv_gsp_fifo_build_ce_copy writes are at most 15, and the
  -- hardware reads from them exactly these methods of the copy subchannel, in this order: the class,
  -- unless it is 0, the semaphore's address and payload, the two addresses, the length, and last the
  -- launch.
  pub ce_copy_methods :
      src < 2 ^ 49
      → dst < 2 ^ 49
      → sem < 2 ^ 49
      → (methods copy_words ≡ setup_writes ++ copy_write 0x300 0x400018e ∷ [])
        × (length copy_words ≤ 15)
  unfolding methods execute build_ce_copy pb_hdr
  ce_copy_methods hs hd hm =
      let h = upper src hs in
      let h' = upper dst hd in
      let h'' = upper sem hm in
      elim (Bool-cases (class_engine_id == 0)) [
        | inl e ↦ rw (e, h, h', h'', lower src, lower dst, lower sem) (refl, omega arith)
        | inr e ↦ rw (e, h, h', h'', lower src, lower dst, lower sem) (refl, omega arith)
      ]

  -- When the launch comes, the registers of the engine hold the two addresses, the length, the
  -- semaphore and its payload, whatever a bound class is, and there was no launch before.
  pub setup_registers :
      src < 2 ^ 49
      → dst < 2 ^ 49
      → sem < 2 ^ 49
      → (address 4 0x400 setup_writes ≡ src)
        × (address 4 0x408 setup_writes ≡ dst)
        × (address 4 0x240 setup_writes ≡ sem)
        × (register 4 0x418 setup_writes 0 ≡ bytes)
        × (register 4 0x248 setup_writes 0 ≡ payload)
        × (register 4 0x300 setup_writes 0 ≡ 0)
        × (register 4 0 setup_writes 0 ≡ class_engine_id)
  unfolding register
  setup_registers hs hd hm = elim (Bool-cases (class_engine_id == 0)) [
    | inl e ↦ rw e (
      omega (arith, hs),
      omega (arith, hd),
      omega (arith, hm),
      refl,
      refl,
      refl,
      ground (arith, e),
    )
    | inr e ↦ rw e (omega (arith, hs), omega (arith, hd), omega (arith, hm), refl, refl, refl, refl)
  ]

-- The release of a semaphore: five methods of subchannel 0, the operation last.
pub sem_release_methods :
    (sem payload : ℕ)
    → sem < 2 ^ 40
    → sem % 4 ≡ 0
    → methods (build_sem_release sem payload)
      ≡ record { subch = 0; mthd = 0x5c; value = sem % 2 ^ 32 }
        ∷ record { subch = 0; mthd = 0x60; value = sem / 2 ^ 32 }
        ∷ record { subch = 0; mthd = 0x64; value = payload }
        ∷ record { subch = 0; mthd = 0x68; value = 0 }
        ∷ record { subch = 0; mthd = 0x6c; value = 0x100001 }
        ∷ []
unfolding methods execute build_sem_release
sem_release_methods sem payload h whole = rw (aligned sem whole, upper8 sem h) refl

-- The fields of a ring entry: the address from bit 2 on, in 40 bits, and the length from bit 10 of the
-- upper word on.
abbrev pub entry_address : ℕ × ℕ → ℕ
entry_address e = e.1 % 2 ^ 8 * 2 ^ 32 + e.0 / 4 * 4

abbrev pub entry_length : ℕ × ℕ → ℕ
entry_length e = e.1 / 2 ^ 10 % 2 ^ 21

pub gpfifo_entry-eq :
    (pb_va pb_dwords : ℕ)
    → pb_va < 2 ^ 40
    → pb_va % 4 ≡ 0
    → pb_dwords < 2 ^ 21
    → gpfifo_entry pb_va pb_dwords ≡ (pb_va % 2 ^ 32, pb_dwords * 2 ^ 10 + pb_va / 2 ^ 32)
unfolding gpfifo_entry
gpfifo_entry-eq pb_va pb_dwords h whole few =
    let len : bit_and pb_dwords 0x1fffff ≡ pb_dwords =
      bit_and-low 21 pb_dwords ∙ omega (arith, few) in
    let above : bit_or (pb_va / 2 ^ 32) (pb_dwords * 2 ^ 10) ≡ pb_dwords * 2 ^ 10 + pb_va / 2 ^ 32 =
      bit_or_comm (pb_va / 2 ^ 32) (pb_dwords * 2 ^ 10)
      ∙ bit_or-shifted 10 pb_dwords (pb_va / 2 ^ 32) (omega (arith, h)) in
    rw (aligned pb_va whole, upper8 pb_va h, len, above) refl

-- A pushbuffer at a multiple of 4 below 2^40 with fewer than 2^21 words is read back from its entry.
pub entry-gpfifo_entry :
    (pb_va pb_dwords : ℕ)
    → pb_va < 2 ^ 40
    → pb_va % 4 ≡ 0
    → pb_dwords < 2 ^ 21
    → (entry_address (gpfifo_entry pb_va pb_dwords) ≡ pb_va)
      × (entry_length (gpfifo_entry pb_va pb_dwords) ≡ pb_dwords)
entry-gpfifo_entry pb_va pb_dwords h whole few =
    rw (gpfifo_entry-eq pb_va pb_dwords h whole few)
      (omega (arith, h, whole), omega (arith, h, few))
