-- ===== src/FbLayout/Frts.antt =====
-- The region that `nv_fb_compute_frts` chooses, from the values that the registers show.
use rtxmac_oc.Base.{ℕ, ◌+◌, ◌-◌, ◌*◌, ◌/◌, ◌%◌, ◌^◌, ◌≤◌, ◌<◌, ◌≡◌, refl, arith}
use rtxmac_oc.Base.{ltb, ◌-64◌, ◌==◌, ◌&&◌, if◌then◌else◌, Option, none, some, Bool-cases}
use rtxmac_oc.Base.{◌⊎◌, inl, inr}
use rtxmac_oc.Base.Bits.Align.{bit_and-not64_low}
use rtxmac_oc.Base.Bits.Mask.{bit_and-low}
use rtxmac_oc.Mmio.{Mmio}
use rtxmac_oc.FbLayout.Defs.{
  workspace_start, frts_below, vidmem_size, supports_display, vga_start, compute_frts,
}
use rtxmac_oc.FbLayout.Defs.{usable_fb_size_in_mb, fuse_status_opt_display, vga_workspace_base}

-- Where the VGA workspace starts, by the size in MiB, the display fuse and the workspace register:
-- the register's address, in units of 64 KiB above bit 8, if bit 3 says that it is valid, but the
-- last 128 KiB if it lies below the last MiB; else the last MiB.
unfoldable pub start_of : ℕ → ℕ → ℕ → ℕ
start_of mb fuse r =
    let base = (mb - 1) * 2 ^ 20 in
    let address = r / 2 ^ 8 * 2 ^ 16 in
    if (fuse % 2 == 0) && (r / 2 ^ 3 % 2 == 1)
    then (if ltb address base then mb * 2 ^ 20 - 2 ^ 17 else address)
    else base

-- The highest region of 1 MiB at a multiple of 128 KiB below the workspace, if there is one.
abbrev pub IsFrts : ℕ → Option (ℕ × ℕ) → Type 0
IsFrts start none = start < 2 ^ 20
IsFrts start (some (addr, size)) =
    (size ≡ 2 ^ 20) × (addr % 2 ^ 17 ≡ 0) × (addr + size ≤ start) × (start < addr + size + 2 ^ 17)

frts_below-IsFrts : (start : ℕ) → start < 2 ^ 64 → IsFrts start (frts_below start)
unfolding frts_below
frts_below-IsFrts start h =
    let round = bit_and-not64_low 17 start (omega arith) h in
    elim (Bool-cases (ltb (start - start % 2 ^ 17) (2 ^ 20))) [
      | inl e ↦ rw (round, e) (ground (arith, e))
      | inr e ↦ rw (round, e) (refl, ground (arith, e), ground (arith, e), ground (arith, e))
    ]

workspace_start-eq :
    (mb r : ℕ)
    → 0 < mb
    → mb < 2 ^ 32
    → r < 2 ^ 32
    → workspace_start (mb * 2 ^ 20) ((mb - 1) * 2 ^ 20) r ≡ start_of mb 0 r
unfolding workspace_start start_of
workspace_start-eq mb r h hm hr = ground (arith, bit_and-low 1 (r / 2 ^ 3))

module _ (io : Mmio) (s : io.State) where
  -- The values that the call reads, one after the other.
  abbrev pub size_read : ℕ
  size_read = (io.rd usable_fb_size_in_mb s).0

  abbrev after_size : io.State
  after_size = (io.rd usable_fb_size_in_mb s).1

  abbrev pub fuse_read : ℕ
  fuse_read = (io.rd fuse_status_opt_display after_size).0

  abbrev pub workspace_read : ℕ
  workspace_read = (io.rd vga_workspace_base (io.rd fuse_status_opt_display after_size).1).0

  start-eq :
      0 < size_read
      → size_read < 2 ^ 32
      → workspace_read < 2 ^ 32
      → (vga_start io (size_read * 2 ^ 20) ((size_read - 1) * 2 ^ 20) after_size).0
        ≡ start_of size_read fuse_read workspace_read
  unfolding vga_start supports_display start_of
  start-eq h hm hr = rw (bit_and-low 1 fuse_read) (elim (Bool-cases (fuse_read % 2 == 0)) [
    | inl e ↦ rw e (workspace_start-eq size_read workspace_read h hm hr)
    | inr e ↦ rw e refl
  ])

  start_small :
      size_read < 2 ^ 32
      → workspace_read < 2 ^ 32
      → start_of size_read fuse_read workspace_read < 2 ^ 64
  unfolding start_of
  start_small hm hr = ground arith

  -- With registers of 32 bits, `nv_fb_compute_frts` returns the highest region of 1 MiB at a multiple
  -- of 128 KiB that ends at or below the start of the VGA workspace, and an error exactly when the
  -- memory has no MiB or no such region exists.
  pub compute_frts-IsFrts :
      size_read < 2 ^ 32
      → workspace_read < 2 ^ 32
      → ((size_read ≡ 0) × ((compute_frts io s).0 ≡ none))
        ⊎ ((0 < size_read)
            × IsFrts (start_of size_read fuse_read workspace_read) (compute_frts io s).0)
  unfolding compute_frts vidmem_size
  compute_frts-IsFrts hm hr = elim (Bool-cases (ltb (size_read * 2 ^ 20) (2 ^ 20))) [
    | inl e ↦ inl (ground (arith, e), rw e refl)
    | inr e ↦
        let some_memory : 0 < size_read = ground (arith, e) in
        let base : size_read * 2 ^ 20 -64 2 ^ 20 ≡ (size_read - 1) * 2 ^ 20 =
          omega (arith, some_memory) in
        inr (
          some_memory,
          rw (e, base, start-eq some_memory hm hr)
              (frts_below-IsFrts (start_of size_read fuse_read workspace_read) (start_small hm hr)),
        )
  ]

  -- Unless the workspace register is valid and names an address past the end of the memory, the
  -- region that `nv_fb_compute_frts` returns lies inside the memory; without a display it ends at or
  -- below the last MiB.
  pub compute_frts_inside :
      (addr size : ℕ)
      → size_read < 2 ^ 32
      → workspace_read < 2 ^ 32
      → (compute_frts io s).0 ≡ some (addr, size)
      → (workspace_read / 2 ^ 3 % 2 ≡ 1 → workspace_read / 2 ^ 8 * 2 ^ 16 ≤ size_read * 2 ^ 20)
      → (addr + size ≤ size_read * 2 ^ 20)
        × ((fuse_read % 2 ≡ 0) ⊎ (addr + size + 2 ^ 20 ≤ size_read * 2 ^ 20))
  unfolding start_of
  compute_frts_inside addr size hm hr e inside = elim (rw e at (compute_frts-IsFrts hm hr)) [
    | inl (z, bad) ↦ cc
    | inr (pos, good) ↦ (ground (arith, good.2, inside), ground (arith, good.2))
  ]
