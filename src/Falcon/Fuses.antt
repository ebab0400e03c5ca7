-- ===== src/Falcon/Fuses.antt =====
-- The fuse version that selects a signature.
use rtxmac_oc.Base.{ℕ, zero, suc, ◌+◌, ◌-◌, ◌*◌, ◌/◌, ◌%◌, ◌^◌, ◌≤◌, ◌<◌, ◌≡◌, refl, arith, ◌⊎◌}
use rtxmac_oc.Base.{inl, inr}
use rtxmac_oc.Base.{bit_and, none, ◌==◌, true, false, ltb, ◌||◌, ◌+32◌, ◌-32◌, some, ok, err}
use rtxmac_oc.Base.{Bool-cases}
use native.Mathlib.Nat.{pow-suc, one-le-pow, div-lt_iff_lt-mul}
use native.Mathlib.Decide.{dec_lt, ℕ_discrete}
use rtxmac_oc.Base.Bits.Mask.{bit_and-low}
use rtxmac_oc.Base.Bits.Single.{bit_and-two_pow}
use rtxmac_oc.Mmio.{Mmio}
use rtxmac_oc.Falcon.Run.{bad_state, ◌>>=◌, carry, return, fail, rd}
use rtxmac_oc.Falcon.Defs.{has_bit, highest_bit, fuse_base, signature_fuse_version_ga102}

has_bit-set : (k v : ℕ) → has_bit k v ≡ true → 2 ^ k ≤ v
unfolding has_bit
has_bit-set k v h = elim (dec_lt v (2 ^ k)) [
  | no high ↦ omega arith
  | yes low ↦
      let none_left : v / 2 ^ k ≡ 0 = omega (
        arith,
        (div-lt_iff_lt-mul {k = 2 ^ k} {x = v} {y = 1} (one-le-pow k 2 (omega arith))).1
            (omega (arith, low)),
      ) in
      let product : v / 2 ^ k % 2 * 2 ^ k ≡ 0 = rw none_left (omega arith) in
      absurd (ground (arith, h, bit_and-two_pow k v, product))
]

has_bit-clear : (k v : ℕ) → v < 2 ^ suc k → has_bit k v ≡ false → v < 2 ^ k
unfolding has_bit
has_bit-clear k v small h =
    let pos = one-le-pow k 2 (omega arith) in
    let few : v / 2 ^ k < 2 = (div-lt_iff_lt-mul pos).1 (omega (arith, pow-suc 2 k)) in
    elim (ℕ_discrete (v / 2 ^ k) 1) [
      | no zero_left ↦
          let below = (div-lt_iff_lt-mul {k = 2 ^ k} {x = v} {y = 1} pos).0 (omega arith) in
          omega (arith, below)
      | yes one ↦
          let product : v / 2 ^ k % 2 * 2 ^ k ≡ 2 ^ k = rw one (omega arith) in
          absurd (ground (arith, h, bit_and-two_pow k v, product, pos))
    ]

-- The position of the highest bit that is set, counted from 1, or 0 for no bit.
abbrev pub IsTop : ℕ → ℕ → Type 0
IsTop reg top = (reg < 2 ^ top) × ((top ≡ 0) ⊎ (2 ^ (top - 1) ≤ reg))

highest_bit-IsTop : (b reg : ℕ) → reg < 2 ^ b → IsTop reg (highest_bit b reg)
unfolding highest_bit
highest_bit-IsTop zero reg h = (h, inl refl)
highest_bit-IsTop (suc b) reg h = elim (Bool-cases (has_bit b reg)) [
  | inl e ↦
      let pred' : b + 1 - 1 ≡ b = omega arith in
      rw e (
        let same : b + 1 ≡ suc b = omega arith in (rw same h, inr (rw pred' (has_bit-set b reg e))))
  | inr e ↦ rw e (highest_bit-IsTop b reg (has_bit-clear b reg h e))
]

-- The engine of a mask by its lowest known bit, and the base of its fuse registers.
abbrev pub IsFuseBase : ℕ → ℕ → Type 0
IsFuseBase mask rb =
    ((mask % 2 ≡ 1) × (rb ≡ 0x824140))
    ⊎ ((mask % 2 ≡ 0) × (mask / 4 % 2 ≡ 1) × (rb ≡ 0x824100))
    ⊎ ((mask % 2 ≡ 0) × (mask / 4 % 2 ≡ 0) × (mask / 1024 % 2 ≡ 1) × (rb ≡ 0x8241c0))

-- A mask without bit 0, bit 2 and bit 10.
abbrev pub IsFuseless : ℕ → Type 0
IsFuseless mask = (mask % 2 ≡ 0) × (mask / 4 % 2 ≡ 0) × (mask / 1024 % 2 ≡ 0)

fuse_base-cases :
    (mask : ℕ)
    → ((rb : ℕ) × (fuse_base mask ≡ some rb) × IsFuseBase mask rb)
      ⊎ ((fuse_base mask ≡ none) × IsFuseless mask)
unfolding fuse_base
fuse_base-cases mask =
    let b0 = bit_and-two_pow 0 mask in
    let b2 = bit_and-two_pow 2 mask in
    let b10 = bit_and-two_pow 10 mask in
    elim (Bool-cases (bit_and mask 0x1 == 0)) [
      | inr first ↦ inl (0x824140, rw first refl, inl (ground (arith, first, b0), refl))
      | inl no0 ↦
          let z0 : mask % 2 ≡ 0 = ground (arith, no0, b0) in
          elim (Bool-cases (bit_and mask 0x4 == 0)) [
            | inr second ↦
                inl (
                  0x824100,
                  rw (no0, second) refl,
                  inr (inl (z0, ground (arith, second, b2), refl)),
                )
            | inl no2 ↦
                let z2 : mask / 4 % 2 ≡ 0 = ground (arith, no2, b2) in
                elim (Bool-cases (bit_and mask 0x400 == 0)) [
                  | inr third ↦ inl (
                    0x8241c0,
                    rw (no0, no2, third) refl,
                    inr (inr (z0, z2, ground (arith, third, b10), refl)),
                  )
                  | inl no10 ↦ inr (rw (no0, no2, no10) refl, (z0, z2, ground (arith, no10, b10)))
                ]
          ]
    ]

module _ (io : Mmio) where
  -- For a microcode number from 1 to 16 and an engine that has fuses, the version returned is the
  -- position of the highest bit that is set in the low 16 bits of the fuse register of that number;
  -- for any other number, and for a mask that names none of the three engines with fuses, the call
  -- fails without reading.
  pub fuse_version-IsTop :
      (mask id : ℕ) (s : io.State)
      → (((1 ≤ id) × (id ≤ 16))
          × ((rb : ℕ) × (version : ℕ) × IsFuseBase mask rb
              × (signature_fuse_version_ga102 io mask id s
                  ≡ some (ok version, (io.rd ((rb + (id - 1) * 4) % 2 ^ 32) s).1))
              × IsTop ((io.rd ((rb + (id - 1) * 4) % 2 ^ 32) s).0 % 2 ^ 16) version))
        ⊎ (((id < 1) ⊎ (16 < id) ⊎ IsFuseless mask)
            × (signature_fuse_version_ga102 io mask id s ≡ some (err bad_state, s)))
  unfolding signature_fuse_version_ga102 ◌>>=◌ carry return fail rd
  fuse_version-IsTop mask id s = elim (Bool-cases (ltb id 1 || ltb 16 id)) [
    | inl bad ↦ inr (
      elim (dec_lt id 1) [ yes low ↦ inl low | no high ↦ inr (inl (ground (arith, bad, high))) ],
      rw bad refl,
    )
    | inr good ↦ elim (fuse_base-cases mask) [
      | inr (e, why) ↦ inr (inr (inr why), rw (good, e) refl)
      | inl (rb, e, base) ↦
          let at : rb +32 (id -32 1) * 4 ≡ (rb + (id - 1) * 4) % 2 ^ 32 = ground (arith, good) in
          let v = (io.rd ((rb + (id - 1) * 4) % 2 ^ 32) s).0 in
          inl (
            (ground (arith, good), ground (arith, good)),
            (
              rb,
              highest_bit 16 (v % 2 ^ 16),
              base,
              rw (good, e, at, bit_and-low 16 v) refl,
              highest_bit-IsTop 16 (v % 2 ^ 16) (omega arith),
            ),
          )
    ]
  ]
