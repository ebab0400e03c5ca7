-- ===== src/GspDisp/Window.antt =====
-- The set-up of the core channel, the image of a window, and the descriptors that the display's memory
-- holds for them.
use rtxmac_oc.Base.{ℕ, zero, suc, ◌+◌, ◌*◌, ◌%◌, Bool, ◌==◌}
use rtxmac_oc.Base.{if◌then◌else◌, bit_and, bit_or, bit_xor, ◌<<<◌, ◌>>>◌, u32, ◌+32◌}
use rtxmac_oc.Base.{List, [], ◌∷◌, ◌++◌, Option, none, some}
use rtxmac_oc.Bytes.Defs.{Buffer}
use rtxmac_oc.Bytes.Stores.{put32}
use rtxmac_oc.GspRpc.Defs.{zero_bytes}
use rtxmac_oc.GspDisp.Methods.{push_methods, both}

-- The formats and bounds of window `i`, and its owner.
unfoldable pub window_bounds : ℕ → List (ℕ × ℕ)
window_bounds i =
    (0x1004 +32 u32 (i * 0x80), 0x1f)
    ∷ (0x1008 +32 u32 (i * 0x80), 0)
    ∷ (0x1010 +32 u32 (i * 0x80), bit_or (bit_or 0x7fff (2 <<< 16)) (1 <<< 20))
    ∷ []

unfoldable pub windows_bounds : ℕ → ℕ → List (ℕ × ℕ)
windows_bounds zero i = []
windows_bounds (suc left) i = window_bounds i ++ windows_bounds left (i + 1)

unfoldable pub window_owners : ℕ → ℕ → List (ℕ × ℕ)
window_owners zero i = []
window_owners (suc left) i = (0x1000 +32 u32 (i * 0x80), i >>> 1) ∷ window_owners left (i + 1)

unfoldable pub build_core_init : ℕ → List ℕ
build_core_init notifier_handle =
    push_methods ((0x208, notifier_handle) ∷ windows_bounds 8 0 ++ window_owners 8 0)

unfoldable pub build_window_image : ℕ → ℕ → ℕ → ℕ → ℕ → ℕ → List ℕ
build_window_image format w h pitch fb_off iso_handle =
    let size = both (bit_and w 0x7fff) (bit_and h 0x7fff) in
    push_methods (
      (0x308, 0)
      ∷ (0x224, both (bit_and w 0xffff) (bit_and h 0xffff))
      ∷ (0x228, 0)
      ∷ (0x22c, bit_and format 0xff)
      ∷ (0x230, bit_and (pitch >>> 6) 0x1fff)
      ∷ (0x240, iso_handle)
      ∷ (0x260, u32 (fb_off >>> 8))
      ∷ (0x290, 0)
      ∷ (0x298, size)
      ∷ (0x2a4, size)
      ∷ (0x2ec, 255 <<< 4)
      ∷ (0x2f0, 0xff)
      ∷ (0x2f4, bit_or (bit_or (bit_or 2 (2 <<< 4)) (4 <<< 8)) (4 <<< 12))
      ∷ [])

unfoldable pub build_window_update : Bool → List ℕ
build_window_update interlock_with_core =
    push_methods
      ((0x370, if interlock_with_core then 1 <<< 0 else 0) ∷ (0x374, 0) ∷ (0x200, 1) ∷ [])

unfoldable pub build_ctxdma_desc : Buffer → ℕ → ℕ → ℕ → Buffer
build_ctxdma_desc desc start limit target =
    let m0 = zero_bytes desc 0 24 in
    let s = start >>> 8 in
    let l = limit >>> 8 in
    let flags = bit_or (bit_and target 0x3) 0x4 in
    let flags0 = if bit_and target 0x3 == 1 then bit_or flags 0x40 else flags in
    let m1 = put32 m0 0 flags0 in
    let m2 = put32 m1 4 (u32 (bit_and s 0xffffffff)) in
    let m3 = put32 m2 8 (u32 (s >>> 32)) in
    let m4 = put32 m3 12 (u32 (bit_and l 0xffffffff)) in put32 m4 16 (u32 (l >>> 32))

-- `while (handle) { hash ^= handle & mask; handle >>= bits; }`; `none` is a loop that still runs.
unfoldable pub hash_loop : ℕ → ℕ → ℕ → Option ℕ
hash_loop zero handle hash = none
hash_loop (suc rounds) handle hash =
    let rest = hash_loop rounds (handle >>> 10) (bit_xor hash (bit_and handle 0x3ff)) in
    if handle == 0 then some hash else rest

-- A handle of 32 bits has four digits of ten bits.
unfoldable pub ramht_hash : ℕ → ℕ → Option ℕ
ramht_hash chid handle = elim (hash_loop 5 handle 0) [
  | none ↦ none
  | some hash ↦ some (bit_xor hash (u32 (chid <<< 6)) % 1024)
]

-- The slot and the context word.
unfoldable pub ramht_entry : ℕ → ℕ → ℕ → ℕ → Option ℕ × ℕ
ramht_entry chid handle client inst_offset = (
  ramht_hash chid handle,
  bit_or (bit_or (u32 (chid <<< 25)) (bit_and client 0x3fff)) (u32 (inst_offset <<< 9)),
)
