-- ===== src/GspRm/Memory.antt =====
-- The calls of gsp_rm.c about memory: what the GSP keeps for itself, page directories, lists of pages
-- and mappings.
use rtxmac_oc.Base.{ℕ, zero, suc, ◌+◌, ◌*◌, ◌^◌, ltb, leb, ◌==◌, ◌||◌, not}
use rtxmac_oc.Base.{none, some, Result, ok, err, bit_and, List, [], ◌∷◌, length, get_or}
use rtxmac_oc.Base.{if◌then◌else◌, ◌+64◌, ◌+32◌, ◌<<<◌, ◌>>>◌, u32}
use rtxmac_oc.Bytes.Defs.{Buffer, byte, word32}
use rtxmac_oc.Bytes.Stores.{put8, put32}
use rtxmac_oc.Bytes.Fill.{store64, load64, fill64}
use rtxmac_oc.GspRpc.Defs.{zero_bytes}
use rtxmac_oc.GspRm.Channel.{Gsp, Error, bad_argument, bounds, Reply, rpc_call}
use rtxmac_oc.GspRm.Object.{blank, Scratch, Answer, received, Call, after_call, rm_control}

-- `nv_gsp_fb_region`.
pub record FbRegion : Type 0 where
  pub base : ℕ
  pub limit : ℕ
  pub reserved : ℕ
  pub performance : ℕ
  pub compressed : ℕ
  pub iso : ℕ
  pub prot : ℕ

-- `nv_gsp_static_info`.
pub record StaticInfo : Type 0 where
  pub regions : List FbRegion
  pub h_client : ℕ
  pub h_device : ℕ
  pub h_subdevice : ℕ
  pub bar1_pde : ℕ
  pub bar2_pde : ℕ

unfoldable pub read_region : Buffer → ℕ → FbRegion
read_region rep rg = record {
  base = load64 rep rg;
  limit = load64 rep (rg + 8);
  reserved = load64 rep (rg + 16);
  performance = word32 rep (rg + 24);
  compressed = byte rep (rg + 28);
  iso = byte rep (rg + 29);
  prot = byte rep (rg + 30);
}

-- The loop over the regions, from region `i` on.
unfoldable pub read_regions : Buffer → ℕ → ℕ → List FbRegion
read_regions rep zero i = []
read_regions rep (suc left) i = read_region rep (840 + 8 + i * 48) ∷ read_regions rep left (i + 1)

unfoldable pub static_info_of : Result Error Reply → Result Error StaticInfo
static_info_of (err e) = err e
static_info_of (ok reply) =
    let rep = received reply.out in
    let n = word32 rep 840 in
    if not (reply.result == 0)
    then err bounds
    else if ltb reply.len 2168
    then err bounds
    else if (n == 0) || ltb 16 n
    then err bounds
    else ok (record {
      regions = read_regions rep n 0;
      h_client = word32 rep 2152;
      h_device = word32 rep 2156;
      h_subdevice = word32 rep 2160;
      bar1_pde = load64 rep 2088;
      bar2_pde = load64 rep 2096;
    })

-- `for (i = 0; i < n; i++) st32(p + 4 + i * 8, indices[i])`.
unfoldable pub put_indices : Buffer → List ℕ → ℕ → Buffer
put_indices p [] i = p
put_indices p (index ∷ indices) i = put_indices (put32 p (4 + i * 8) index) indices (i + 1)

unfoldable pub info_data : Buffer → ℕ → ℕ → List ℕ
info_data p zero i = []
info_data p (suc left) i = word32 p (4 + i * 8 + 4) ∷ info_data p left (i + 1)

-- The status, and the data of the entries asked for.
unfoldable pub info_of : ℕ → Result Error Answer → Result Error (ℕ × List ℕ)
info_of n (err e) = err e
info_of n (ok answer) = ok (answer.status, info_data (received answer.params) n 0)

unfoldable pub status_of : Result Error Answer → Result Error ℕ
status_of (err e) = err e
status_of (ok answer) = ok answer.status

-- The levels of the page directories from the root down, `sizes[i]` and `shifts[i]` in them.
unfoldable pub put_levels : Buffer → List ℕ → ℕ → Buffer
put_levels p [] i = p
put_levels p (phys ∷ pds) i =
    let lv = 40 + i * 24 in
    let m1 = store64 p lv phys in
    let m2 = store64 m1 (lv + 8) (get_or (0x20 ∷ 0x1000 ∷ 0x1000 ∷ []) i 0) in
    let m3 = put32 m2 (lv + 16) 1 in
    put_levels (put8 m3 (lv + 20) (get_or (0x2f ∷ 0x26 ∷ 0x1d ∷ []) i 0)) pds (i + 1)

-- The command that lists the pages of a range of VRAM.
unfoldable pub memlist_request : Buffer → ℕ → ℕ → ℕ → ℕ → ℕ → ℕ → Buffer
memlist_request req h_client h_device phys size pages req_len =
    let m0 = zero_bytes req 0 req_len in
    let m1 = put32 m0 0 h_client in
    let m2 = put32 m1 4 h_device in
    let m3 = put32 m2 8 0x00ca0001 in
    let m4 = put32 m3 12 0x82 in
    let m5 = put32 m4 16 0x40000200 in
    let m6 = put32 m5 20 0 in
    let m7 = put32 m6 24 6 in
    let m8 = store64 m7 32 size in
    let m9 = put32 m8 40 pages in
    let m10 = put32 m9 44 (u32 (bit_and pages 0xffff <<< 16)) in
    fill64 m10 48 (λ i. phys >>> 12 +64 i) pages 0

-- The handle, once the GSP reports no error.
unfoldable pub memlist_of : Result Error Reply → Result Error ℕ
memlist_of (err e) = err e
memlist_of (ok reply) = if reply.result == 0 then ok 0x00ca0001 else err bounds

-- The place that the GSP chose, and the status.
unfoldable pub mapping_of : Result Error Reply → Result Error (ℕ × ℕ)
mapping_of (err e) = err e
mapping_of (ok reply) =
    let rep = received reply.out in
    if not (reply.result == 0)
    then err bounds
    else if ltb reply.len 56
    then err bounds
    else ok (load64 rep 40, word32 rep 48)

module _ (gsp : Gsp) (held : Scratch) where
  unfoldable pub get_static_info : Call gsp StaticInfo
  get_static_info ch =
      after_call gsp static_info_of
        (rpc_call gsp 65 (some (zero_bytes held.req 0 2168)) 2168 (some held.rep) 2168 4000000 ch)

  unfoldable pub fb_get_info : ℕ → ℕ → List ℕ → Call gsp (ℕ × List ℕ)
  fb_get_info h_client h_subdevice indices ch =
      let n = length indices in
      let p = put_indices (put32 (blank 436) 0 n) indices 0 in
      if (n == 0) || ltb 54 n
      then some (err bad_argument, ch)
      else after_call gsp (info_of n)
          (rm_control gsp held h_client h_subdevice 0x20801303 (some p) 436 ch)

  unfoldable pub rm_set_page_directory : ℕ → ℕ → ℕ → ℕ → Call gsp ℕ
  rm_set_page_directory h_client h_device h_vaspace root_phys ch =
      let p = put32 (put32 (store64 (blank 32) 0 root_phys) 8 4) 16 h_vaspace in
      if not (bit_and root_phys 0xfff == 0) || leb (2 ^ 40) root_phys
      then some (err bad_argument, ch)
      else after_call gsp status_of
          (rm_control gsp held h_client h_device 0x00801813 (some p) 32 ch)

  -- `numLevels` is the length of the list of directories.
  unfoldable pub rm_vaspace_copy_pdes : ℕ → ℕ → ℕ → ℕ → ℕ → ℕ → List ℕ → Call gsp ℕ
  rm_vaspace_copy_pdes h_client h_vaspace h_subdevice subdevice_id low high pd_phys ch =
      let levels = length pd_phys in
      let m1 = put32 (blank 184) 0 h_subdevice in
      let m2 = put32 m1 4 subdevice_id in
      let m3 = store64 m2 8 0x20000000 in
      let m4 = store64 m3 16 low in
      let m5 = store64 m4 24 high in
      let m6 = put32 m5 32 levels in
      let p = put_levels m6 pd_phys 0 in
      if ltb levels 2 || ltb 3 levels
      then some (err bad_argument, ch)
      else after_call gsp status_of
          (rm_control gsp held h_client h_vaspace 0x90f10106 (some p) 184 ch)

  unfoldable pub rm_vram_memlist : ℕ → ℕ → ℕ → ℕ → Call gsp ℕ
  rm_vram_memlist h_client h_device phys size ch =
      let pages = u32 (size >>> 12) in
      let req_len = 48 +32 u32 (pages * 8) in
      let req = memlist_request held.req h_client h_device phys size pages req_len in
      if (size == 0) || not (bit_and size 0xfff == 0) || not (bit_and phys 0xfff == 0)
      then some (err bad_argument, ch)
      else if ltb 8192 req_len
      then some (err bounds, ch)
      else after_call gsp memlist_of (rpc_call gsp 4 (some req) req_len none 0 4000000 ch)

  unfoldable pub rm_map_memory_dma : ℕ → ℕ → ℕ → ℕ → ℕ → ℕ → ℕ → ℕ → Call gsp (ℕ × ℕ)
  rm_map_memory_dma h_client h_device h_dma h_memory offset size flags dma_offset ch =
      let m1 = put32 (blank 56) 0 h_client in
      let m2 = put32 m1 4 h_device in
      let m3 = put32 m2 8 h_dma in
      let m4 = put32 m3 12 h_memory in
      let m5 = store64 m4 16 offset in
      let m6 = store64 m5 24 size in
      let m7 = put32 m6 32 flags in
      let req = store64 m7 40 dma_offset in
      if size == 0
      then some (err bad_argument, ch)
      else if ltb (offset +64 size) offset
      then some (err bad_argument, ch)
      else after_call gsp mapping_of (rpc_call gsp 14 (some req) 56 (some held.rep) 56 4000000 ch)
