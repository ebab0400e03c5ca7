-- ===== src/GspRpc/Defs.antt =====
-- The shared memory, the arguments and the commands of gsp_rpc.c. Memory is a buffer, and the writes
-- are not checked against its length: the theorems say which bytes a function changes.
use rtxmac_oc.Base.{ℕ, zero, suc, ◌+◌, ◌-◌, ◌*◌, ◌/◌, ◌^◌, bit_and, bit_xor, ltb, if◌then◌else◌}
use rtxmac_oc.Base.{Option, none, some}
use rtxmac_oc.Base.{◌+32◌, ◌+64◌, ◌>>>◌, u32, not64, Result, ok, err, List, [], ◌∷◌, length}
use rtxmac_oc.Bytes.Defs.{Buffer, byte, word32}
use rtxmac_oc.Bytes.Stores.{put8, put32}
use rtxmac_oc.Bytes.Fill.{fill, store64, load64, fill64}

-- NV_GSP_RPC_ERR_BOUNDS.
pub data Error : Type 0 where
  bounds : Error

abbrev pub page : ℕ
page = 0x1000

abbrev pub queue_size : ℕ
queue_size = 0x40000

abbrev pub entry_off : ℕ
entry_off = 0x1000

abbrev pub msg_size : ℕ
msg_size = 0x1000

-- `nv_gsp_shm_layout_t`.
pub record ShmLayout : Type 0 where
  pub ptes_nr : ℕ
  pub ptes_size : ℕ
  pub cmdq_off : ℕ
  pub msgq_off : ℕ
  pub total_size : ℕ
  pub msg_count : ℕ

unfoldable pub zero_bytes : Buffer → ℕ → ℕ → Buffer
zero_bytes m off n = fill m off (λ i. 0) n 0

unfoldable pub shm_compute : ShmLayout
shm_compute =
    let queues = (queue_size + queue_size) / page in
    let nr = queues +32 u32 ((queues * 8 + page - 1) / page) in
    let ptes_size = bit_and (nr * 8 + page - 1) (not64 (page - 1)) in
    record {
      ptes_nr = nr;
      ptes_size = ptes_size;
      cmdq_off = ptes_size;
      msgq_off = ptes_size +64 queue_size;
      total_size = ptes_size +64 queue_size * 2;
      msg_count = (queue_size - entry_off) / msg_size;
    }

unfoldable pub init_queue_hdr : Buffer → ℕ → ℕ → Buffer
init_queue_hdr m q msg_count =
    let m0 = put32 m q 0 in
    let m1 = put32 m0 (q + 4) queue_size in
    let m2 = put32 m1 (q + 8) msg_size in
    let m3 = put32 m2 (q + 12) msg_count in
    let m4 = put32 m3 (q + 16) 0 in
    let m5 = put32 m4 (q + 20) 1 in
    let m6 = put32 m5 (q + 24) 32 in let m7 = put32 m6 (q + 28) entry_off in put32 m7 (q + 32) 0

unfoldable pub shm_init : Buffer → ℕ → Result Error (Buffer × ShmLayout)
shm_init buf dma_base =
    let lay = shm_compute in
    if ltb buf.len lay.total_size
    then err bounds
    else let m0 = zero_bytes buf 0 lay.total_size in
      let m1 = fill64 m0 0 (λ i. dma_base +64 i * page) lay.ptes_nr 0 in
      let m2 = init_queue_hdr m1 lay.cmdq_off lay.msg_count in
      ok (init_queue_hdr m2 lay.msgq_off lay.msg_count, lay)

unfoldable pub rmargs_build : Buffer → ℕ → ShmLayout → Result Error Buffer
rmargs_build buf shm_dma lay =
    if ltb buf.len 80
    then err bounds
    else let m0 = zero_bytes buf 0 80 in
      let m1 = store64 m0 0 shm_dma in
      let m2 = put32 m1 8 lay.ptes_nr in
      let m3 = store64 m2 16 lay.cmdq_off in ok (store64 m3 24 lay.msgq_off)

unfoldable pub msgq_writeptr : Buffer → ShmLayout → ℕ
msgq_writeptr shm lay = word32 shm (lay.msgq_off + 16)

unfoldable pub build_sysinfo : Buffer → ℕ → ℕ → ℕ → ℕ → Buffer
build_sysinfo buf bar0 bar1 bar3 bdf =
    let m0 = zero_bytes buf 0 664 in
    let m1 = store64 m0 0 bar0 in
    let m2 = store64 m1 8 bar1 in
    let m3 = store64 m2 16 bar3 in
    let m4 = store64 m3 24 bdf in
    let m5 = store64 m4 56 0x00007ffffffff000 in
    let m6 = put32 m5 64 0x088000 in put32 m6 68 0x001000

-- `cstrcpy`, of a string as the list of its characters; it also returns their number and one more.
unfoldable pub copy_string : Buffer → ℕ → List ℕ → Buffer
copy_string m p [] = put8 m p 0
copy_string m p (c ∷ cs) = copy_string (put8 m p c) (p + 1) cs

abbrev pub registry_names : List (List ℕ)
registry_names =
    (b'R' ∷ b'M' ∷ b'S' ∷ b'e' ∷ b'c' ∷ b'B' ∷ b'u' ∷ b's' ∷ b'R' ∷ b'e' ∷ b's' ∷ b'e' ∷ b't' ∷ b'E'
      ∷ b'n' ∷ b'a' ∷ b'b' ∷ b'l' ∷ b'e' ∷ [])
    ∷ (b'R' ∷ b'M' ∷ b'F' ∷ b'o' ∷ b'r' ∷ b'c' ∷ b'e' ∷ b'P' ∷ b'c' ∷ b'i' ∷ b'e' ∷ b'C' ∷ b'o'
        ∷ b'n' ∷ b'f' ∷ b'i' ∷ b'g' ∷ b'S' ∷ b'a' ∷ b'v' ∷ b'e' ∷ [])
    ∷ []

-- The loop over the names, with the entry at `e` and the next string at `so`.
unfoldable pub write_entries : Buffer → List (List ℕ) → ℕ → ℕ → ℕ × Buffer
write_entries m [] e so = (so, m)
write_entries m (name ∷ names) e so =
    let m0 = put32 m e so in
    let m1 = put8 m0 (e + 4) 1 in
    let m2 = put32 m1 (e + 8) 1 in
    let m3 = put32 m2 (e + 12) 4 in
    write_entries (copy_string m3 so name) names (e + 16) (so + (length name + 1))

-- The length of the payload, and the buffer.
unfoldable pub build_registry : Buffer → ℕ × Buffer
build_registry buf =
    let str_off = 8 + 2 * 16 in
    if ltb buf.len (str_off + 64)
    then (0, buf)
    else let m0 = zero_bytes buf 0 str_off in
      let m1 = put32 m0 0 8 in let m2 = put32 m1 4 2 in write_entries m2 registry_names 8 str_off

-- `for (o = 0; o < total; o += 8) csum ^= ld64(e + o)`, from word `i` on.
unfoldable pub sum_words : Buffer → ℕ → ℕ → ℕ → ℕ → ℕ
sum_words m e zero i csum = csum
sum_words m e (suc left) i csum = sum_words m e left (i + 1) (bit_xor csum (load64 m (e + i * 8)))

-- The upper and the lower half together.
unfoldable pub fold_sum : ℕ → ℕ
fold_sum csum = bit_xor (u32 (csum >>> 32)) (u32 csum)

unfoldable pub rpc_length : ℕ → ℕ
rpc_length payload_len = 32 +32 payload_len

-- `(v + (a - 1)) & ~(a - 1)` in 32 bits.
unfoldable pub round_up : ℕ → ℕ → ℕ
round_up v a = bit_and (v +32 (a - 1)) (2 ^ 32 - 1 - (a - 1))

-- The size of an element, in whole pages.
unfoldable pub element_size : ℕ → ℕ
element_size payload_len = round_up (48 +32 round_up (rpc_length payload_len) 8) page

unfoldable pub element_at : ℕ → ℕ
element_at slot = entry_off + slot * msg_size

unfoldable pub copy_payload : Buffer → ℕ → Option Buffer → ℕ → Buffer
copy_payload m p none n = m
copy_payload m p (some payload) n = fill m p (byte payload) n 0

-- The element before its checksum.
unfoldable pub write_element : Buffer → ℕ → ℕ → ℕ → ℕ → Option Buffer → ℕ → Buffer
write_element cmdq e total seq function payload payload_len =
    let m0 = zero_bytes cmdq e total in
    let m1 = put32 m0 (e + 36) seq in
    let m2 = put32 m1 (e + 40) (total / page) in
    let m3 = put32 m2 (e + 48) 0x03000000 in
    let m4 = put32 m3 (e + 52) 0x43505256 in
    let m5 = put32 m4 (e + 56) (rpc_length payload_len) in
    let m6 = put32 m5 (e + 60) function in
    let m7 = put32 m6 (e + 64) 0xffffffff in
    let m8 = put32 m7 (e + 68) 0xffffffff in copy_payload m8 (e + 80) payload payload_len

-- The number of slots taken, and the queue.
unfoldable pub cmdq_write : Buffer → ℕ → ℕ → ℕ → Option Buffer → ℕ → ℕ × Buffer
cmdq_write cmdq slot seq function payload payload_len =
    let total = element_size payload_len in
    let e = element_at slot in
    let m = write_element cmdq e total seq function payload payload_len in
    let csum = sum_words m e ((total + 7) / 8) 0 0 in
    (total / page, put32 m (e + 32) (fold_sum csum))

unfoldable pub cmdq_set_writeptr : Buffer → ShmLayout → ℕ → Buffer
cmdq_set_writeptr shm lay wptr = put32 shm (lay.cmdq_off + 16) wptr
