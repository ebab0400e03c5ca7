-- ===== src/GspRm/Object.antt =====
-- The calls of gsp_rm.c that allocate an object or send it a command, and the objects of the driver.
use rtxmac_oc.Base.{ℕ, ◌+◌, ◌-◌, ltb, ◌==◌, if◌then◌else◌, ◌^◌}
use rtxmac_oc.Base.{Option, none, some, Result, ok, err, bit_or}
use rtxmac_oc.Bytes.Defs.{Buffer, byte, word32}
use rtxmac_oc.Bytes.Stores.{put32}
use rtxmac_oc.Bytes.Fill.{fill, store64}
use rtxmac_oc.GspRpc.Defs.{zero_bytes, copy_payload}
use rtxmac_oc.GspRm.Channel.{Gsp, Channel, Error, bounds, Reply, carry, rpc_call}

-- A local array that has been cleared.
unfoldable pub blank : ℕ → Buffer
blank n = record { len = n; at = λ x. 0 }

-- The static buffers of a call, with what earlier calls have left in them.
pub record Scratch : Type 0 where
  pub req : Buffer
  pub rep : Buffer

-- What a call hands out: the status word and the caller's parameters.
pub record Answer : Type 0 where
  pub status : ℕ
  pub params : Option Buffer

-- The buffer that a reply was copied to.
unfoldable pub received : Option Buffer → Buffer
received none = blank 0
received (some rep) = rep

-- The parameters that the answer carries behind its header, as many as both sides have.
unfoldable pub returned : Buffer → ℕ → Option Buffer → ℕ → ℕ → Option Buffer
returned rep hdr none params_len avail = none
returned rep hdr (some params) params_len avail =
    some (
      fill params 0 (λ i. byte rep (hdr + i)) (if ltb params_len avail then params_len else avail)
        0)

-- What rm_alloc and rm_control do with an answer, by the size of the header and the place of the
-- status in it.
unfoldable pub accept : ℕ → ℕ → Option Buffer → ℕ → Result Error Reply → Result Error Answer
accept hdr status_off params params_len (err e) = err e
accept hdr status_off params params_len (ok reply) =
    let rep = received reply.out in
    if reply.result == 0
    then (if ltb reply.len hdr
        then err bounds
        else ok (record {
          status = word32 rep status_off;
          params = returned rep hdr params params_len (reply.len - hdr);
        }))
    else err bounds

unfoldable pub alloc_request : Buffer → ℕ → ℕ → ℕ → ℕ → Option Buffer → ℕ → Buffer
alloc_request req h_client h_parent h_object h_class params params_len =
    let m0 = zero_bytes req 0 (32 + params_len) in
    let m1 = put32 m0 0 h_client in
    let m2 = put32 m1 4 h_parent in
    let m3 = put32 m2 8 h_object in
    let m4 = put32 m3 12 h_class in
    let m5 = put32 m4 16 0 in
    let m6 = put32 m5 20 params_len in
    let m7 = put32 m6 24 0 in copy_payload m7 32 params params_len

unfoldable pub control_request : Buffer → ℕ → ℕ → ℕ → Option Buffer → ℕ → Buffer
control_request req h_client h_object cmd params params_len =
    let m0 = zero_bytes req 0 (24 + params_len) in
    let m1 = put32 m0 0 h_client in
    let m2 = put32 m1 4 h_object in
    let m3 = put32 m2 8 cmd in
    let m4 = put32 m3 12 0 in
    let m5 = put32 m4 16 params_len in
    let m6 = put32 m5 20 0 in copy_payload m6 24 params params_len

module _ (gsp : Gsp) where
  abbrev pub Call : Type 0 → Type 0
  Call A = Channel gsp.State → Option (Result Error A × Channel gsp.State)

  unfoldable pub after_call :
      {A B : Type 0}
      → (Result Error A → Result Error B)
      → Option (Result Error A × Channel gsp.State)
      → Option (Result Error B × Channel gsp.State)
  after_call f o = carry o λ r. some (f r.0, r.1)

  module _ (held : Scratch) where
    unfoldable pub rm_alloc : ℕ → ℕ → ℕ → ℕ → Option Buffer → ℕ → Call Answer
    rm_alloc h_client h_parent h_object h_class params params_len ch =
        let req = alloc_request held.req h_client h_parent h_object h_class params params_len in
        let len = 32 + params_len in
        if ltb 512 params_len
        then some (err bounds, ch)
        else after_call (accept 32 16 params params_len)
            (rpc_call gsp 103 (some req) len (some held.rep) len 4000000 ch)

    unfoldable pub rm_control : ℕ → ℕ → ℕ → Option Buffer → ℕ → Call Answer
    rm_control h_client h_object cmd params params_len ch =
        let req = control_request held.req h_client h_object cmd params params_len in
        let len = 24 + params_len in
        if ltb 3584 params_len
        then some (err bounds, ch)
        else after_call (accept 24 12 params params_len)
            (rpc_call gsp 76 (some req) len (some held.rep) len 4000000 ch)

    -- A constructor hands out the handle and the status.
    unfoldable pub handle_of : ℕ → Result Error Answer → Result Error (ℕ × ℕ)
    handle_of h (err e) = err e
    handle_of h (ok answer) = ok (h, answer.status)

    unfoldable pub rm_client_ctor : Call (ℕ × ℕ)
    rm_client_ctor ch =
        let h = bit_or 0xc1d00000 0 in
        let p = put32 (put32 (blank 108) 0 h) 4 0xffffffff in
        after_call (handle_of h) (rm_alloc h h h 0 (some p) 108 ch)

    unfoldable pub rm_device_ctor : ℕ → Call (ℕ × ℕ)
    rm_device_ctor h_client ch =
        let p = put32 (blank 56) 4 h_client in
        after_call (handle_of 0xde1d0000)
          (rm_alloc h_client h_client 0xde1d0000 0x80 (some p) 56 ch)

    unfoldable pub rm_subdevice_ctor : ℕ → ℕ → Call (ℕ × ℕ)
    rm_subdevice_ctor h_client h_device ch =
        after_call (handle_of 0x5d1d0000)
          (rm_alloc h_client h_device 0x5d1d0000 0x2080 (some (blank 4)) 4 ch)

    unfoldable pub vaspace_ctor : ℕ → ℕ → ℕ → Call (ℕ × ℕ)
    vaspace_ctor h_client h_device flags ch =
        let p = put32 (put32 (blank 48) 0 0) 4 flags in
        after_call (handle_of 0x90f10000)
          (rm_alloc h_client h_device 0x90f10000 0x90f1 (some p) 48 ch)

    unfoldable pub rm_vaspace_ctor : ℕ → ℕ → Call (ℕ × ℕ)
    rm_vaspace_ctor h_client h_device = vaspace_ctor h_client h_device 0

    unfoldable pub rm_vaspace_external_ctor : ℕ → ℕ → Call (ℕ × ℕ)
    rm_vaspace_external_ctor h_client h_device = vaspace_ctor h_client h_device (2 ^ 3)

    unfoldable pub rm_vmem_ctor : ℕ → ℕ → ℕ → Call (ℕ × ℕ)
    rm_vmem_ctor h_client h_device h_vaspace ch =
        let p = put32 (store64 (store64 (blank 24) 0 0) 8 0) 16 h_vaspace in
        after_call (handle_of 0x00700001)
          (rm_alloc h_client h_device 0x00700001 0x70 (some p) 24 ch)
