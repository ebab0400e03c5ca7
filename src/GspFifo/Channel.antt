-- ===== src/GspFifo/Channel.antt =====
-- The calls of gsp_fifo.c that allocate, bind and schedule a channel and its engine objects.
use rtxmac_oc.Base.{ℕ, ◌+◌, ◌/◌, ◌%◌, bit_or, Bool, ◌==◌, if◌then◌else◌}
use rtxmac_oc.Base.{none, some, Result, ok, err, ◌<<<◌, u32}
use rtxmac_oc.Bytes.Defs.{Buffer, word32}
use rtxmac_oc.Bytes.Stores.{put8, put32}
use rtxmac_oc.Bytes.Fill.{store64}
use rtxmac_oc.GspRm.Channel.{Gsp, Error}
use rtxmac_oc.GspRm.Object.{
  blank, Scratch, Answer, received, Call, after_call, handle_of, rm_alloc, rm_control,
}
use rtxmac_oc.GspRm.Memory.{status_of}

-- `nv_gsp_chan_cfg`.
pub record ChannelConfig : Type 0 where
  pub h_client : ℕ
  pub h_device : ℕ
  pub h_vaspace : ℕ
  pub chid : ℕ
  pub engine_type : ℕ
  pub gpfifo_va : ℕ
  pub gpfifo_entries : ℕ
  pub inst_phys : ℕ
  pub inst_size : ℕ
  pub userd_phys : ℕ
  pub userd_size : ℕ
  pub ramfc_size : ℕ
  pub mthdbuf_phys : ℕ
  pub mthdbuf_size : ℕ
  pub mthdbuf_sysmem : Bool
  pub priv : Bool

unfoldable pub wr_memdesc : Buffer → ℕ → ℕ → ℕ → ℕ → ℕ → Buffer
wr_memdesc p off base size addrspace cacheattrib =
    let m1 = store64 p off base in
    let m2 = store64 m1 (off + 8) size in
    let m3 = put32 m2 (off + 16) addrspace in put32 m3 (off + 20) cacheattrib

-- The flags word: the fixed page, the index of USERD and its page, and the privilege.
unfoldable pub channel_flags : ℕ → Bool → ℕ
channel_flags chid priv =
    let userd_i = chid % 8 in
    let userd_p = chid / 8 in
    let flags = bit_or (bit_or (1 <<< 21) (userd_i <<< 8)) (u32 (userd_p <<< 12)) in
    if priv then bit_or flags (1 <<< 5) else flags

unfoldable pub channel_params : ChannelConfig → Buffer
channel_params cfg =
    let m1 = store64 (blank 360) 8 cfg.gpfifo_va in
    let m2 = put32 m1 16 cfg.gpfifo_entries in
    let m3 = put32 m2 20 (channel_flags cfg.chid cfg.priv) in
    let m4 = put32 m3 28 cfg.h_vaspace in
    let m5 = put32 m4 128 cfg.engine_type in
    let m6 = wr_memdesc m5 144 cfg.inst_phys cfg.inst_size 2 1 in
    let m7 = wr_memdesc m6 168 cfg.userd_phys cfg.userd_size 2 1 in
    let m8 =
      wr_memdesc m7 192 cfg.inst_phys (if cfg.ramfc_size == 0 then 0x200 else cfg.ramfc_size) 2 1 in
    wr_memdesc m8 216 cfg.mthdbuf_phys cfg.mthdbuf_size (if cfg.mthdbuf_sysmem then 1 else 2)
      (if cfg.mthdbuf_sysmem then 0 else 1)

-- The engine id of the class, and the status.
unfoldable pub class_of : Result Error Answer → Result Error (ℕ × ℕ)
class_of (err e) = err e
class_of (ok answer) = ok (word32 (received answer.params) 4, answer.status)

module _ (gsp : Gsp) (held : Scratch) where
  unfoldable pub rm_channel_alloc : ChannelConfig → Call gsp (ℕ × ℕ)
  rm_channel_alloc cfg ch =
      let h = bit_or 0xf1f00000 cfg.chid in
      after_call gsp (handle_of gsp held h)
        (rm_alloc gsp held cfg.h_client cfg.h_device h 0xc56f (some (channel_params cfg)) 360 ch)

  unfoldable pub rm_channel_bind : ℕ → ℕ → ℕ → Call gsp ℕ
  rm_channel_bind h_client h_channel engine_type ch = after_call gsp status_of (
      rm_control gsp held h_client h_channel 0xa06f0104 (some (put32 (blank 4) 0 engine_type)) 4 ch)

  unfoldable pub rm_channel_schedule : ℕ → ℕ → Bool → Call gsp ℕ
  rm_channel_schedule h_client h_channel enable ch =
      let p = put8 (put8 (blank 2) 0 (if enable then 1 else 0)) 1 0 in
      after_call gsp status_of (rm_control gsp held h_client h_channel 0xa06f0103 (some p) 2 ch)

  unfoldable pub rm_engine_obj_alloc : ℕ → ℕ → ℕ → ℕ → Call gsp ℕ
  rm_engine_obj_alloc h_client h_channel h_object engine_class ch =
      after_call gsp status_of
        (rm_alloc gsp held h_client h_channel h_object engine_class none 0 ch)

  unfoldable pub get_class_engineid : ℕ → ℕ → ℕ → Call gsp (ℕ × ℕ)
  get_class_engineid h_client h_channel h_object ch =
      after_call gsp class_of (
        rm_control gsp held h_client h_channel 0x906f0101 (some (put32 (blank 16) 0 h_object)) 16
          ch)

  unfoldable pub rm_ce_obj_alloc : ℕ → ℕ → ℕ → ℕ → ℕ → Call gsp ℕ
  rm_ce_obj_alloc h_client h_channel h_object engine_class engine_type ch =
      let p = put32 (put32 (blank 8) 0 1) 4 engine_type in
      after_call gsp status_of
        (rm_alloc gsp held h_client h_channel h_object engine_class (some p) 8 ch)
