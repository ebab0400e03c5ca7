-- ===== src/GspRm/Tests.antt =====
-- A GSP that answers at the doorbell, and the theorems at it.
use rtxmac_oc.Base.{ℕ, ◌+◌, ◌-◌, ◌*◌, ◌/◌, ◌%◌, ◌≤◌, ◌<◌, ◌≡◌, refl, sym, ap, ◌∙◌, arith}
use rtxmac_oc.Base.{◌≢◌, ◌⊎◌, inl, inr}
use rtxmac_oc.Base.{none, some, Result, ok, err, [], ◌∷◌}
use rtxmac_oc.Bytes.Defs.{Buffer, word32, join32}
use rtxmac_oc.Bytes.Stores.{put8, put32, word32-put32, word32-put32_apart}
use rtxmac_oc.GspRpc.Defs.{msgq_writeptr, element_at}
use rtxmac_oc.GspRpc.Shared.{shared_layout}
use rtxmac_oc.GspRm.Channel.{Gsp, Channel, Error, Reply, bounds, bad_argument, ring, udelay, send}
use rtxmac_oc.GspRm.Channel.{rpc_call, drain, carry, advance, wrap, wrap_loop, message_slots}
use rtxmac_oc.GspRm.Channel.{message_function, message_at, msgq_set_readptr, reply_at}
use rtxmac_oc.GspRm.Channel.{message_payload, message_result, reply_copy}
use rtxmac_oc.GspRm.Queue.{slots, taken, after}
use rtxmac_oc.GspRm.Call.{Serves, Answered, writeptr, writeptr-taken, rpc_call-Answered}
use rtxmac_oc.GspRm.Send.{IsSent, send-IsSent}
use rtxmac_oc.GspRm.Object.{Scratch, Answer, blank, accept, after_call, rm_alloc, rm_control}
use rtxmac_oc.GspRm.Request.{IsAsked, rm_calls-IsAsked}
use rtxmac_oc.GspRm.Answer.{IsReturned, accept-IsReturned}
use rtxmac_oc.GspRm.Memory.{memlist_of, rm_vram_memlist}
use rtxmac_oc.GspRm.Pages.{IsList, memlist-IsList}

-- A message of one slot for function 103, with a payload of 36 bytes, and the pointer behind it.
abbrev answer : Buffer → Buffer
answer m =
    let m1 = put32 m (0x42000 + 60) 103 in
    let m2 = put32 m1 (0x42000 + 56) 68 in
    let m3 = put32 m2 (0x42000 + 64) 0 in
    let m4 = put32 m3 (0x42000 + 40) 1 in put32 m4 (0x41000 + 16) 1

abbrev prompt : Gsp
prompt = record { State = ℕ; ring = λ s m. (s + 1, answer m); udelay = λ us s m. (s + us, m) }

-- The answer is in the queue, read or not.
record IsServed (ch : Channel ℕ) : Type 0 where
  count : ch.lay.msg_count ≡ 63
  place : ch.lay.msgq_off ≡ 0x41000
  pointer : writeptr ch ≡ 1
  slot : word32 ch.shm (0x42000 + 40) ≡ 1
  reading : (ch.msgq_rptr ≡ 0) ⊎ (ch.msgq_rptr ≡ 1)

answer-pointer : (m : Buffer) → word32 (answer m) (0x41000 + 16) ≡ 1
answer-pointer m = word32-put32 _ (0x41000 + 16) 1

answer-slot : (m : Buffer) → word32 (answer m) (0x42000 + 40) ≡ 1
answer-slot m =
    word32-put32_apart _ (0x41000 + 16) 1 (0x42000 + 40) (inr (omega arith))
    ∙ word32-put32 _ (0x42000 + 40) 1

rung-IsServed :
    (ch : Channel ℕ)
    → ch.lay.msg_count ≡ 63
    → ch.lay.msgq_off ≡ 0x41000
    → (ch.msgq_rptr ≡ 0) ⊎ (ch.msgq_rptr ≡ 1)
    → IsServed (ring prompt ch)
unfolding ring msgq_writeptr
rung-IsServed ch count place reading = record {
  count = count;
  place = place;
  pointer = rw place (answer-pointer ch.shm);
  slot = answer-slot ch.shm;
  reading = reading;
}

one_slot : (ch : Channel ℕ) → IsServed ch → ch.msgq_rptr ≡ 0 → slots ch ≡ 1
one_slot ch s e = rw (e, s.place, s.count, s.slot) refl

read_first : (ch : Channel ℕ) → IsServed ch → ch.msgq_rptr ≢ writeptr ch → ch.msgq_rptr ≡ 0
read_first ch s ne = elim s.reading [ inl e ↦ e | inr e ↦ absurd (ne (e ∙ sym s.pointer)) ]

next_slot : (ch : Channel ℕ) → IsServed ch → ch.msgq_rptr ≡ 0 → (taken ch).msgq_rptr ≡ 1
unfolding taken
next_slot ch s e = rw (one_slot ch s e, e, s.count) refl

taken-IsServed : (ch : Channel ℕ) → IsServed ch → ch.msgq_rptr ≢ writeptr ch → IsServed (taken ch)
unfolding taken msgq_set_readptr
taken-IsServed ch s ne =
    let first = read_first ch s ne in
    record {
      count = s.count;
      place = s.place;
      pointer = writeptr-taken ch ∙ s.pointer;
      slot =
          rw s.place (word32-put32_apart ch.shm (0x41000 + 32) _ (0x42000 + 40) (inr (omega arith)))
          ∙ s.slot;
      reading = inr (next_slot ch s first);
    }

leads_on :
    (ch : Channel ℕ)
    → IsServed ch
    → (j : ℕ) × (j ≤ ch.lay.msg_count) × ((after j ch).msgq_rptr ≡ writeptr ch)
unfolding after
leads_on ch s = elim s.reading [
  | inr e ↦ (0, omega arith, e ∙ sym s.pointer)
  | inl e ↦ (1, omega (arith, s.count), next_slot ch s e ∙ sym s.pointer)
]

delayed-IsServed : (ch : Channel ℕ) → IsServed ch → IsServed (udelay prompt 1000 ch)
unfolding udelay
delayed-IsServed ch s = record {
  count = s.count;
  place = s.place;
  pointer = s.pointer;
  slot = s.slot;
  reading = s.reading;
}

prompt-Serves : Serves prompt IsServed
prompt-Serves = record {
  sound = λ ch s. record {
    some_slots = omega (arith, s.count);
    few_slots = omega (arith, s.count);
    inside = ground (arith, s.count, s.reading);
  };
  leads = leads_on;
  takes = taken-IsServed;
  delays = delayed-IsServed;
  rings = λ ch s. rung-IsServed ch s.count s.place s.reading;
}

abbrev start : Channel ℕ
start = record {
  shm = blank 0x81000;
  lay = shared_layout;
  cmdq_wptr = 62;
  seq = 7;
  msgq_rptr = 0;
  io = 0;
}

abbrev params : Buffer
params = record { len = 4; at = λ x. x + 1 }

abbrev start_sent :
    (sent : Channel ℕ) × (send prompt 103 (some params) 4 start ≡ some (ring prompt sent))
    × IsSent 103 (some params) 4 start sent
start_sent =
    send-IsSent prompt 103 (some params) 4 start (omega arith) (omega arith) (omega arith)
      (omega arith)

sent-IsServed : IsServed (ring prompt start_sent.0)
sent-IsServed =
    let r = start_sent.2.reading in
    rung-IsServed start_sent.0 (ap (λ l. l.msg_count) r.1) (ap (λ l. l.msgq_off) r.1) (inl r.0)

rpc_call-Answered_example :
    (o : Result Error Reply × Channel ℕ) × (rpc_call prompt 103 (some params) 4 none 0 0 start
      ≡ some o)
    × Answered prompt 103 none 0 4000000 0 (ring prompt start_sent.0) o
rpc_call-Answered_example =
    rpc_call-Answered prompt 103 none 0 4000000 IsServed prompt-Serves (some params) 4 0 start
      (ring prompt start_sent.0) refl (omega arith) start_sent.1 sent-IsServed

-- The message in slot 0 of a queue that holds it.
abbrev rung : Channel ℕ
rung = record start { shm = answer start.shm }

drain_run :
    drain 2 103 1 none 0 rung
    ≡ some (
      some (ok (record { out = none; len = 36; result = 0 })),
      record rung { shm = put32 rung.shm (0x41000 + 32) 1; msgq_rptr = 1 },
    )
unfolding drain carry advance wrap wrap_loop message_slots message_function message_at element_at
    msgq_set_readptr reply_at message_payload message_result reply_copy word32 join32 put32 put8
    blank
drain_run = refl

abbrev held : Scratch
held = record { req = blank 8192; rep = blank 3608 }

abbrev CallsCase : Type 0
CallsCase =
    (((512 < 4)
        × (rm_alloc prompt held 1 2 3 0x80 (some params) 4 start ≡ some (err bounds, start)))
      ⊎ ((4 ≤ 512)
          × IsAsked prompt held start 103 (1 ∷ 2 ∷ 3 ∷ 0x80 ∷ 0 ∷ 4 ∷ 0 ∷ []) 32 16 (some params) 4
              (rm_alloc prompt held 1 2 3 0x80 (some params) 4 start)))
    × (((3584 < 4)
          × (rm_control prompt held 1 3 5 (some params) 4 start ≡ some (err bounds, start)))
        ⊎ ((4 ≤ 3584)
            × IsAsked prompt held start 76 (1 ∷ 3 ∷ 5 ∷ 0 ∷ 4 ∷ 0 ∷ []) 24 12 (some params) 4
                (rm_control prompt held 1 3 5 (some params) 4 start)))

rm_calls-IsAsked_example : CallsCase
rm_calls-IsAsked_example =
    rm_calls-IsAsked prompt held start (some params) 4 1 2 3 0x80 5 (omega arith) (omega arith)
      (omega arith)

accept-IsReturned_example :
    let o : Result Error Answer =
      accept 32 16
        (some params)
        4
        (ok (reply_at rung.shm shared_layout 0 (some held.rep) (32 + 4))) in
    (((word32 rung.shm (0x41000 + (0 + 1) * 4096 + 64) ≢ 0)
        ⊎ (word32 rung.shm (0x41000 + (0 + 1) * 4096 + 56) < 32 + 32))
      × (o ≡ err bounds))
    ⊎ ((word32 rung.shm (0x41000 + (0 + 1) * 4096 + 64) ≡ 0)
        × (32 + 32 ≤ word32 rung.shm (0x41000 + (0 + 1) * 4096 + 56))
        × (last : Buffer) × (o
            ≡ ok (record {
              status = word32 rung.shm (0x41000 + (0 + 1) * 4096 + 80 + 16);
              params = some last;
            }))
        × IsReturned rung.shm
            (0x41000 + (0 + 1) * 4096 + 80)
            (word32 rung.shm (0x41000 + (0 + 1) * 4096 + 56) - 32)
            32
            params
            4
            last)
accept-IsReturned_example =
    accept-IsReturned rung.shm shared_layout 0 32 16 4 held.rep params (omega arith)

abbrev phys : ℕ
phys = 0x100000

abbrev size : ℕ
size = 0x5000

memlist-IsList_example :
    (((size ≡ 0) ⊎ (size % 4096 ≢ 0) ⊎ (phys % 4096 ≢ 0))
      × (rm_vram_memlist prompt held 1 2 phys size start ≡ some (err bad_argument, start)))
    ⊎ ((1018 < size / 4096)
        × (size % 4096 ≡ 0)
        × (phys % 4096 ≡ 0)
        × (rm_vram_memlist prompt held 1 2 phys size start ≡ some (err bounds, start)))
    ⊎ ((0 < size)
        × (size % 4096 ≡ 0)
        × (phys % 4096 ≡ 0)
        × (size / 4096 ≤ 1018)
        × (req : Buffer) × IsList 1 2 phys size req
        × (rm_vram_memlist prompt held 1 2 phys size start
            ≡ after_call prompt memlist_of
                (rpc_call prompt 4 (some req) (48 + size / 4096 * 8) none 0 4000000 start)))
memlist-IsList_example = memlist-IsList prompt held 1 2 phys size start (omega arith) (omega arith)
