-- ===== src/GspRm/Call.antt =====
-- The wait for the answer to a call.
use rtxmac_oc.Base.{ℕ, zero, suc, ◌+◌, ◌*◌, ◌%◌, ◌^◌, ◌≤◌, ◌<◌, ◌≡◌, refl, sym, ◌∙◌, arith}
use rtxmac_oc.Base.{◌≢◌, inl, inr, leb, ◌==◌, if◌then◌else◌, Bool-cases}
use rtxmac_oc.Base.{◌+32◌, Option, none, some, Result, err}
use rtxmac_oc.Bytes.Defs.{Buffer, word32}
use rtxmac_oc.Bytes.Stores.{word32-put32_apart}
use rtxmac_oc.GspRpc.Defs.{msgq_writeptr}
use rtxmac_oc.GspRm.Channel.{
  Gsp, Channel, Error, Reply, timed_out, carry, msgq_set_readptr, drain, drain_rounds, pause, ring,
  udelay, send, receive, receive_rounds, rpc_call,
}
use rtxmac_oc.GspRm.Queue.{IsRing, taken, after, Skipped, skip_none, skip_event, Drained, emptied}
use rtxmac_oc.GspRm.Queue.{drain-Drained}

abbrev pub writeptr : {State : Type 0} → Channel State → ℕ
writeptr ch = word32 ch.shm (ch.lay.msgq_off + 16)

-- The read pointer is published beside the write pointer.
pub writeptr-taken : {State : Type 0} (ch : Channel State) → writeptr (taken ch) ≡ writeptr ch
unfolding taken msgq_writeptr msgq_set_readptr
writeptr-taken ch =
    word32-put32_apart ch.shm (ch.lay.msgq_off + 32) _ (ch.lay.msgq_off + 16) (inl (omega arith))

module _ (gsp : Gsp) where
  -- A millisecond later, with the doorbell rung again every 200 milliseconds.
  abbrev pub millisecond : ℕ → Channel gsp.State → Channel gsp.State
  millisecond waited ch =
      let later = udelay gsp 1000 ch in
      if ((waited + 1000) % 200000) == 0 then ring gsp later else later

  pause-eq :
      (waited : ℕ) (ch : Channel gsp.State)
      → waited + 1000 < 2 ^ 32
      → pause gsp waited ch ≡ millisecond waited ch
  unfolding pause
  pause-eq waited ch h = let sum : waited +32 1000 ≡ waited + 1000 = omega (arith, h) in rw sum refl

  -- What the driver relies on: whenever it looks at the status queue, whole messages lead from the
  -- read pointer to the write pointer, and so they do when it has taken a message, and after a delay or the doorbell.
  pub record Serves (I : Channel gsp.State → Type 0) : Type 0 where
    pub sound : (ch : Channel gsp.State) → I ch → IsRing ch
    pub leads :
        (ch : Channel gsp.State)
        → I ch
        → (j : ℕ) × (j ≤ ch.lay.msg_count) × ((after j ch).msgq_rptr ≡ writeptr ch)
    pub takes : (ch : Channel gsp.State) → I ch → ch.msgq_rptr ≢ writeptr ch → I (taken ch)
    pub delays : (ch : Channel gsp.State) → I ch → I (udelay gsp 1000 ch)
    pub rings : (ch : Channel gsp.State) → I ch → I (ring gsp ch)

  module _ (I : Channel gsp.State → Type 0) (serves : Serves I) where
    millisecond-kept : (waited : ℕ) (ch : Channel gsp.State) → I ch → I (millisecond waited ch)
    millisecond-kept waited ch i =
        let later = serves.delays ch i in
        elim (Bool-cases (((waited + 1000) % 200000) == 0)) [
          | inl e ↦ rw e (serves.rings (udelay gsp 1000 ch) later)
          | inr e ↦ rw e later
        ]

    Skipped-kept :
        {function w : ℕ} {ch last : Channel gsp.State}
        → Skipped function w ch last
        → w ≡ writeptr ch
        → I ch
        → I last
    Skipped-kept skip_none e i = i
    Skipped-kept {ch = ch} (skip_event ne other s) e i =
        Skipped-kept s (e ∙ sym (writeptr-taken ch)) (serves.takes ch i (λ h. ne (h ∙ sym e)))

    Drained-kept :
        {function w cap : ℕ} {out : Option Buffer} {ch last : Channel gsp.State}
        → Drained function out cap w ch (none, last)
        → w ≡ writeptr ch
        → I ch
        → I last
    Drained-kept (emptied s e) here i = Skipped-kept s here i

  module _ (function : ℕ) (out : Option Buffer) (cap timeout : ℕ) where
    -- How the wait ends: at the first look that finds an answer, or at the first one behind the
    -- timeout; before it the queue was emptied at every look, a millisecond apart.
    pub data Answered
        : ℕ → Channel gsp.State → Result Error Reply × Channel gsp.State → Type 0 where
      replied :
          {waited : ℕ} {ch : Channel gsp.State} {answer : Result Error Reply}
          {last : Channel gsp.State}
          → Drained function out cap (writeptr ch) ch (some answer, last)
          → Answered waited ch (answer, last)
      expired :
          {waited : ℕ} {ch : Channel gsp.State} {last : Channel gsp.State}
          → Drained function out cap (writeptr ch) ch (none, last)
          → timeout ≤ waited
          → Answered waited ch (err timed_out, last)
      waits :
          {waited : ℕ} {ch : Channel gsp.State} {last : Channel gsp.State}
          {o : Result Error Reply × Channel gsp.State}
          → Drained function out cap (writeptr ch) ch (none, last)
          → waited < timeout
          → Answered (waited + 1000) (millisecond waited last) o
          → Answered waited ch o

    module _ (I : Channel gsp.State → Type 0) (serves : Serves I) where
      -- What follows a look: the end, or the next one.
      looked :
          (rounds waited : ℕ) (ch : Channel gsp.State) (seen : Option (Result Error Reply))
          (last : Channel gsp.State)
          → timeout + 1000 ≤ 2 ^ 32
          → drain (drain_rounds ch) function (writeptr ch) out cap ch ≡ some (seen, last)
          → Drained function out cap (writeptr ch) ch (seen, last)
          → I ch
          → (waited < timeout
              → I (millisecond waited last)
              → (o : Result Error Reply × Channel gsp.State) × (receive gsp rounds function out cap
                    timeout
                    (waited + 1000)
                    (millisecond waited last)
                  ≡ some o)
                × Answered (waited + 1000) (millisecond waited last) o)
          → (o : Result Error Reply × Channel gsp.State) × (receive gsp
                (suc rounds)
                function
                out
                cap
                timeout
                waited
                ch
              ≡ some o)
            × Answered waited ch o
      unfolding receive carry msgq_writeptr
      looked rounds waited ch (some answer) last small e d i rest =
          ((answer, last), rw e refl, replied d)
      looked rounds waited ch none last small e d i rest = elim (Bool-cases (leb timeout waited)) [
        | inl late ↦ ((err timed_out, last), rw (e, late) refl, expired d (ground (arith, late)))
        | inr early ↦
            let sooner : waited < timeout = ground (arith, early) in
            let sum : waited +32 1000 ≡ waited + 1000 = omega (arith, sooner, small) in
            let kept = millisecond-kept I serves waited last (Drained-kept I serves d refl i) in
            let same = pause-eq waited last (omega (arith, sooner, small)) in
            next (rest sooner kept) (rw (e, early, sum, same) refl) (λ o. waits d sooner)
      ]
        where
          next :
              {x y : Option (Result Error Reply × Channel gsp.State)}
              {P Q : Result Error Reply × Channel gsp.State → Type 0}
              → (o : Result Error Reply × Channel gsp.State) × (x ≡ some o) × P o
              → y ≡ x
              → ((o : Result Error Reply × Channel gsp.State) → P o → Q o)
              → (o : Result Error Reply × Channel gsp.State) × (y ≡ some o) × Q o
          next (o, e, p) same f = (o, same ∙ e, f o p)

      receive-Answered :
          (rounds waited : ℕ) (ch : Channel gsp.State)
          → I ch
          → timeout + 1000 ≤ 2 ^ 32
          → waited < timeout + 1000
          → timeout + 1000 ≤ waited + rounds * 1000
          → (o : Result Error Reply × Channel gsp.State) × (receive gsp rounds function out cap
                timeout waited ch
              ≡ some o)
            × Answered waited ch o
      unfolding receive carry
      receive-Answered zero waited ch i small h enough = absurd (omega (arith, h, enough))
      receive-Answered (suc rounds) waited ch i small h enough =
          let l = serves.leads ch i in
          let d =
            drain-Drained function out cap (writeptr ch) (drain_rounds ch) l.0 ch
              (serves.sound ch i) l.2 (omega (arith, l.1)) in
          looked rounds waited ch d.0.0 d.0.1 small d.1 d.2 i λ sooner kept.
            receive-Answered rounds (waited + 1000) (millisecond waited d.0.1) kept small
              (omega (arith, sooner)) (omega (arith, enough))

      -- If the queue has fewer than 2^31 slots, the timeout and a millisecond are at most 2^32
      -- microseconds, and whole messages lead from the read pointer to the write pointer whenever the
      -- driver looks at the status queue, nv_gsp_rpc_call returns once its command is sent: with what the first
      -- message of the function carries, at the first look, a millisecond from the one before, that
      -- finds such a message, with an error if that message runs over the end of the queue, or with a
      -- timeout, no such message having come until the given time, 0 standing for four seconds, is
      -- over; messages of other functions before it are taken from the queue.
      pub rpc_call-Answered :
          (req : Option Buffer) (req_len timeout_us : ℕ) (ch sent : Channel gsp.State)
          → timeout ≡ (if timeout_us == 0 then 4000000 else timeout_us)
          → timeout + 1000 ≤ 2 ^ 32
          → send gsp function req req_len ch ≡ some sent
          → I sent
          → (o : Result Error Reply × Channel gsp.State) × (rpc_call gsp function req req_len out
                cap timeout_us ch
              ≡ some o)
            × Answered 0 sent o
      unfolding rpc_call carry
      rpc_call-Answered req req_len timeout_us ch sent given small went i =
          let r =
            receive-Answered (receive_rounds gsp timeout) 0 sent i small (omega arith)
              (omega arith) in
          (r.0, received r.0 r.1, r.2)
        where
          received :
              (o : Result Error Reply × Channel gsp.State)
              → receive gsp (receive_rounds gsp timeout) function out cap timeout 0 sent ≡ some o
              → rpc_call gsp function req req_len out cap timeout_us ch ≡ some o
          received o e = rw (went, ← given) e
