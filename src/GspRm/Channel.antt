-- ===== src/GspRm/Channel.antt =====
-- The channel of gsp_rm.h and nv_gsp_rpc_call: a command is written to one queue, and the answer is
-- looked for among the messages of the other.
use rtxmac_oc.Base.{ℕ, zero, suc, ◌+◌, ◌-◌, ◌/◌, ◌%◌, ltb, leb, ◌==◌, ◌||◌}
use rtxmac_oc.Base.{if◌then◌else◌, ◌+32◌, Option, none, some, Result, ok, err}
use rtxmac_oc.Bytes.Defs.{Buffer, byte, word32}
use rtxmac_oc.Bytes.Stores.{put32}
use rtxmac_oc.Bytes.Fill.{fill}
use rtxmac_oc.GspRpc.Defs.{ShmLayout, cmdq_write, cmdq_set_writeptr, msgq_writeptr, element_at}

-- The platform's two callbacks and the GSP behind them, which works on the shared memory while they
-- run. A callback that is not set is one that changes nothing.
pub record Gsp : Type 1 where
  pub State : Type 0
  pub ring : State → Buffer → State × Buffer
  pub udelay : ℕ → State → Buffer → State × Buffer

-- `nv_gsp_rpc_chan`, with the state of the platform for its context.
pub record Channel (State : Type 0) : Type 0 where
  pub shm : Buffer
  pub lay : ShmLayout
  pub cmdq_wptr : ℕ
  pub seq : ℕ
  pub msgq_rptr : ℕ
  pub io : State

-- NV_GSP_RM_ERR_ARG, NV_GSP_RM_ERR_TIMEOUT and NV_GSP_RM_ERR_BOUNDS.
pub data Error : Type 0 where
  bad_argument timed_out bounds : Error

-- What a call hands out: the buffer for the payload, the payload's length and the result.
pub record Reply : Type 0 where
  pub out : Option Buffer
  pub len : ℕ
  pub result : ℕ

-- The bytes from `p` on, and memory with other bytes there: a pointer into the shared memory.
abbrev pub window : Buffer → ℕ → Buffer
window m p = record { len = m.len - p; at = λ x. m.at (p + x) }

abbrev pub splice : Buffer → ℕ → Buffer → Buffer
splice m p w = record { len = m.len; at = λ x. if leb p x then w.at (x - p) else m.at x }

-- `none` is a loop that is still running when its rounds are used up.
unfoldable pub carry : {A B : Type 0} → Option A → (A → Option B) → Option B
carry none next = none
carry (some a) next = next a

-- `while (x >= count) x -= count;`
unfoldable pub wrap_loop : ℕ → ℕ → ℕ → Option ℕ
wrap_loop count zero x = none
wrap_loop count (suc rounds) x =
    let again = wrap_loop count rounds (x - count) in if leb count x then again else some x

unfoldable pub wrap : ℕ → ℕ → Option ℕ
wrap count x = wrap_loop count (suc x) x

unfoldable pub msgq_set_readptr : Buffer → ShmLayout → ℕ → Buffer
msgq_set_readptr shm lay rptr = put32 shm (lay.msgq_off + 32) rptr

-- The message in a slot of the status queue, and its fields.
unfoldable pub message_at : ShmLayout → ℕ → ℕ
message_at lay slot = lay.msgq_off + element_at slot

unfoldable pub message_slots : Buffer → ShmLayout → ℕ → ℕ
message_slots m lay slot =
    let mec = word32 m (message_at lay slot + 40) in
    if (mec == 0) || ltb lay.msg_count mec then 1 else mec

unfoldable pub message_function : Buffer → ShmLayout → ℕ → ℕ
message_function m lay slot = word32 m (message_at lay slot + 60)

-- The length of the payload.
unfoldable pub message_payload : Buffer → ShmLayout → ℕ → ℕ
message_payload m lay slot =
    let mlen = word32 m (message_at lay slot + 56) in if leb 32 mlen then mlen - 32 else 0

unfoldable pub message_result : Buffer → ShmLayout → ℕ → ℕ
message_result m lay slot = word32 m (message_at lay slot + 64)

-- What an answer in a slot hands out.
unfoldable pub reply_copy : Buffer → ℕ → Option Buffer → ℕ → Option Buffer
reply_copy m p none n = none
reply_copy m p (some out) n = some (fill out 0 (λ i. byte m (p + i)) n 0)

unfoldable pub reply_at : Buffer → ShmLayout → ℕ → Option Buffer → ℕ → Reply
reply_at m lay slot out cap =
    let plen = message_payload m lay slot in
    record {
      out = reply_copy m (message_at lay slot + 80) out (if ltb plen cap then plen else cap);
      len = plen;
      result = message_result m lay slot;
    }

module _ {State : Type 0} where
  -- The message at the read pointer is done with.
  unfoldable pub advance : ℕ → Channel State → Option (Channel State)
  advance mec ch =
      carry (wrap ch.lay.msg_count (ch.msgq_rptr +32 mec))
        λ r. some (record ch { shm = msgq_set_readptr ch.shm ch.lay r; msgq_rptr = r })

  -- `while (msgq_rptr != wptr)`: an answer or an error ends the call, `none` is no answer yet.
  unfoldable pub drain :
      ℕ
      → ℕ
      → ℕ
      → Option Buffer
      → ℕ
      → Channel State
      → Option (Option (Result Error Reply) × Channel State)
  drain zero function wptr out cap ch = none
  drain (suc rounds) function wptr out cap ch =
      let mec = message_slots ch.shm ch.lay ch.msgq_rptr in
      let reply = reply_at ch.shm ch.lay ch.msgq_rptr out cap in
      let answer = carry (advance mec ch) λ ch'. some (some (ok reply), ch') in
      let next = carry (advance mec ch) λ ch'. drain rounds function wptr out cap ch' in
      if ch.msgq_rptr == wptr
      then some (none, ch)
      else if message_function ch.shm ch.lay ch.msgq_rptr == function
      then (if ltb ch.lay.msg_count (ch.msgq_rptr +32 mec)
          then some (some (err bounds), ch)
          else answer)
      else next

  -- As many messages as the queue has slots, and the look at the pointers behind the last.
  abbrev pub drain_rounds : Channel State → ℕ
  drain_rounds ch = ch.lay.msg_count + 1

module _ (gsp : Gsp) where
  unfoldable pub ring : Channel gsp.State → Channel gsp.State
  ring ch = let after = gsp.ring ch.io ch.shm in record ch { shm = after.1; io = after.0 }

  unfoldable pub udelay : ℕ → Channel gsp.State → Channel gsp.State
  udelay us ch = let after = gsp.udelay us ch.io ch.shm in record ch { shm = after.1; io = after.0 }

  -- The command in its slot, the pointer behind it, and the doorbell.
  unfoldable pub send : ℕ → Option Buffer → ℕ → Channel gsp.State → Option (Channel gsp.State)
  send function req req_len ch =
      let cmdq = window ch.shm ch.lay.cmdq_off in
      let written = cmdq_write cmdq ch.cmdq_wptr ch.seq function req req_len in
      let shm = splice ch.shm ch.lay.cmdq_off written.1 in
      carry (wrap ch.lay.msg_count (ch.cmdq_wptr +32 written.0)) λ wptr. some (
        ring (record ch {
          shm = cmdq_set_writeptr shm ch.lay wptr;
          cmdq_wptr = wptr;
          seq = ch.seq +32 1;
        }))

  -- The wait between two looks at the queue, with the doorbell every 200 ms.
  unfoldable pub pause : ℕ → Channel gsp.State → Channel gsp.State
  pause waited ch =
      let later = udelay 1000 ch in if ((waited +32 1000) % 200000) == 0 then ring later else later

  unfoldable pub receive :
      ℕ
      → ℕ
      → Option Buffer
      → ℕ
      → ℕ
      → ℕ
      → Channel gsp.State
      → Option (Result Error Reply × Channel gsp.State)
  receive zero function out cap timeout waited ch = none
  receive (suc rounds) function out cap timeout waited ch =
      let wptr = msgq_writeptr ch.shm ch.lay in
      carry (drain (drain_rounds ch) function wptr out cap ch) λ seen.
        let again =
          receive rounds function out cap timeout (waited +32 1000) (pause waited seen.1) in
        elim seen.0 [
          | some answer ↦ some (answer, seen.1)
          | none ↦ if leb timeout waited then some (err timed_out, seen.1) else again
        ]

  -- Enough rounds for `waited` to reach the timeout.
  abbrev pub receive_rounds : ℕ → ℕ
  receive_rounds timeout = timeout / 1000 + 2

  unfoldable pub rpc_call :
      ℕ
      → Option Buffer
      → ℕ
      → Option Buffer
      → ℕ
      → ℕ
      → Channel gsp.State
      → Option (Result Error Reply × Channel gsp.State)
  rpc_call function req req_len out cap timeout_us ch =
      let timeout = if timeout_us == 0 then 4000000 else timeout_us in
      carry (send function req req_len ch)
        λ sent. receive (receive_rounds timeout) function out cap timeout 0 sent
