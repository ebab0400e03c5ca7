-- ===== src/GspRm/Send.antt =====
-- The command that a call leaves in the queue.
use rtxmac_oc.Base.{ℕ, ◌+◌, ◌-◌, ◌*◌, ◌%◌, ◌^◌, ◌≤◌, ◌<◌, ◌≡◌, refl, ◌∙◌, arith}
use rtxmac_oc.Base.{◌⊎◌, inr, leb, true, false}
use native.Mathlib.Decide.{dec_lt}
use rtxmac_oc.Base.{◌+32◌, Option, some}
use rtxmac_oc.Bytes.Defs.{Buffer, byte, word32}
use rtxmac_oc.Bytes.Stores.{byte-put32, word32-put32}
use rtxmac_oc.GspRpc.Defs.{element_at, cmdq_write, cmdq_set_writeptr}
use rtxmac_oc.GspRpc.Message.{IsMessage, pages_for, cmdq_write-IsMessage}
use rtxmac_oc.GspRm.Channel.{Gsp, Channel, window, splice, carry, ring, send}
use rtxmac_oc.GspRm.Queue.{wrap-eq}

byte-splice : (m w : Buffer) (p x : ℕ) → byte (splice m p w) (p + x) ≡ byte w x
byte-splice m w p x =
    let back : p + x - p ≡ x = omega arith in
    let inside : leb p (p + x) ≡ true = ground arith in rw (inside, back) refl

byte-splice_before : (m w : Buffer) (p x : ℕ) → x < p → byte (splice m p w) x ≡ byte m x
byte-splice_before m w p x h = let before : leb p x ≡ false = ground (arith, h) in rw before refl

-- The channel after a command, before the doorbell: the command stands in its slot of the command
-- queue, the write pointer is behind it, and what is outside the command is as it was.
pub record IsSent {State : Type 0} (function : ℕ) (req : Option Buffer) (req_len : ℕ)
    (ch ch' : Channel State) : Type 0 where
  pub queue : Buffer
  pub message :
      IsMessage
        (window ch.shm ch.lay.cmdq_off)
        (element_at ch.cmdq_wptr)
        (pages_for req_len * 4096)
        ch.seq
        function
        req
        req_len
        queue
  pub written : (x : ℕ) → 20 ≤ x → byte ch'.shm (ch.lay.cmdq_off + x) ≡ byte queue x
  pub published :
      word32 ch'.shm (ch.lay.cmdq_off + 16)
      ≡ ((ch.cmdq_wptr + pages_for req_len) % ch.lay.msg_count) % 2 ^ 32
  pub pointer : ch'.cmdq_wptr ≡ (ch.cmdq_wptr + pages_for req_len) % ch.lay.msg_count
  pub sequence : ch'.seq ≡ (ch.seq + 1) % 2 ^ 32
  pub reading : (ch'.msgq_rptr ≡ ch.msgq_rptr) × (ch'.lay ≡ ch.lay)
  pub kept :
      (x : ℕ)
      → (x < ch.lay.cmdq_off + 16)
        ⊎ (ch.lay.cmdq_off + element_at ch.cmdq_wptr + pages_for req_len * 4096 ≤ x)
      → byte ch'.shm x ≡ byte ch.shm x

module _ (gsp : Gsp) (function : ℕ) (req : Option Buffer) (req_len : ℕ)
    (ch : Channel gsp.State) where
  abbrev queued : Buffer
  queued = (cmdq_write (window ch.shm ch.lay.cmdq_off) ch.cmdq_wptr ch.seq function req req_len).1

  abbrev moved : ℕ
  moved = (ch.cmdq_wptr + pages_for req_len) % ch.lay.msg_count

  abbrev commanded : Channel gsp.State
  commanded = record ch {
    shm = cmdq_set_writeptr (splice ch.shm ch.lay.cmdq_off queued) ch.lay moved;
    cmdq_wptr = moved;
    seq = ch.seq +32 1;
  }

  outside :
      (x : ℕ)
      → (x < ch.lay.cmdq_off + 16) ⊎ (ch.lay.cmdq_off + 20 ≤ x)
      → byte commanded.shm x ≡ byte (splice ch.shm ch.lay.cmdq_off queued) x
  unfolding cmdq_set_writeptr
  outside x h =
      byte-put32 (splice ch.shm ch.lay.cmdq_off queued) (ch.lay.cmdq_off + 16) moved x
        (ground (arith, h))

  publishes : word32 commanded.shm (ch.lay.cmdq_off + 16) ≡ moved % 2 ^ 32
  unfolding cmdq_set_writeptr
  publishes = word32-put32 (splice ch.shm ch.lay.cmdq_off queued) (ch.lay.cmdq_off + 16) moved

  abbrev beyond : ℕ
  beyond = ch.lay.cmdq_off + element_at ch.cmdq_wptr + pages_for req_len * 4096

  before_command :
      (x : ℕ)
      → (x < ch.lay.cmdq_off + 16) ⊎ (beyond ≤ x)
      → (x < ch.lay.cmdq_off + 16) ⊎ (ch.lay.cmdq_off + 20 ≤ x)
  unfolding element_at
  before_command x h = ground (arith, h)

  keeps :
      IsMessage
        (window ch.shm ch.lay.cmdq_off)
        (element_at ch.cmdq_wptr)
        (pages_for req_len * 4096)
        ch.seq
        function
        req
        req_len
        queued
      → (x : ℕ) → (x < ch.lay.cmdq_off + 16) ⊎ (beyond ≤ x)
      → byte (splice ch.shm ch.lay.cmdq_off queued) x ≡ byte ch.shm x
  unfolding element_at
  keeps message x h = elim (dec_lt x ch.lay.cmdq_off) [
    | yes before ↦ byte-splice_before ch.shm queued ch.lay.cmdq_off x before
    | no behind ↦
        let at : ch.lay.cmdq_off + (x - ch.lay.cmdq_off) ≡ x = omega (arith, behind) in
        rw (← at) (
          byte-splice ch.shm queued ch.lay.cmdq_off (x - ch.lay.cmdq_off)
          ∙ message.kept (x - ch.lay.cmdq_off) (ground (arith, h, behind)))
  ]

  -- In a queue of fewer than 2^31 slots, with the pointer at one of them, a command with less than
  -- 2^32 - 5000 bytes is left in that slot, under the next sequence number, the write pointer is
  -- moved over it in memory and in the channel, modulo the number of slots, and no byte before the
  -- pointer or behind the command is changed, before the doorbell rings.
  pub send-IsSent :
      req_len < 2 ^ 32 - 5000
      → 0 < ch.lay.msg_count
      → ch.lay.msg_count < 2 ^ 31
      → ch.cmdq_wptr < ch.lay.msg_count
      → (ch' : Channel gsp.State) × (send gsp function req req_len ch ≡ some (ring gsp ch'))
        × IsSent function req req_len ch ch'
  unfolding send carry
  send-IsSent short pos few at =
      let off = ch.lay.cmdq_off in
      let w =
        cmdq_write-IsMessage (window ch.shm off) ch.cmdq_wptr ch.seq function req req_len short in
      let sum : ch.cmdq_wptr +32 pages_for req_len ≡ ch.cmdq_wptr + pages_for req_len =
        omega (arith, short, few, at) in
      (
        commanded,
        rw (w.0, sum, wrap-eq ch.lay.msg_count (ch.cmdq_wptr + pages_for req_len) pos) refl,
        record {
          queue = queued;
          message = w.1;
          written =
              λ x h. outside (off + x) (inr (omega (arith, h))) ∙ byte-splice ch.shm queued off x;
          published = publishes;
          pointer = refl;
          sequence = refl;
          reading = (refl, refl);
          kept = λ x h. outside x (before_command x h) ∙ keeps w.1 x h;
        },
      )
