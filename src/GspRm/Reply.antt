-- ===== src/GspRm/Reply.antt =====
-- What the answer in a slot of the status queue hands out.
use rtxmac_oc.Base.{ℕ, ◌+◌, ◌*◌, ◌≤◌, ◌<◌, ◌≡◌, refl, sym, ap, ◌∙◌, arith, ◌⊎◌, inr}
use rtxmac_oc.Base.{ltb, if◌then◌else◌, Option, none, some}
use rtxmac_oc.Bytes.Defs.{Buffer, byte, word32}
use rtxmac_oc.Bytes.Fill.{fill, byte-fill, byte-fill_outside}
use rtxmac_oc.GspRpc.Defs.{ShmLayout, element_at}
use rtxmac_oc.GspRm.Channel.{
  Reply, message_at, message_payload, message_result, reply_copy, reply_at,
}

-- Where the message of a slot starts: behind the page of the queue's header, a page for each slot.
abbrev pub start_of : ShmLayout → ℕ → ℕ
start_of lay slot = lay.msgq_off + (0x1000 + slot * 0x1000)

-- A buffer with the first `len` bytes at `p`, as far as `cap` allows, and its own bytes behind them.
pub data IsPayload (m : Buffer) (p len cap : ℕ) : Option Buffer → Option Buffer → Type 0 where
  no_buffer : IsPayload m p len cap none none
  filled :
      {out after : Buffer}
      → ((j : ℕ) → j < len → j < cap → byte after j ≡ byte m (p + j))
      → ((j : ℕ) → (len ≤ j) ⊎ (cap ≤ j) → byte after j ≡ byte out j)
      → IsPayload m p len cap (some out) (some after)

-- The length field at 56 counts the message's header of 32 bytes, the result is at 64, and the payload
-- starts at 80.
pub record IsReply (m : Buffer) (start : ℕ) (out : Option Buffer) (cap : ℕ) (r : Reply)
    : Type 0 where
  pub short : word32 m (start + 56) < 32 → r.len ≡ 0
  pub long : 32 ≤ word32 m (start + 56) → r.len + 32 ≡ word32 m (start + 56)
  pub result : r.result ≡ word32 m (start + 64)
  pub payload : IsPayload m (start + 80) r.len cap out r.out

reply_copy-IsPayload :
    (m : Buffer) (p len cap : ℕ) (out : Option Buffer)
    → IsPayload m p len cap out (reply_copy m p out (if ltb len cap then len else cap))
unfolding reply_copy
reply_copy-IsPayload m p len cap none = no_buffer
reply_copy-IsPayload m p len cap (some out) =
    let n = if ltb len cap then len else cap in
    filled
      (λ j inside fits.
        let at : 0 + j ≡ j = omega arith in
        ap (byte (fill out 0 (λ i. byte m (p + i)) n 0)) (sym at)
        ∙ byte-fill 0 (λ i. byte m (p + i)) out n 0 j (omega arith) (ground (arith, inside, fits))
        ∙ omega arith)
      (λ j h. byte-fill_outside 0 (λ i. byte m (p + i)) out n 0 j (inr (ground (arith, h))))

pub reply_at-IsReply :
    (m : Buffer) (lay : ShmLayout) (slot : ℕ) (out : Option Buffer) (cap : ℕ)
    → IsReply m (start_of lay slot) out cap (reply_at m lay slot out cap)
unfolding reply_at message_payload message_result message_at element_at
reply_at-IsReply m lay slot out cap = record {
  short = λ h. ground (arith, h);
  long = λ h. ground (arith, h);
  result = refl;
  payload = reply_copy-IsPayload m (start_of lay slot + 80) _ cap out;
}
