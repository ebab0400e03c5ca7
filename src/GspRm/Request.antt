-- ===== src/GspRm/Request.antt =====
-- What the GSP finds in the queue when an object is allocated or gets a command.
use rtxmac_oc.Base.{ℕ, ◌+◌, ◌-◌, ◌*◌, ◌%◌, ◌^◌, ◌≤◌, ◌<◌, ◌≡◌, refl, sym, ap, ◌∙◌, arith}
use rtxmac_oc.Base.{◌⊎◌, inl, inr, ltb, Bool-cases, err, List, [], ◌∷◌, length}
use rtxmac_oc.Base.{get_or, Option, some, Result}
use rtxmac_oc.Bytes.Defs.{Buffer, byte, word32}
use rtxmac_oc.Bytes.Words.{word32-eq}
use rtxmac_oc.Bytes.Stores.{put_words, byte-put_words, word32-put_words}
use rtxmac_oc.Bytes.Fill.{byte-fill}
use rtxmac_oc.GspRpc.Defs.{zero_bytes, copy_payload, element_at}
use rtxmac_oc.GspRpc.Message.{IsMessage, payload_byte, word32-same, payload_outside}
use rtxmac_oc.GspRpc.Message.{payload_inside}
use rtxmac_oc.GspRm.Channel.{bounds, Gsp, Channel, Error, carry, ring, receive, receive_rounds}
use rtxmac_oc.GspRm.Channel.{rpc_call}
use rtxmac_oc.GspRm.Send.{IsSent, send-IsSent}
use rtxmac_oc.GspRm.Object.{
  Scratch, Answer, accept, alloc_request, control_request, after_call, rm_alloc, rm_control,
}

-- A header of the given words, and `hdr` bytes from its start the caller's parameters.
pub record IsRequest (m : Buffer) (at : ℕ) (words : List ℕ) (hdr : ℕ) (params : Option Buffer)
    (params_len : ℕ) : Type 0 where
  pub header : (i : ℕ) → i < length words → word32 m (at + 4 * i) ≡ get_or words i 0 % 2 ^ 32
  pub carried : (j : ℕ) → j < params_len → byte m (at + (hdr + j)) ≡ payload_byte params j

module _ (req : Buffer) (words : List ℕ) (hdr : ℕ) (params : Option Buffer) (params_len : ℕ) where
  abbrev headed : Buffer
  headed = put_words (zero_bytes req 0 (hdr + params_len)) 0 words

  cleared : (x : ℕ) → x < hdr + params_len → byte (zero_bytes req 0 (hdr + params_len)) x ≡ 0
  unfolding zero_bytes
  cleared x h =
      let at : 0 + x ≡ x = omega arith in
      rw (ap (byte (zero_bytes req 0 (hdr + params_len))) (sym at))
        (byte-fill 0 (λ i. 0) req (hdr + params_len) 0 x (omega arith) (omega (arith, h)))

  built-IsRequest :
      4 * length words ≤ hdr
      → IsRequest (copy_payload headed hdr params params_len) 0 words hdr params params_len
  built-IsRequest room = record {
    header = λ i h.
        word32-same headed (copy_payload headed hdr params params_len) (0 + 4 * i) (λ y low high.
          payload_outside headed hdr params_len params y (inl (omega (arith, high, h, room))))
        ∙ word32-put_words (zero_bytes req 0 (hdr + params_len)) 0 words i h;
    carried = λ j h.
        let plain : 0 + (hdr + j) ≡ hdr + j = omega arith in
        rw plain (
          payload_inside headed hdr params_len params j h (
            byte-put_words (zero_bytes req 0 (hdr + params_len)) 0 words (hdr + j)
              (inr (omega (arith, room)))
            ∙ cleared (hdr + j) (omega (arith, h))));
  }

pub word32-moved :
    (m m' : Buffer) (p q : ℕ)
    → ((y : ℕ) → y < 4 → byte m (p + y) ≡ byte m' (q + y))
    → word32 m p ≡ word32 m' q
word32-moved m m' p q h =
    let first : byte m p ≡ byte m' q =
      let at : p + 0 ≡ p = omega arith in
      let at' : q + 0 ≡ q = omega arith in rw (← at, ← at') (h 0 (omega arith)) in
    omega (
      arith,
      word32-eq m p,
      word32-eq m' q,
      first,
      h 1 (omega arith),
      h 2 (omega arith),
      h 3 (omega arith),
    )

-- A request in the payload of a message stands 80 bytes behind the message's start.
message-IsRequest :
    (cmdq : Buffer) (e total seq function : ℕ) (req : Buffer) (len : ℕ) (m : Buffer)
    (words : List ℕ) (hdr : ℕ) (params : Option Buffer) (params_len : ℕ)
    → IsMessage cmdq e total seq function (some req) len m
    → 4 * length words ≤ hdr
    → hdr + params_len ≡ len
    → IsRequest req 0 words hdr params params_len
    → IsRequest m (e + 80) words hdr params params_len
message-IsRequest cmdq e total seq function req len m words hdr params params_len message room whole
      r =
    let same : (x : ℕ) → x < len → byte m (e + 80 + x) ≡ byte req x =
      λ x h. let at : e + (80 + x) ≡ e + 80 + x = omega arith in rw (← at) (message.carried x h) in
    record {
      header = λ i h.
          let plain : 0 + 4 * i ≡ 4 * i = omega arith in
          word32-moved m req (e + 80 + 4 * i) (4 * i) (λ y few.
            let at : e + 80 + 4 * i + y ≡ e + 80 + (4 * i + y) = omega arith in
            rw at (same (4 * i + y) (omega (arith, few, h, room, whole))))
          ∙ rw (← plain) (r.header i h);
      carried = λ j h.
          same (hdr + j) (omega (arith, h, whole))
          ∙ (let plain : 0 + (hdr + j) ≡ hdr + j = omega arith in rw (← plain) (r.carried j h));
    }

module _ (req : Buffer) (params : Option Buffer) (params_len : ℕ) where
  abbrev alloc_words : ℕ → ℕ → ℕ → ℕ → List ℕ
  alloc_words h_client h_parent h_object h_class =
      h_client ∷ h_parent ∷ h_object ∷ h_class ∷ 0 ∷ params_len ∷ 0 ∷ []

  alloc_request-IsRequest :
      (h_client h_parent h_object h_class : ℕ)
      → IsRequest
          (alloc_request req h_client h_parent h_object h_class params params_len)
          0
          (alloc_words h_client h_parent h_object h_class)
          32
          params
          params_len
  unfolding alloc_request put_words
  alloc_request-IsRequest h_client h_parent h_object h_class =
      built-IsRequest req (alloc_words h_client h_parent h_object h_class) 32 params params_len
        (omega arith)

  abbrev control_words : ℕ → ℕ → ℕ → List ℕ
  control_words h_client h_object cmd = h_client ∷ h_object ∷ cmd ∷ 0 ∷ params_len ∷ 0 ∷ []

  control_request-IsRequest :
      (h_client h_object cmd : ℕ)
      → IsRequest
          (control_request req h_client h_object cmd params params_len)
          0
          (control_words h_client h_object cmd)
          24
          params
          params_len
  unfolding control_request put_words
  control_request-IsRequest h_client h_object cmd =
      built-IsRequest req (control_words h_client h_object cmd) 24 params params_len (omega arith)

module _ (gsp : Gsp) (held : Scratch) (ch : Channel gsp.State) where
  -- A call is a command in the queue with the given header and parameters, the doorbell, and the wait
  -- of four seconds for a message of its function, whose answer goes to `accepted`.
  pub record IsAsked (function : ℕ) (words : List ℕ) (hdr status_off : ℕ) (params : Option Buffer)
      (params_len : ℕ) (o : Option (Result Error Answer × Channel gsp.State)) : Type 0 where
    pub req : Buffer
    pub sent : Channel gsp.State
    pub command : IsSent function (some req) (hdr + params_len) ch sent
    pub request : IsRequest command.queue (element_at ch.cmdq_wptr + 80) words hdr params params_len
    pub awaited :
        o
        ≡ after_call gsp (accept hdr status_off params params_len) (
            receive gsp
              (receive_rounds gsp 4000000)
              function
              (some held.rep)
              (hdr + params_len)
              4000000
              0
              (ring gsp sent))

  module _ (params : Option Buffer) (params_len : ℕ) where
    sent-IsAsked :
        (function : ℕ) (words : List ℕ) (hdr status_off : ℕ) (req : Buffer)
        → hdr + params_len < 2 ^ 32 - 5000
        → 4 * length words ≤ hdr
        → 0 < ch.lay.msg_count
        → ch.lay.msg_count < 2 ^ 31
        → ch.cmdq_wptr < ch.lay.msg_count
        → IsRequest req 0 words hdr params params_len
        → IsAsked function words hdr status_off params params_len (
            after_call gsp (accept hdr status_off params params_len) (
              rpc_call gsp function
                (some req)
                (hdr + params_len)
                (some held.rep)
                (hdr + params_len)
                4000000
                ch))
    unfolding rpc_call carry
    sent-IsAsked function words hdr status_off req small room pos few at r =
        let s = send-IsSent gsp function (some req) (hdr + params_len) ch small pos few at in
        record {
          req = req;
          sent = s.0;
          command = s.2;
          request =
              message-IsRequest _ _ _ _ _ req (hdr + params_len) s.2.queue words hdr params
                params_len s.2.message room refl r;
          awaited = rw s.1 refl;
        }

    -- With the write pointer in a queue of fewer than 2^31 slots, nv_gsp_rm_alloc refuses more than
    -- 512 bytes of parameters, and otherwise leaves in the queue a message of function 103 whose
    -- payload is the header, with the four handles, and the parameters, rings, and waits for the
    -- answer; so does nv_gsp_rm_control with function 76 and up to 3584 bytes.
    pub rm_calls-IsAsked :
        (h_client h_parent h_object h_class cmd : ℕ)
        → 0 < ch.lay.msg_count
        → ch.lay.msg_count < 2 ^ 31
        → ch.cmdq_wptr < ch.lay.msg_count
        → (((512 < params_len)
              × (rm_alloc gsp held h_client h_parent h_object h_class params params_len ch
                  ≡ some (err bounds, ch)))
            ⊎ ((params_len ≤ 512)
                × IsAsked 103
                    (h_client ∷ h_parent ∷ h_object ∷ h_class ∷ 0 ∷ params_len ∷ 0 ∷ [])
                    32
                    16
                    params
                    params_len
                    (rm_alloc gsp held h_client h_parent h_object h_class params params_len ch)))
          × (((3584 < params_len)
                × (rm_control gsp held h_client h_object cmd params params_len ch
                    ≡ some (err bounds, ch)))
              ⊎ ((params_len ≤ 3584)
                  × IsAsked 76
                      (h_client ∷ h_object ∷ cmd ∷ 0 ∷ params_len ∷ 0 ∷ [])
                      24
                      12
                      params
                      params_len
                      (rm_control gsp held h_client h_object cmd params params_len ch)))
    unfolding rm_alloc rm_control
    rm_calls-IsAsked h_client h_parent h_object h_class cmd pos few at = (
      elim (Bool-cases (ltb 512 params_len)) [
        | inl big ↦ inl (ground (arith, big), rw big refl)
        | inr fits ↦ inr (
          ground (arith, fits),
          rw fits (
              sent-IsAsked 103 _ 32 16 _ (ground (arith, fits)) (omega arith) pos few at (
                alloc_request-IsRequest held.req params params_len h_client h_parent h_object
                  h_class)),
        )
      ],
      elim (Bool-cases (ltb 3584 params_len)) [
        | inl big ↦ inl (ground (arith, big), rw big refl)
        | inr fits ↦ inr (
          ground (arith, fits),
          rw fits (
              sent-IsAsked 76 _ 24 12 _ (ground (arith, fits)) (omega arith) pos few at
                (control_request-IsRequest held.req params params_len h_client h_object cmd)),
        )
      ],
    )
