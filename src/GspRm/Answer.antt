-- ===== src/GspRm/Answer.antt =====
-- What the caller of a resource manager call gets from the answer in the queue.
use rtxmac_oc.Base.{ℕ, ◌+◌, ◌-◌, ◌≤◌, ◌<◌, ◌≡◌, refl, sym, ap, ◌∙◌, arith}
use rtxmac_oc.Base.{◌≢◌, ◌⊎◌, inl, inr, ltb, ◌==◌, true, false, ◌*◌, if◌then◌else◌, Bool-cases}
use rtxmac_oc.Base.{some, Result, ok, err}
use rtxmac_oc.Bytes.Defs.{Buffer, byte, word32}
use rtxmac_oc.Bytes.Fill.{fill, byte-fill, byte-fill_outside}
use native.Mathlib.Decide.{dec_lt}
use rtxmac_oc.GspRpc.Defs.{ShmLayout, element_at}
use rtxmac_oc.GspRm.Channel.{Error, bounds, reply_at, reply_copy, message_at, message_payload}
use rtxmac_oc.GspRm.Channel.{message_result}
use rtxmac_oc.GspRm.Request.{word32-moved}
use rtxmac_oc.GspRm.Object.{Answer, accept, received, returned}

-- What the caller's buffer holds after an answer whose payload at `p` has `plen` bytes: the bytes
-- behind the header, as far as both reach, then what it held.
pub record IsReturned (m : Buffer) (p plen hdr : ℕ) (params : Buffer) (params_len : ℕ)
    (after : Buffer) : Type 0 where
  pub copied : (j : ℕ) → j < params_len → hdr + j < plen → byte after j ≡ byte m (p + (hdr + j))
  pub kept : (j : ℕ) → (params_len ≤ j) ⊎ (plen ≤ hdr + j) → byte after j ≡ byte params j

module _ (m : Buffer) (p plen hdr params_len : ℕ) (old params : Buffer) where
  abbrev copied_len : ℕ
  copied_len = if ltb plen (hdr + params_len) then plen else hdr + params_len

  abbrev reply : Buffer
  reply = fill old 0 (λ i. byte m (p + i)) copied_len 0

  byte-reply : (x : ℕ) → x < plen → x < hdr + params_len → byte reply x ≡ byte m (p + x)
  byte-reply x inside fits =
      let at : 0 + x ≡ x = omega arith in
      rw (ap (byte reply) (sym at)) (
        byte-fill 0 (λ i. byte m (p + i)) old copied_len 0 x (omega arith)
          (ground (arith, inside, fits))
        ∙ omega arith)

  abbrev back_len : ℕ
  back_len = if ltb params_len (plen - hdr) then params_len else plen - hdr

  reply-IsReturned :
      hdr ≤ plen
      → IsReturned m p plen hdr params params_len
          (fill params 0 (λ i. byte reply (hdr + i)) back_len 0)
  reply-IsReturned whole = record {
    copied = λ j few inside.
        let at : 0 + j ≡ j = omega arith in
        rw (ap (byte (fill params 0 (λ i. byte reply (hdr + i)) back_len 0)) (sym at)) (
          byte-fill 0 (λ i. byte reply (hdr + i)) params back_len 0 j (omega arith)
            (ground (arith, few, inside))
          ∙ (let b = byte-reply (hdr + j) inside (omega (arith, few)) in omega (arith, b)));
    kept = λ j h.
        byte-fill_outside 0 (λ i. byte reply (hdr + i)) params back_len 0 j
          (inr (ground (arith, h)));
  }

module _ (m : Buffer) (lay : ShmLayout) (slot hdr status_off params_len : ℕ)
    (old params : Buffer) where
  -- The message of the slot, its length field at 56, its result at 64, and its payload.
  abbrev start : ℕ
  start = lay.msgq_off + (slot + 1) * 4096

  abbrev length_field : ℕ
  length_field = word32 m (start + 56)

  abbrev result_field : ℕ
  result_field = word32 m (start + 64)

  abbrev payload : ℕ
  payload = start + 80

  start-eq : message_at lay slot ≡ start
  unfolding message_at element_at
  start-eq = omega arith

  result-eq : message_result m lay slot ≡ result_field
  unfolding message_result
  result-eq = rw start-eq refl

  payload-eq : 32 ≤ length_field → message_payload m lay slot ≡ length_field - 32
  unfolding message_payload
  payload-eq long = rw start-eq (ground (arith, long))

  payload-short : length_field < 32 → message_payload m lay slot ≡ 0
  unfolding message_payload
  payload-short short = rw start-eq (ground (arith, short))

  abbrev accepted : Result Error Answer
  accepted =
      accept hdr status_off (some params) params_len
        (ok (reply_at m lay slot (some old) (hdr + params_len)))

  status_moved :
      (plen : ℕ)
      → status_off + 4 ≤ hdr
      → hdr ≤ plen
      → word32 (reply m payload plen hdr params_len old params) status_off
        ≡ word32 m (payload + status_off)
  status_moved plen room whole = word32-moved _ m status_off (payload + status_off) λ y few.
      let at : payload + status_off + y ≡ payload + (status_off + y) = omega arith in
      rw at (
        byte-reply m payload plen hdr params_len old params (status_off + y)
          (omega (arith, room, whole, few)) (omega (arith, room, few)))

  -- Whether a payload of this length is long enough, in terms of the length field.
  long_cases :
      4 ≤ hdr
      → ((length_field < 32 + hdr) × (ltb (message_payload m lay slot) hdr ≡ true))
        ⊎ ((32 + hdr ≤ length_field)
            × (message_payload m lay slot ≡ length_field - 32)
            × (ltb (length_field - 32) hdr ≡ false))
  long_cases some_header = elim (dec_lt length_field 32) [
    | yes short ↦
        let e = payload-short short in
        inl (omega (arith, short), rw e (ground (arith, some_header)))
    | no more ↦
        let e = payload-eq (omega (arith, more)) in
        elim (dec_lt length_field (32 + hdr)) [
          | yes short ↦ inl (short, rw e (ground (arith, short, more)))
          | no long ↦ inr (omega (arith, long), e, ground (arith, long))
        ]
  ]

  -- From an answer in the queue, rm_alloc and rm_control report an error when its result is not 0 or
  -- its length field does not cover the 32 bytes of the message's header and the header of the
  -- payload; otherwise the caller gets the status word of the payload, and in its parameters the bytes
  -- that the payload has behind the header, as far as both reach, all others unchanged.
  pub accept-IsReturned :
      status_off + 4 ≤ hdr
      → (((result_field ≢ 0) ⊎ (length_field < 32 + hdr)) × (accepted ≡ err bounds))
        ⊎ ((result_field ≡ 0)
            × (32 + hdr ≤ length_field)
            × (after : Buffer) × (accepted
                ≡ ok (record { status = word32 m (payload + status_off); params = some after }))
            × IsReturned m payload (length_field - 32) hdr params params_len after)
  unfolding accept reply_at reply_copy received returned
  accept-IsReturned room =
      let moved = start-eq in
      let good_result = result-eq in
      elim (Bool-cases (result_field == 0)) [
        | inr failed ↦ inl (inl (ground (arith, failed)), rw (good_result, failed) refl)
        | inl good ↦ elim (long_cases (omega (arith, room))) [
          | inl (less, short) ↦ inl (inr less, rw (good_result, good, short) refl)
          | inr (whole, len, long) ↦
              let enough : hdr ≤ length_field - 32 = omega (arith, whole) in
              inr (
                ground (arith, good),
                whole,
                _,
                rw
                    (
                      good_result,
                      good,
                      len,
                      long,
                      moved,
                      status_moved (length_field - 32) room enough,
                    )
                    refl,
                reply-IsReturned m payload (length_field - 32) hdr params_len old params enough,
              )
        ]
      ]
