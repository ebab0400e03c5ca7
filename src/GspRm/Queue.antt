-- ===== src/GspRm/Queue.antt =====
-- The loop over the messages between the two pointers of the status queue.
use rtxmac_oc.Base.{ℕ, zero, suc, ◌+◌, ◌-◌, ◌%◌, ◌^◌, ◌≤◌, ◌<◌, ◌≡◌, refl, arith}
use rtxmac_oc.Base.{◌||◌, if◌then◌else◌, ◌≢◌, inl, inr, leb, ltb, ◌==◌, Bool-cases}
use rtxmac_oc.Base.{true, false, ◌+32◌, Option, none, some, Result, ok, err}
use native.Mathlib.Nat.{mod-eq-sub-mod}
use native.Mathlib.Nat as Nat
use native.Mathlib.Decide.{ℕ_discrete}
use rtxmac_oc.Bytes.Defs.{Buffer, word32}
use rtxmac_oc.Bytes.Stores.{put32}
use rtxmac_oc.GspRpc.Defs.{element_at}
use rtxmac_oc.GspRm.Reply.{start_of, IsReply, reply_at-IsReply}
use rtxmac_oc.GspRm.Channel.{Channel, Error, Reply, bounds, carry, wrap, wrap_loop}
use rtxmac_oc.GspRm.Channel.{
  message_at, msgq_set_readptr, message_slots, message_function, reply_at, advance,
}
use rtxmac_oc.GspRm.Channel.{drain}

wrap_loop-eq :
    (count rounds x : ℕ) → 0 < count → x < rounds → wrap_loop count rounds x ≡ some (x % count)
unfolding wrap_loop
wrap_loop-eq count zero x pos h = elim h [ ]
wrap_loop-eq count (suc rounds) x pos h = elim (Bool-cases (leb count x)) [
  | inl big ↦
      let le : count ≤ x = ground (arith, big) in
      rw (big, mod-eq-sub-mod le)
        (wrap_loop-eq count rounds (x - count) pos (omega (arith, h, pos, le)))
  | inr small ↦ let lt : x < count = ground (arith, small) in rw (small, Nat.mod-eq_of_lt lt) refl
]

-- The subtraction loop is a remainder.
pub wrap-eq : (count x : ℕ) → 0 < count → wrap count x ≡ some (x % count)
unfolding wrap
wrap-eq count x pos = wrap_loop-eq count (suc x) x pos (omega arith)

module _ {State : Type 0} where
  -- The fields of the message that the channel reads: the slots at 40, 1 where the field is 0 or more
  -- than the queue has, and the function at 60.
  abbrev pub start : Channel State → ℕ
  start ch = start_of ch.lay ch.msgq_rptr

  abbrev pub slots : Channel State → ℕ
  slots ch =
      let count = word32 ch.shm (start ch + 40) in
      if (count == 0) || ltb ch.lay.msg_count count then 1 else count

  slots-bounds :
      (ch : Channel State) → 0 < ch.lay.msg_count → (1 ≤ slots ch) × (slots ch ≤ ch.lay.msg_count)
  slots-bounds ch pos = (ground arith, ground arith)

  -- The channel behind the message that it reads.
  unfoldable pub taken : Channel State → Channel State
  taken ch =
      let r = (ch.msgq_rptr + slots ch) % ch.lay.msg_count in
      record ch { shm = put32 ch.shm (ch.lay.msgq_off + 32) r; msgq_rptr = r }

  abbrev pub reads : Channel State → ℕ
  reads ch = word32 ch.shm (start ch + 60)

  -- Messages of other functions, up to the write pointer `w`, that were passed over.
  pub data Skipped (function w : ℕ) : Channel State → Channel State → Type 0 where
    skip_none : {ch : Channel State} → Skipped function w ch ch
    skip_event :
        {ch ch' : Channel State}
        → ch.msgq_rptr ≢ w
        → reads ch ≢ function
        → Skipped function w (taken ch) ch'
        → Skipped function w ch ch'

  -- The pointers are those of a queue of a size that 32-bit sums can take.
  pub record IsRing (ch : Channel State) : Type 0 where
    pub some_slots : 0 < ch.lay.msg_count
    pub few_slots : ch.lay.msg_count < 2 ^ 31
    pub inside : ch.msgq_rptr < ch.lay.msg_count

  -- From message to message the read pointer comes to `w` within the slots of the queue.
  unfoldable pub after : ℕ → Channel State → Channel State
  after zero ch = ch
  after (suc j) ch = after j (taken ch)

  taken-IsRing : (ch : Channel State) → IsRing ch → IsRing (taken ch)
  unfolding taken
  taken-IsRing ch r = record {
    some_slots = r.some_slots;
    few_slots = r.few_slots;
    inside = Nat.mod-lt _ r.some_slots;
  }

  advance-taken : (ch : Channel State) → IsRing ch → advance (slots ch) ch ≡ some (taken ch)
  unfolding advance carry taken msgq_set_readptr
  advance-taken ch r =
      let b = slots-bounds ch r.some_slots in
      let sum : ch.msgq_rptr +32 slots ch ≡ ch.msgq_rptr + slots ch =
        omega (arith, b.1, r.few_slots, r.inside) in
      rw (sum, wrap-eq ch.lay.msg_count (ch.msgq_rptr + slots ch) r.some_slots) refl

  module _ (function : ℕ) (out : Option Buffer) (cap w : ℕ) where
    -- How the loop ends: at the write pointer, with the first message of the function, or with that
    -- message running over the end of the queue.
    pub data Drained (ch : Channel State)
        : Option (Result Error Reply) × Channel State → Type 0 where
      emptied :
          {last : Channel State}
          → Skipped function w ch last
          → last.msgq_rptr ≡ w
          → Drained ch (none, last)
      answered :
          {last : Channel State} {reply : Reply}
          → Skipped function w ch last
          → last.msgq_rptr ≢ w
          → reads last ≡ function
          → last.msgq_rptr + slots last ≤ last.lay.msg_count
          → IsReply last.shm (start last) out cap reply
          → Drained ch (some (ok reply), taken last)
      broken :
          {last : Channel State}
          → Skipped function w ch last
          → last.msgq_rptr ≢ w
          → reads last ≡ function
          → last.lay.msg_count < last.msgq_rptr + slots last
          → Drained ch (some (err bounds), last)

    later :
        {ch : Channel State} {o : Option (Result Error Reply) × Channel State}
        → ch.msgq_rptr ≢ w
        → reads ch ≢ function
        → Drained (taken ch) o
        → Drained ch o
    later ne other (emptied s e) = emptied (skip_event ne other s) e
    later ne other (answered s e f b r) = answered (skip_event ne other s) e f b r
    later ne other (broken s e f b) = broken (skip_event ne other s) e f b

    leads_on :
        (j rounds : ℕ) (ch : Channel State)
        → (after j ch).msgq_rptr ≡ w
        → j < suc rounds
        → ch.msgq_rptr ≢ w
        → (i : ℕ) × (i < rounds) × ((after i (taken ch)).msgq_rptr ≡ w)
    unfolding after
    leads_on zero rounds ch e few ne = absurd (ne e)
    leads_on (suc i) rounds ch e few ne = (i, omega (arith, few), e)

    -- The loop ends if messages lead to the write pointer within its rounds.
    pub drain-Drained :
        (rounds j : ℕ) (ch : Channel State)
        → IsRing ch
        → (after j ch).msgq_rptr ≡ w
        → j < rounds
        → (o : Option (Result Error Reply) × Channel State) × (drain rounds function w out cap ch
            ≡ some o)
          × Drained ch o
    unfolding drain carry after message_slots message_function message_at element_at
    drain-Drained zero j ch ring leads few = elim few [ ]
    drain-Drained (suc rounds) j ch ring leads few = elim (ℕ_discrete ch.msgq_rptr w) [
      | yes e ↦ ((none, ch), rw e (ground arith), emptied skip_none e)
      | no ne ↦
          let ne' : (ch.msgq_rptr == w) ≡ false = ground (arith, ne) in
          elim (ℕ_discrete (reads ch) function) [
            | yes f ↦
                let f' : (reads ch == function) ≡ true = ground (arith, f) in
                let b = slots-bounds ch ring.some_slots in
                let sum : ch.msgq_rptr +32 slots ch ≡ ch.msgq_rptr + slots ch =
                  omega (arith, b.1, ring.few_slots, ring.inside) in
                elim (Bool-cases (ltb ch.lay.msg_count (ch.msgq_rptr + slots ch))) [
                  | inl over ↦ (
                    (some (err bounds), ch),
                    rw (ne', f', sum, over) refl,
                    broken skip_none ne f (ground (arith, over)),
                  )
                  | inr fits ↦ (
                    (some (ok (reply_at ch.shm ch.lay ch.msgq_rptr out cap)), taken ch),
                    rw (ne', f', sum, fits, advance-taken ch ring) refl,
                    answered skip_none ne f (ground (arith, fits))
                        (reply_at-IsReply ch.shm ch.lay ch.msgq_rptr out cap),
                  )
                ]
            | no other ↦
                let f' : (reads ch == function) ≡ false = ground (arith, other) in
                let l = leads_on j rounds ch leads few ne in
                let rest = drain-Drained rounds l.0 (taken ch) (taken-IsRing ch ring) l.2 l.1 in
                (rest.0, rw (ne', f', advance-taken ch ring) rest.1, later ne other rest.2)
          ]
    ]
