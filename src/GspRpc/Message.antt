-- ===== src/GspRpc/Message.antt =====
-- A command in the queue.
use rtxmac_oc.Base.{ℕ, ◌+◌, ◌-◌, ◌*◌, ◌/◌, ◌%◌, ◌^◌, ◌≤◌, ◌<◌, ◌≡◌, refl, sym, ap, ◌∙◌, arith}
use rtxmac_oc.Base.{◌⊎◌, inl, inr, List, [], ◌∷◌, get_or}
use rtxmac_oc.Base.{Option, none, some, ◌+32◌}
use rtxmac_oc.Base.Bits.Align.{bit_and-high}
use rtxmac_oc.Bytes.Defs.{Buffer, byte, word32}
use rtxmac_oc.Bytes.Words.{word32-eq}
use rtxmac_oc.Bytes.Stores.{
  put32, put_words, byte-put32, word32-put32_apart, byte-put_words, word32-put_words,
  word32-put_words_apart,
}
use rtxmac_oc.Bytes.Fill.{fill, byte-fill, byte-fill_outside}
use rtxmac_oc.GspRpc.Defs.{
  zero_bytes, rpc_length, round_up, element_size, element_at, copy_payload, write_element,
  sum_words, fold_sum, cmdq_write,
}
use rtxmac_oc.GspRpc.Checksum.{checked, xor_words, xor_words-checked}

round_up-eq :
    (k v : ℕ)
    → k ≤ 12
    → v + 2 ^ k ≤ 2 ^ 32
    → 1 ≤ 2 ^ k
    → 2 ^ k ≤ 2 ^ 12
    → round_up v (2 ^ k) ≡ v + (2 ^ k - 1) - (v + (2 ^ k - 1)) % 2 ^ k
unfolding round_up
round_up-eq k v hk room pos bound =
    let sum : v +32 (2 ^ k - 1) ≡ v + (2 ^ k - 1) = omega (arith, room, pos) in
    let mask : 2 ^ 32 - 1 - (2 ^ k - 1) ≡ 2 ^ 32 - 2 ^ k = omega (arith, pos, bound) in
    rw (sum, mask)
      (bit_and-high k 32 (v + (2 ^ k - 1)) (omega (arith, hk)) (omega (arith, room, pos)))

-- The pages that the header of 80 bytes and the payload, in whole words, take.
abbrev pub pages_for : ℕ → ℕ
pages_for len = (80 + (len + 7) / 8 * 8 + 4095) / 4096

element_size-eq : (len : ℕ) → len < 2 ^ 32 - 5000 → element_size len ≡ pages_for len * 4096
unfolding element_size rpc_length
element_size-eq len small =
    let plain : 32 +32 len ≡ 32 + len = omega (arith, small) in
    let inner =
      round_up-eq 3 (32 + len) (omega arith) (omega (arith, small)) (omega arith) (omega arith) in
    let words : round_up (32 + len) 8 ≡ 32 + (len + 7) / 8 * 8 = omega (arith, inner) in
    let header : 48 +32 (32 + (len + 7) / 8 * 8) ≡ 80 + (len + 7) / 8 * 8 = omega (arith, small) in
    let outer =
      round_up-eq 12 (80 + (len + 7) / 8 * 8) (omega arith) (omega (arith, small)) (omega arith)
        (omega arith) in
    rw (plain, words, header) (omega (arith, outer))

abbrev pub payload_byte : Option Buffer → ℕ → ℕ
payload_byte none j = 0
payload_byte (some payload) j = byte payload j

-- What a command that was written looks like: `e` is its place, `total` its size.
pub record IsMessage (cmdq : Buffer) (e total seq function : ℕ) (payload : Option Buffer) (len : ℕ)
    (m : Buffer) : Type 0 where
  pub sequence : word32 m (e + 36) ≡ seq % 2 ^ 32
  pub elements : word32 m (e + 40) ≡ total / 4096
  pub version : word32 m (e + 48) ≡ 0x03000000
  pub signature : word32 m (e + 52) ≡ 0x43505256
  pub rpc_len : word32 m (e + 56) ≡ 32 + len
  pub rpc_function : word32 m (e + 60) ≡ function % 2 ^ 32
  pub carried : (j : ℕ) → j < len → byte m (e + (80 + j)) ≡ payload_byte payload j
  pub padded : (x : ℕ) → e + 80 + len ≤ x → x < e + total → byte m x ≡ 0
  pub checksum : xor_words m e (total / 4) ≡ 0
  pub kept : (x : ℕ) → (x < e) ⊎ (e + total ≤ x) → byte m x ≡ byte cmdq x

pub word32-same :
    (m m' : Buffer) (x : ℕ)
    → ((y : ℕ) → x ≤ y → y < x + 4 → byte m' y ≡ byte m y)
    → word32 m' x ≡ word32 m x
unfolding word32
word32-same m m' x h =
    rw
      (
        h x (omega arith) (omega arith),
        h (x + 1) (omega arith) (omega arith),
        h (x + 2) (omega arith) (omega arith),
        h (x + 3) (omega arith) (omega arith),
      )
      refl

module _ (m : Buffer) (p n : ℕ) where
  pub payload_outside :
      (payload : Option Buffer) (x : ℕ)
      → (x < p) ⊎ (p + n ≤ x)
      → byte (copy_payload m p payload n) x ≡ byte m x
  unfolding copy_payload
  payload_outside none x h = refl
  payload_outside (some payload) x h =
      byte-fill_outside p (byte payload) m n 0 x (ground (arith, h))

  pub payload_inside :
      (payload : Option Buffer) (j : ℕ)
      → j < n
      → byte m (p + j) ≡ 0
      → byte (copy_payload m p payload n) (p + j) ≡ payload_byte payload j
  unfolding copy_payload
  payload_inside none j h clear = clear
  payload_inside (some payload) j h clear =
      byte-fill p (byte payload) m n 0 j (omega arith) (omega (arith, h)) ∙ omega arith

module _ (cmdq : Buffer) (e total seq function : ℕ) (payload : Option Buffer) (len : ℕ) where
  abbrev head_words : List ℕ
  head_words = seq ∷ total / 4096 ∷ []

  abbrev rpc_words : List ℕ
  rpc_words = 0x03000000 ∷ 0x43505256 ∷ rpc_length len ∷ function ∷ 0xffffffff ∷ 0xffffffff ∷ []

  abbrev started : Buffer
  started = put_words (zero_bytes cmdq e total) (e + 36) head_words

  abbrev headed : Buffer
  headed = put_words started (e + 48) rpc_words

  abbrev element : Buffer
  element = write_element cmdq e total seq function payload len

  element-eq : element ≡ copy_payload headed (e + 80) payload len
  unfolding write_element put_words
  element-eq = grind arith

  zero_inside : (x : ℕ) → e ≤ x → x < e + total → byte (zero_bytes cmdq e total) x ≡ 0
  unfolding zero_bytes
  zero_inside x low high =
      let at : e + (x - e) ≡ x = omega (arith, low) in
      sym (ap (byte (fill cmdq e (λ i. 0) total 0)) at)
      ∙ byte-fill e (λ i. 0) cmdq total 0 (x - e) (omega arith) (omega (arith, low, high))

  zero_outside :
      (x : ℕ) → (x < e) ⊎ (e + total ≤ x) → byte (zero_bytes cmdq e total) x ≡ byte cmdq x
  unfolding zero_bytes
  zero_outside x h = byte-fill_outside e (λ i. 0) cmdq total 0 x (ground (arith, h))

  -- Away from the fields, the element before its payload is the cleared one.
  headed_outside :
      (x : ℕ) → (x < e + 36) ⊎ (e + 72 ≤ x) → byte headed x ≡ byte (zero_bytes cmdq e total) x
  headed_outside x h =
      byte-put_words started (e + 48) rpc_words x (ground (arith, h))
      ∙ byte-put_words (zero_bytes cmdq e total) (e + 36) head_words x (ground (arith, h))

  -- A word before the payload is that of the headers, unless it is the checksum.
  abbrev summed : ℕ → Buffer
  summed d = put32 element (e + 32) d

  field :
      (d x : ℕ)
      → x + 4 ≤ e + 80
      → (x + 4 ≤ e + 32) ⊎ (e + 36 ≤ x)
      → word32 (summed d) x ≡ word32 headed x
  field d x before apart =
      word32-put32_apart element (e + 32) d x (ground (arith, apart))
      ∙ ap (λ b. word32 b x) element-eq
      ∙ word32-same headed (copy_payload headed (e + 80) payload len) x λ y low high.
        payload_outside headed (e + 80) len payload y (inl (omega (arith, before, high)))

  head_field :
      (d i : ℕ) → i < 2 → word32 (summed d) (e + 36 + 4 * i) ≡ get_or head_words i 0 % 2 ^ 32
  head_field d i h =
      field d (e + 36 + 4 * i) (omega (arith, h)) (inr (omega arith))
      ∙ word32-put_words_apart started (e + 48) rpc_words (e + 36 + 4 * i) (inl (omega (arith, h)))
      ∙ word32-put_words (zero_bytes cmdq e total) (e + 36) head_words i h

  rpc_field : (d i : ℕ) → i < 6 → word32 (summed d) (e + 48 + 4 * i) ≡ get_or rpc_words i 0 % 2 ^ 32
  rpc_field d i h =
      field d (e + 48 + 4 * i) (omega (arith, h)) (inr (omega arith))
      ∙ word32-put_words started (e + 48) rpc_words i h

  -- The element's bytes, with the checksum.
  body :
      (d x : ℕ)
      → (x < e + 32) ⊎ (e + 36 ≤ x)
      → byte (summed d) x ≡ byte (copy_payload headed (e + 80) payload len) x
  body d x apart =
      byte-put32 element (e + 32) d x (ground (arith, apart)) ∙ ap (λ b. byte b x) element-eq

  rest_outside :
      (d x : ℕ)
      → (x < e + 32) ⊎ (e + 80 + len ≤ x)
      → byte (summed d) x ≡ byte (zero_bytes cmdq e total) x
  rest_outside d x h =
      body d x (ground (arith, h))
      ∙ payload_outside headed (e + 80) len payload x (ground (arith, h))
      ∙ headed_outside x (ground (arith, h))

  field_empty : 80 + len ≤ total → word32 element (e + 32) ≡ 0
  field_empty room =
      let clear : (y : ℕ) → e + 32 ≤ y → y < e + 36 → byte element y ≡ 0 = λ y low high.
        ap (λ b. byte b y) element-eq
        ∙ payload_outside headed (e + 80) len payload y (inl (omega (arith, high)))
        ∙ headed_outside y (inl high)
        ∙ zero_inside y (omega (arith, low)) (omega (arith, high, room)) in
      omega (
        arith,
        word32-eq element (e + 32),
        clear (e + 32) (omega arith) (omega arith),
        clear (e + 32 + 1) (omega arith) (omega arith),
        clear (e + 32 + 2) (omega arith) (omega arith),
        clear (e + 32 + 3) (omega arith) (omega arith),
      )

  element-IsMessage :
      (pages : ℕ)
      → total ≡ pages * 4096
      → 80 + len ≤ total
      → total < 2 ^ 32
      → IsMessage cmdq e total seq function payload len
          (summed (fold_sum (sum_words element e ((total + 7) / 8) 0 0)))
  unfolding rpc_length
  element-IsMessage pages whole room small =
      let d = fold_sum (sum_words element e ((total + 7) / 8) 0 0) in
      let words32 : total / 4 ≡ (total + 7) / 8 * 2 = omega (arith, whole) in
      let at : (a k : ℕ) → e + (a + 4 * k) ≡ e + a + 4 * k = λ a k. omega arith in
      record {
        sequence = rw (at 36 0) (head_field d 0 (omega arith));
        elements = rw (at 36 1) (head_field d 1 (omega arith) ∙ omega (arith, small));
        version = rw (at 48 0) (rpc_field d 0 (omega arith));
        signature = rw (at 48 1) (rpc_field d 1 (omega arith));
        rpc_len = rw (at 48 2) (rpc_field d 2 (omega arith) ∙ omega (arith, room, small));
        rpc_function = rw (at 48 3) (rpc_field d 3 (omega arith));
        carried = λ j h.
            let at_j : e + (80 + j) ≡ e + 80 + j = omega arith in
            rw at_j (
              body d (e + 80 + j) (inr (omega arith))
              ∙ payload_inside headed (e + 80) len payload j h (
                  headed_outside (e + 80 + j) (inr (omega arith))
                  ∙ zero_inside (e + 80 + j) (omega arith) (omega (arith, h, room))));
        padded = λ x low high. rest_outside d x (inr low) ∙ zero_inside x (omega (arith, low)) high;
        checksum = rw words32 (
            xor_words-checked _ e ((total + 7) / 8)
              (checked element e ((total + 7) / 8) (omega (arith, room)) (field_empty room)));
        kept = λ x h. rest_outside d x (ground (arith, h, room)) ∙ zero_outside x h;
      }

-- For a payload of less than 2^32 - 5000 bytes, nv_gsp_cmdq_write takes the pages that the header and
-- the payload need, and leaves in the slot a message with the sequence number, the number of pages,
-- the function, the length and the payload given, padded with zeros, whose 32-bit words have the
-- exclusive or 0; every byte before and behind it is as it was.
pub cmdq_write-IsMessage :
    (cmdq : Buffer) (slot seq function : ℕ) (payload : Option Buffer) (len : ℕ)
    → len < 2 ^ 32 - 5000
    → ((cmdq_write cmdq slot seq function payload len).0 ≡ pages_for len)
      × IsMessage cmdq
          (element_at slot)
          (pages_for len * 4096)
          seq
          function
          payload
          len
          (cmdq_write cmdq slot seq function payload len).1
unfolding cmdq_write
cmdq_write-IsMessage cmdq slot seq function payload len small = rw (element_size-eq len small) (
  omega arith,
  element-IsMessage cmdq (element_at slot) (pages_for len * 4096) seq function payload len
      (pages_for len) refl (omega arith) (omega (arith, small)),
)
