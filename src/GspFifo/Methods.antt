-- ===== src/GspFifo/Methods.antt =====
-- How the hardware reads a pushbuffer of incrementing methods, and what registers an engine has then.
use rtxmac_oc.Base.{ℕ, zero, suc, ◌+◌, ◌*◌, ◌/◌, ◌%◌, ◌^◌, ◌==◌, ◌&&◌, if◌then◌else◌}
use rtxmac_oc.Base.{List, [], ◌∷◌}

-- A value that a method gets on a subchannel.
pub record Write : Type 0 where
  pub subch : ℕ
  pub mthd : ℕ
  pub value : ℕ

-- The fields of a header: opcode 31:29, count 28:16, subchannel 15:13, method / 4 in 11:0. A header is
-- followed by the values of consecutive methods; `left` of them are still to come. A word with another
-- opcode ends the reading.
unfoldable pub execute : ℕ → ℕ → ℕ → List ℕ → List Write
execute left subch mthd [] = []
execute zero subch mthd (header ∷ words) =
    let rest =
      execute (header / 2 ^ 16 % 2 ^ 13) (header / 2 ^ 13 % 2 ^ 3) (header % 2 ^ 12 * 4) words in
    if header / 2 ^ 29 == 1 then rest else []
execute (suc left) subch mthd (value ∷ words) =
    record { subch = subch; mthd = mthd; value = value } ∷ execute left subch (mthd + 4) words

unfoldable pub methods : List ℕ → List Write
methods words = execute 0 0 0 words

-- What a method of a subchannel was given last, before or by these writes.
unfoldable pub register : ℕ → ℕ → List Write → ℕ → ℕ
register subch mthd [] held = held
register subch mthd (w ∷ ws) held =
    register subch mthd ws (if (w.subch == subch) && (w.mthd == mthd) then w.value else held)

-- An address of two methods, the upper word first, of which the lower 17 bits count.
abbrev pub address : ℕ → ℕ → List Write → ℕ
address subch upper ws =
    register subch upper ws 0 % 2 ^ 17 * 2 ^ 32 + register subch (upper + 4) ws 0
