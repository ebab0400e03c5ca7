-- ===== src/Gmmu/Card.antt =====
-- A card whose VRAM is a function and whose window is aimed by a number, for examples.
use rtxmac_oc.Base.{ℕ, ◌+◌, ◌-◌, ◌*◌, ◌%◌, ◌^◌, ◌<◌, ◌≡◌, refl, arith, ltb, leb, ◌&&◌, ◌==◌}
use rtxmac_oc.Base.{if◌then◌else◌, true, false}
use rtxmac_oc.Mmio.{Mmio}
use rtxmac_oc.Gmmu.Pramin.{Bus}
use rtxmac_oc.Gmmu.Window.{Window}

pub record Card : Type 0 where
  pub base : ℕ
  pub memory : ℕ → ℕ

pub card_wr : ℕ → ℕ → Card → Card
card_wr reg v s =
    if reg == 0x1700
    then record { base = v * 2 ^ 16; memory = s.memory }
    else if leb 0x700000 reg && ltb reg 0x800000
    then record {
      base = s.base;
      memory = λ x. if s.base + (reg - 0x700000) == x then v else s.memory x;
    }
    else s

abbrev pub card : Mmio
card = record {
  State = Card;
  rd = λ reg s. (s.memory (s.base + (reg - 0x700000)), s);
  wr = card_wr;
  udelay = λ n s. s;
}

pub card_store :
    (off v x : ℕ) (s : Card)
    → off < 2 ^ 20
    → (card_wr (0x700000 + off) v s).memory x ≡ (if s.base + off == x then v else s.memory x)
unfolding card_wr
card_store off v x s h =
    let no : (0x700000 + off == 0x1700) ≡ false = ground arith in
    let yes : (leb 0x700000 (0x700000 + off) && ltb (0x700000 + off) 0x800000) ≡ true =
      ground arith in
    let same : 0x700000 + off - 0x700000 ≡ off = omega arith in rw (no, yes, same) refl

pub card_store_keeps :
    (off v : ℕ) (s : Card) → off < 2 ^ 20 → (card_wr (0x700000 + off) v s).base ≡ s.base
unfolding card_wr
card_store_keeps off v s h =
    let no : (0x700000 + off == 0x1700) ≡ false = ground arith in
    let yes : (leb 0x700000 (0x700000 + off) && ltb (0x700000 + off) 0x800000) ≡ true =
      ground arith in
    rw (no, yes) refl

pub card_aim : (v : ℕ) (s : Card) → (card_wr 0x1700 v s).base ≡ v * 2 ^ 16
unfolding card_wr
card_aim v s = refl

pub card_aim_keeps : (v x : ℕ) (s : Card) → (card_wr 0x1700 v s).memory x ≡ s.memory x
unfolding card_wr
card_aim_keeps v x s = refl

abbrev pub card_window : Window card
card_window = record {
  vram = λ s. s.memory;
  aimed_at = λ s. s.base;
  aim_at = λ v s h. card_aim v s;
  aim_keeps = card_aim_keeps;
  store = λ off v x s h q hv hx. card_store off v x s h;
  store_keeps = card_store_keeps;
  load = λ off s h q. let same : 0x700000 + off - 0x700000 ≡ off = omega arith in rw same refl;
  load_keeps = λ off x s h. (refl, refl);
}

abbrev pub bus : Bus Card
bus = record { win_base = 2 ^ 64 - 1; dev = record { base = 0; memory = λ x. x % 7 } }
