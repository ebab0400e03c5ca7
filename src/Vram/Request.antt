-- ===== src/Vram/Request.antt =====
-- `nv_vram_alloc` as its caller sees it.
use rtxmac_oc.Base.{ℕ, ◌+◌, ◌-◌, ◌^◌, ◌≤◌, ◌<◌, ◌≡◌, ◌≢◌, refl, arith, ◌⊎◌, inl, inr, All, ap, ◌∙◌}
use rtxmac_oc.Base.{List, [], ◌∷◌, ◌++◌, length, set, some, none, ◌==◌, Bool-cases, suc}
use rtxmac_oc.Base.{Result, ok, err, sym}
use mathlib.Core.Path.{subst}
use rtxmac_oc.Base.Bits.Align.{RoundsUp}
use rtxmac_oc.Vram.Defs.{Pool, Allocation, Error, no_space, invalid, page_bytes}
use rtxmac_oc.Vram.Pool.{alloc, take_slot, free_slot_from}
use rtxmac_oc.Vram.AlignUp.{IsAlignment}
use rtxmac_oc.Vram.Places.{alignment_valid_of_power}
use rtxmac_oc.Vram.Search.{IsLowest}
use rtxmac_oc.Vram.Invariant.{IsPool, free_slot_from-suc}
use rtxmac_oc.Vram.Offset.{IsGap}
use rtxmac_oc.Vram.Alloc.{take_slot-IsPool}
use rtxmac_oc.Vram.Taken.{IsTaken, AllocCase, alloc_cases}

-- A slot without a handle is free; in a full list there is none.
abbrev pub IsFull : List Allocation → Type 0
IsFull l = All (λ (a : Allocation). a.handle ≢ 0) l

-- The first free slot of a list is the `i`-th, where `v` is put.
record IsFirstFree (l : List Allocation) (v : Allocation) (i : ℕ) : Type 0 where
  before : List Allocation
  after : List Allocation
  slot : Allocation
  split : l ≡ before ++ slot ∷ after
  empty : slot.handle ≡ 0
  full : IsFull before
  stored : set l i v ≡ before ++ v ∷ after

behind_used :
    (a : Allocation) (l : List Allocation) (v : Allocation) (i : ℕ)
    → a.handle ≢ 0
    → IsFirstFree l v i
    → IsFirstFree (a ∷ l) v (suc i)
behind_used a l v i used f = record {
  before = a ∷ f.before;
  after = f.after;
  slot = f.slot;
  split = ap (λ l'. a ∷ l') f.split;
  empty = f.empty;
  full = (used, f.full);
  stored = ap (λ l'. a ∷ l') f.stored;
}

first_free :
    (l : List Allocation) (v : Allocation)
    → free_slot_from l 0 ≢ length l
    → IsFirstFree l v (free_slot_from l 0)
unfolding free_slot_from
first_free [] v ne = absurd (ne refl)
first_free (a ∷ rest) v ne = elim (Bool-cases (a.handle == 0)) [
  | inl e ↦
      rw (e, free_slot_from)
        (record {
          before = [];
          after = rest;
          slot = a;
          split = refl;
          empty = ground (arith, e);
          full = tt;
          stored = refl;
        })
  | inr e ↦
      let next : free_slot_from rest 1 ≡ suc (free_slot_from rest 0) =
        omega (arith, free_slot_from-suc rest 0) in
      let later = first_free rest v (λ q. ne (rw (e, free_slot_from, next) (omega (arith, q)))) in
      rw (e, free_slot_from, next)
        (behind_used a rest v (free_slot_from rest 0) (ground (arith, e)) later)
]

none_free : (l : List Allocation) → free_slot_from l 0 ≡ length l → IsFull l
unfolding free_slot_from
none_free [] e = tt
none_free (a ∷ rest) e = elim (Bool-cases (a.handle == 0)) [
  | inl z ↦ let no = rw (z, free_slot_from) at e in absurd (omega (arith, no))
  | inr used ↦
      let next : free_slot_from rest 1 ≡ suc (free_slot_from rest 0) =
        omega (arith, free_slot_from-suc rest 0) in
      let more = rw (used, free_slot_from, next) at e in
      (ground (arith, used), none_free rest (omega (arith, more)))
]

-- What a successful call found and stored: the lowest gap, under the next handle, in the first free
-- slot; the bytes are charged to the pool, and nothing else changes.
pub record IsAllocated (p : Pool) (bytes alignment handle : ℕ) (p' : Pool) : Type 0 where
  pub request : IsAlignment alignment
  pub rounded : ℕ
  pub rounds : RoundsUp page_bytes bytes rounded
  pub positive : 0 < bytes
  pub offset : ℕ
  pub lowest : IsLowest (IsGap p rounded alignment) 0 (some offset)
  pub room : p.used + rounded ≤ p.size
  pub named : handle ≡ p.next_handle
  pub handles : (handle < 2 ^ 64 - 1) × (p'.next_handle ≡ handle + 1)
  pub charged : p'.used ≡ p.used + rounded
  pub place : (p'.phys ≡ p.phys) × (p'.va ≡ p.va) × (p'.size ≡ p.size)
  pub before : List Allocation
  pub after : List Allocation
  pub slot : Allocation
  pub first : (p.allocations ≡ before ++ slot ∷ after) × (slot.handle ≡ 0) × IsFull before
  pub stored :
      p'.allocations ≡ before ++ record { handle = handle; offset = offset; size = rounded } ∷ after

-- Why whole pages are refused: no handle, no budget, no free slot or no gap.
abbrev pub IsRefused : Pool → ℕ → ℕ → Type 0
IsRefused p rounded alignment =
    (p.next_handle ≡ 2 ^ 64 - 1)
    ⊎ ((p.size < p.used + rounded)
        ⊎ (IsFull p.allocations ⊎ IsLowest (IsGap p rounded alignment) 0 none))

-- What `nv_vram_alloc` may return.
abbrev pub IsOutcome : Pool → ℕ → ℕ → Result Error (ℕ × Pool) → Type 0
IsOutcome p bytes alignment (ok r) = IsAllocated p bytes alignment r.0 r.1
IsOutcome p bytes alignment (err no_space) =
    (rounded : ℕ) × RoundsUp page_bytes bytes rounded × IsRefused p rounded alignment
IsOutcome p bytes alignment (err invalid) =
    (bytes ≡ 0) ⊎ ((¬ IsAlignment alignment) ⊎ (2 ^ 64 < bytes + page_bytes))

taken-IsAllocated :
    (p : Pool) (bytes alignment handle : ℕ) (p' : Pool)
    → IsPool p
    → IsTaken p bytes alignment handle p'
    → IsAllocated p bytes alignment handle p'
unfolding take_slot
taken-IsAllocated p bytes alignment handle p' inv t =
    let v : Allocation = record { handle = p.next_handle; offset = t.offset; size = t.rounded } in
    let f = first_free p.allocations v (λ q. t.slot (q ∙ inv.slots)) in
    subst (λ (r : ℕ × Pool). IsAllocated p bytes alignment r.0 r.1) (sym t.stored)
      (record {
        request = t.request;
        rounded = t.rounded;
        rounds = t.rounds;
        positive = t.positive;
        offset = t.offset;
        lowest = t.lowest;
        room = t.room;
        named = refl;
        handles = (t.handles, omega (arith, t.handles));
        charged = omega (arith, t.room, inv.va_word);
        place = (refl, refl, refl);
        before = f.before;
        after = f.after;
        slot = f.slot;
        first = (f.split, f.empty, f.full);
        stored = f.stored;
      })

case-IsOutcome :
    (p : Pool) (bytes alignment : ℕ) (r : Result Error (ℕ × Pool))
    → IsPool p
    → AllocCase p bytes alignment r
    → IsOutcome p bytes alignment r
case-IsOutcome p bytes alignment (ok r) inv h = taken-IsAllocated p bytes alignment r.0 r.1 inv h
case-IsOutcome p bytes alignment (err no_space) inv (rounded, rounds, why) = (
  rounded,
  rounds,
  elim why [
    | inl last ↦ inl last
    | inr (inl spent) ↦ inr (inl spent)
    | inr (inr (inl full)) ↦ inr (inr (inl (none_free p.allocations (full ∙ sym inv.slots))))
    | inr (inr (inr gap)) ↦ inr (inr (inr gap))
  ],
)
case-IsOutcome p bytes alignment (err invalid) inv h = elim h [
  | inl nothing ↦ inl nothing
  | inr (inl bad) ↦ inr (inl (λ al. let good = alignment_valid_of_power alignment al in cc))
  | inr (inr big) ↦ inr (inr big)
]

-- On a pool that meets the invariant and any 64-bit size and alignment, nv_vram_alloc either allocates
-- the lowest aligned gap for the size rounded up to pages under the next handle, stores it in the
-- first free slot, counts its bytes as used and changes nothing else; or reports no space when
-- handles, budget, slots or gaps have run out; or refuses an empty request, an alignment that is not a
-- power of two of a page at least, or a size that does not round up to a word.
pub alloc-IsOutcome :
    (p : Pool) (bytes alignment : ℕ)
    → IsPool p
    → bytes < 2 ^ 64
    → alignment < 2 ^ 64
    → IsOutcome p bytes alignment (alloc p bytes alignment)
alloc-IsOutcome p bytes alignment inv wb wa =
    case-IsOutcome p bytes alignment (alloc p bytes alignment) inv
      (alloc_cases p bytes alignment inv wb wa)

-- A successful call leaves a pool that keeps the invariant.
pub alloc-IsPool :
    (p : Pool) (bytes alignment : ℕ) {handle : ℕ} {p' : Pool}
    → IsPool p
    → bytes < 2 ^ 64
    → alignment < 2 ^ 64
    → alloc p bytes alignment ≡ ok (handle, p')
    → IsPool p'
alloc-IsPool p bytes alignment {handle} {p'} inv wb wa e =
    let out : IsTaken p bytes alignment handle p' =
      rw e at (alloc_cases p bytes alignment inv wb wa) in
    subst (λ (r : ℕ × Pool). IsPool r.1) (sym out.stored)
      (take_slot-IsPool p out.rounded alignment inv out.request out.offset out.lowest.0
        (omega (arith, out.positive, out.rounds.above)) out.rounds.aligned out.handles out.room
        out.slot)
