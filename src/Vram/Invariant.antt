-- ===== src/Vram/Invariant.antt =====
-- What holds of every pool that the operations of vram.c make.
use rtxmac_oc.Base.{ℕ, zero, suc, ◌+◌, ◌%◌, ◌^◌, ◌≤◌, ◌<◌, ◌≡◌, ◌≢◌, refl, arith, ◌⊎◌, inl, inr}
use rtxmac_oc.Base.{some, List, [], ◌∷◌, All, length, set, get_elem?, ◌==◌, true, false, Bool-cases}
use rtxmac_oc.Vram.Defs.{Span, Allocation, Pool, max_allocs, scan, scan_slots}
use rtxmac_oc.Vram.Pool.{free_slot, free_slot_from}
use rtxmac_oc.Vram.FirstFit.{IsSpan, IsFree}

-- A slot is free and clear, or holds whole pages inside the pool under a handle given out before.
pub record IsLive (size next_handle : ℕ) (a : Allocation) : Type 0 where
  pub named : 0 < a.handle
  pub old : a.handle < next_handle
  pub positive : 0 < a.size
  pub pages : a.size % 4096 ≡ 0
  pub inside : a.offset + a.size ≤ size

abbrev pub IsSlot : ℕ → ℕ → Allocation → Type 0
IsSlot size next_handle a = (a ≡ free_slot) ⊎ IsLive size next_handle a

pub IsSlot-grow : (size n m : ℕ) (a : Allocation) → n ≤ m → IsSlot size n a → IsSlot size m a
IsSlot-grow size n m a le (inl e) = inl e
IsSlot-grow size n m a le (inr h) = inr (ground arith)

-- Two slots in use have different handles, and their bytes do not meet.
abbrev pub IsClear : Allocation → Allocation → Type 0
IsClear a b =
    (a.handle ≡ 0)
    ⊎ ((b.handle ≡ 0)
        ⊎ ((a.handle ≢ b.handle)
            × ((a.offset + a.size ≤ b.offset) ⊎ (b.offset + b.size ≤ a.offset))))

abbrev pub IsDisjoint : List Allocation → Type 0
IsDisjoint [] = Unit
IsDisjoint (a ∷ rest) = All (IsClear a) rest × IsDisjoint rest

unfoldable pub total : List Allocation → ℕ
total [] = 0
total (a ∷ rest) = a.size + total rest

pub record IsPool (p : Pool) : Type 0 where
  pub positive : 0 < p.size
  pub phys_word : p.phys + p.size < 2 ^ 64
  pub va_word : p.va + p.size < 2 ^ 64
  pub phys_pages : p.phys % 4096 ≡ 0
  pub va_pages : p.va % 4096 ≡ 0
  pub size_pages : p.size % 4096 ≡ 0
  pub handle_pos : 0 < p.next_handle
  pub handle_word : p.next_handle < 2 ^ 64
  pub slots : length p.allocations ≡ max_allocs
  pub live : All (IsSlot p.size p.next_handle) p.allocations
  pub disjoint : IsDisjoint p.allocations
  pub counted : p.used ≡ total p.allocations
  pub budget : p.used ≤ p.size

pub IsClear-symm : (a b : Allocation) → IsClear a b → IsClear b a
IsClear-symm a b h = grind arith

module _ {ℓ κ} {A : Type ℓ} (P : A → Type κ) where
  pub All-set : (l : List A) (i : ℕ) (v : A) → All P l → P v → All P (set l i v)
  All-set [] i v h p = tt
  All-set (x ∷ l) zero v h p = (p, h.1)
  All-set (x ∷ l) (suc i) v h p = (h.0, All-set l i v h.1 p)

pub All-map {ℓ κ μ} :
    {A : Type ℓ} {P : A → Type κ} {Q : A → Type μ} (l : List A)
    → ((a : A) → P a → Q a)
    → All P l
    → All Q l
All-map [] f h = tt
All-map (x ∷ l) f h = (f x h.0, All-map l f h.1)

pub IsDisjoint-set :
    (l : List Allocation) (i : ℕ) (v : Allocation)
    → IsDisjoint l
    → All (IsClear v) l
    → IsDisjoint (set l i v)
IsDisjoint-set [] i v h c = tt
IsDisjoint-set (x ∷ l) zero v h c = (c.1, h.1)
IsDisjoint-set (x ∷ l) (suc i) v h c =
    (All-set (IsClear x) l i v h.0 (IsClear-symm v x c.0), IsDisjoint-set l i v h.1 c.1)

pub total-set :
    (l : List Allocation) (i : ℕ) (v : Allocation) {a : Allocation}
    → get_elem? l i ≡ some a
    → total (set l i v) + a.size ≡ total l + v.size
unfolding total
total-set [] i v h = cc
total-set (x ∷ l) zero v {a} h = ground arith
total-set (x ∷ l) (suc i) v h = omega (arith, total-set l i v h)

-- The bytes in use, as spans of offsets.
pub live_spans : List Allocation → List Span
live_spans [] = []
live_spans (a ∷ rest) = elim (a.handle == 0) [
  | true ↦ live_spans rest
  | false ↦ record { base = a.offset; size = a.size } ∷ live_spans rest
]

pub scan_slots-eq-scan :
    (c bytes : ℕ) (l : List Allocation) (next : ℕ)
    → scan_slots c bytes l next ≡ scan c bytes (live_spans l) next
unfolding scan_slots scan live_spans
scan_slots-eq-scan c bytes [] next = refl
scan_slots-eq-scan c bytes (a ∷ rest) next = elim (Bool-cases (a.handle == 0)) [
  | inl e ↦ rw (e, live_spans) (scan_slots-eq-scan c bytes rest next)
  | inr e ↦ rw (e, live_spans) (scan_slots-eq-scan c bytes rest _)
]

pub live_spans-IsSpan :
    (size handle : ℕ) (l : List Allocation)
    → All (IsSlot size handle) l
    → All (IsSpan size) (live_spans l)
unfolding live_spans
live_spans-IsSpan size handle [] h = tt
live_spans-IsSpan size handle (a ∷ rest) h = elim (Bool-cases (a.handle == 0)) [
  | inl e ↦ rw (e, live_spans) (live_spans-IsSpan size handle rest h.1)
  | inr e ↦ rw (e, live_spans) (ground (arith, h.0), live_spans-IsSpan size handle rest h.1)
]

-- A free offset is clear of every slot, under a handle that no slot has.
pub IsClear-of_free :
    (size handle bytes c : ℕ) (l : List Allocation)
    → All (IsSlot size handle) l
    → IsFree bytes (live_spans l) c
    → All (IsClear (record { handle = handle; offset = c; size = bytes })) l
unfolding live_spans
IsClear-of_free size handle bytes c [] h f = tt
IsClear-of_free size handle bytes c (a ∷ rest) h f = elim (Bool-cases (a.handle == 0)) [
  | inl e ↦ (ground arith, IsClear-of_free size handle bytes c rest h.1 (rw (e, live_spans) at f))
  | inr e ↦
      let f' : IsFree bytes (record { base = a.offset; size = a.size } ∷ live_spans rest) c =
        rw (e, live_spans) at f in
      (ground (arith, f'.0, h.0), IsClear-of_free size handle bytes c rest h.1 f'.1)
]

pub free_slot_from-suc :
    (l : List Allocation) (k : ℕ) → free_slot_from l (k + 1) ≡ free_slot_from l k + 1
unfolding free_slot_from
free_slot_from-suc [] k = refl
free_slot_from-suc (a ∷ rest) k = ground (arith, free_slot_from-suc rest (k + 1))

-- The slot that the first loop of `nv_vram_alloc` stops at is free, unless it ran off the end.
pub free_slot_from-get :
    (l : List Allocation) (size handle : ℕ)
    → All (IsSlot size handle) l
    → free_slot_from l 0 ≢ length l
    → get_elem? l (free_slot_from l 0) ≡ some free_slot
unfolding free_slot_from
free_slot_from-get [] size handle h ne = absurd (ne refl)
free_slot_from-get (a ∷ rest) size handle h ne = elim (Bool-cases (a.handle == 0)) [
  | inl e ↦ rw (e, free_slot_from) (ground (arith, h.0))
  | inr e ↦
      let next : free_slot_from rest 1 ≡ suc (free_slot_from rest 0) =
        omega (arith, free_slot_from-suc rest 0) in
      rw (e, free_slot_from, next)
        (free_slot_from-get rest size handle h.1
          (λ q. ne (rw (e, free_slot_from, next) (omega (arith, q)))))
]
