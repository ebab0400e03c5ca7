-- ===== src/Vram/Safety.antt =====
-- What a client of the pool may rely on: bounds, separation, and fresh handles.
use rtxmac_oc.Base.{ℕ, zero, suc, ◌+◌, ◌^◌, ◌≤◌, ◌<◌, ◌≡◌, ◌≢◌, ◌∙◌, sym, refl, arith, ◌⊎◌}
use rtxmac_oc.Base.{none, some, List, [], ◌∷◌}
use rtxmac_oc.Base.{ok, All, get_elem?, set, length}
use rtxmac_oc.Base.Bits.Align.{IsAligned}
use mathlib.Core.Path.{ap, ap₂}
use native.Mathlib.Decide.{ℕ_discrete}
use rtxmac_oc.Vram.Defs.{Pool, Allocation}
use rtxmac_oc.Vram.Pool.{alloc, take_slot, resolve, find_handle, free_slot, free_slot_from}
use rtxmac_oc.Vram.Invariant.{IsPool, IsSlot, free_slot_from-get}
use rtxmac_oc.Vram.Taken.{IsTaken, alloc_cases}
use rtxmac_oc.Vram.Resolve.{resolve-IsResolved, find_handle-IsClear}

-- Resolved addresses stay inside the pool, physically and virtually, at the same distance from
-- its start.
pub resolve_bounds :
    (p : Pool) (handle offset bytes : ℕ) {r : ℕ × ℕ}
    → IsPool p
    → offset < 2 ^ 64
    → bytes < 2 ^ 64
    → resolve p handle offset bytes ≡ ok r
    → (p.phys ≤ r.0)
      × (r.0 + bytes ≤ p.phys + p.size)
      × (p.va ≤ r.1)
      × (r.1 + bytes ≤ p.va + p.size)
      × (r.0 + p.va ≡ r.1 + p.phys)
resolve_bounds p h o n inv wo wn e =
    let q = resolve-IsResolved p h o n inv wo wn e in
    omega (arith, q.inside, q.live.inside, q.phys, q.va)

-- The byte ranges that two different handles resolve to never meet.
pub resolve_disjoint :
    (p : Pool) (h k o m i n : ℕ) {r s : ℕ × ℕ}
    → IsPool p
    → o < 2 ^ 64
    → m < 2 ^ 64
    → i < 2 ^ 64
    → n < 2 ^ 64
    → h ≢ k
    → resolve p h o m ≡ ok r
    → resolve p k i n ≡ ok s
    → ((r.0 + m ≤ s.0) ⊎ (s.0 + n ≤ r.0)) × ((r.1 + m ≤ s.1) ⊎ (s.1 + n ≤ r.1))
resolve_disjoint p h k o m i n inv wo wm wi wn ne e f =
    let q = resolve-IsResolved p h o m inv wo wm e in
    let t = resolve-IsResolved p k i n inv wi wn f in
    ground (
      arith,
      find_handle-IsClear p.allocations h k inv.disjoint ne q.found t.found,
      q.inside,
      t.inside,
      q.live.named,
      t.live.named,
      q.phys,
      t.phys,
      q.va,
      t.va,
    )

-- Writing an allocation into a free slot: its handle is found, the others as before.
find_handle-set_self :
    (size n : ℕ) (l : List Allocation) (i : ℕ) (v : Allocation)
    → All (IsSlot size n) l
    → v.handle ≡ n
    → 0 < n
    → i < length l
    → find_handle (set l i v) n ≡ some v
unfolding find_handle
find_handle-set_self size n [] i v live e pos h = absurd (omega arith)
find_handle-set_self size n (x ∷ l) zero v live e pos h = ground arith
find_handle-set_self size n (x ∷ l) (suc i) v live e pos h =
    ground (arith, live.0, find_handle-set_self size n l i v live.1 e pos (omega arith))

find_handle-set_ne :
    (l : List Allocation) (i : ℕ) (v : Allocation) (k : ℕ)
    → get_elem? l i ≡ some free_slot
    → v.handle ≢ k
    → 0 < k
    → find_handle (set l i v) k ≡ find_handle l k
unfolding find_handle
find_handle-set_ne [] i v k e ne pos = refl
find_handle-set_ne (x ∷ l) zero v k e ne pos = ground arith
find_handle-set_ne (x ∷ l) (suc i) v k e ne pos =
    ground (arith, find_handle-set_ne l i v k e ne pos)

length_of_get {ℓ} :
    {A : Type ℓ} (l : List A) (i : ℕ) {a : A} → get_elem? l i ≡ some a → i < length l
length_of_get [] i e = cc
length_of_get (x ∷ l) zero e = omega arith
length_of_get (x ∷ l) (suc i) e = omega (arith, length_of_get l i e)

pub find_handle_fresh :
    (size n : ℕ) (l : List Allocation) → All (IsSlot size n) l → 0 < n → find_handle l n ≡ none
unfolding find_handle
find_handle_fresh size n [] live pos = refl
find_handle_fresh size n (x ∷ l) live pos =
    ground (arith, live.0, find_handle_fresh size n l live.1 pos)

module _ (p : Pool) (bytes alignment : ℕ) {handle : ℕ} {p' : Pool} (inv : IsPool p)
    (wb : bytes < 2 ^ 64) (wa : alignment < 2 ^ 64)
    (e : alloc p bytes alignment ≡ ok (handle, p')) where
  outcome : IsTaken p bytes alignment handle p'
  outcome = rw e at (alloc_cases p bytes alignment inv wb wa)

  chosen : Allocation
  chosen = record { handle = p.next_handle; offset = outcome.offset; size = outcome.rounded }

  slot_of : ℕ
  slot_of = free_slot_from p.allocations 0

  -- The pool after the call, field by field.
  after :
      (handle ≡ p.next_handle)
      × (p'.allocations ≡ set p.allocations slot_of chosen)
      × (p'.phys ≡ p.phys)
      × (p'.va ≡ p.va)
  unfolding take_slot slot_of chosen
  after =
      let f = outcome.stored in
      (ap (λ r. r.0) f, ap (λ r. r.1.allocations) f, ap (λ r. r.1.phys) f, ap (λ r. r.1.va) f)

  at_slot : get_elem? p.allocations slot_of ≡ some free_slot
  unfolding slot_of
  at_slot =
      free_slot_from-get p.allocations p.size p.next_handle inv.live
        (λ q. outcome.slot (q ∙ inv.slots))

  found : find_handle p'.allocations handle ≡ some chosen
  unfolding chosen
  found =
      ap₂ find_handle after.1 after.0
      ∙ find_handle-set_self p.size p.next_handle p.allocations slot_of chosen inv.live refl
          inv.handle_pos (length_of_get p.allocations slot_of at_slot)

  -- A new handle resolves, over all the bytes asked for, to one aligned place in the pool.
  pub resolve-alloc :
      (c : ℕ) × IsAligned alignment (p.va + c)
      × (c + bytes ≤ p.size)
      × ((offset n : ℕ)
          → 0 < n
          → offset + n ≤ bytes
          → resolve p' handle offset n ≡ ok (p.phys + c + offset, p.va + c + offset))
  unfolding resolve chosen
  resolve-alloc =
      let fits = outcome.lowest.0 in
      let big = outcome.rounds.above in
      (
        outcome.offset,
        fits.place.0,
        omega (arith, fits.inside, big),
        λ offset n pos h.
            rw found
              (ground (arith, after, inv.handle_pos, inv.phys_word, inv.va_word, fits.inside, big)),
      )

  -- The handle is new, and what the other handles resolve to does not change.
  pub alloc_fresh :
      (find_handle p.allocations handle ≡ none)
      × ((other offset n : ℕ)
          → other ≢ handle
          → resolve p' other offset n ≡ resolve p other offset n)
  unfolding resolve chosen
  alloc_fresh = (
    rw after.0 (find_handle_fresh p.size p.next_handle p.allocations inv.live inv.handle_pos),
    λ other offset n ne. elim (ℕ_discrete other 0) [
      | yes z ↦ ground arith
      | no pos ↦
          let same : find_handle p'.allocations other ≡ find_handle p.allocations other =
            rw after.1 (
              find_handle-set_ne p.allocations slot_of chosen other at_slot
                (λ q. ne (sym q ∙ sym after.0)) (omega arith)) in
          ground (arith, same, after)
    ],
  )
