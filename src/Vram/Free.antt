-- ===== src/Vram/Free.antt =====
-- `nv_vram_free`: it keeps the invariant, undoes an allocation, and leaves the other handles alone.
use rtxmac_oc.Base.{ℕ, zero, suc, ◌+◌, ◌^◌, ◌<◌, ◌≡◌, ◌≢◌, ◌∙◌, sym, refl, arith, inl, inr}
use rtxmac_oc.Base.{none, some, Option-cases, Bool-cases, ◌==◌, List, [], ◌∷◌, ap}
use rtxmac_oc.Base.{ok, err, All, get_elem?, set, length, some_inj, ◌-64◌}
use rtxmac_oc.Base.{==_iff}
use mathlib.Core.Path.{subst}
use rtxmac_oc.Vram.Defs.{Pool, Allocation, invalid}
use rtxmac_oc.Vram.Pool.{alloc, free, release, take_slot, resolve, find_handle, free_slot}
use rtxmac_oc.Vram.Pool.{free_slot_from}
use rtxmac_oc.Vram.Taken.{IsTaken, alloc_cases}
use rtxmac_oc.Vram.Safety.{find_handle_fresh}
use rtxmac_oc.Vram.Invariant.{free_slot_from-get}
use rtxmac_oc.Vram.Invariant.{IsPool, IsSlot, IsClear, IsDisjoint, total}

-- What the loop over the slots does when it meets the handle.
record IsReleased (l : List Allocation) (handle : ℕ) (r : ℕ × List Allocation) : Type 1 where
  given : total l ≡ r.0 + total r.1
  same_length : length r.1 ≡ length l
  keeps : (P : Allocation → Type 0) → All P l → P free_slot → All P r.1
  clear : IsDisjoint l → IsDisjoint r.1
  others : (k : ℕ) → 0 < k → k ≢ handle → find_handle r.1 k ≡ find_handle l k

free_slot-IsClear : (a : Allocation) → IsClear a free_slot
free_slot-IsClear a = inr (inl refl)

free_slots-IsClear : (l : List Allocation) → All (IsClear free_slot) l
free_slots-IsClear [] = tt
free_slots-IsClear (a ∷ l) = (inl refl, free_slots-IsClear l)

release-IsReleased :
    (l : List Allocation) (handle : ℕ) {r : ℕ × List Allocation}
    → release l handle ≡ some r
    → IsReleased l handle r
unfolding release total find_handle
release-IsReleased [] h e = cc
release-IsReleased (a ∷ l) h {r} e = elim (Bool-cases (a.handle == h)) [
  | inl q ↦
      let f : (a.size, free_slot ∷ l) ≡ r = some_inj (rw (q, release) at e) in
      subst (IsReleased (a ∷ l) h) f (record {
        given = omega arith;
        same_length = refl;
        keeps = λ P all p. (p, all.1);
        clear = λ d. (free_slots-IsClear l, d.1);
        others = λ k pos ne. ground arith;
      })
  | inr q ↦ elim (Option-cases (release l h)) [
    | inl n ↦ absurd (ground arith)
    | inr (s, n) ↦
        let f : (s.0, a ∷ s.1) ≡ r = ground arith in
        let ih = release-IsReleased l h n in
        subst (IsReleased (a ∷ l) h) f (record {
          given = omega (arith, ih.given);
          same_length = ap suc ih.same_length;
          keeps = λ P all p. (all.0, ih.keeps P all.1 p);
          clear = λ d. (ih.keeps (IsClear a) d.0 (free_slot-IsClear a), ih.clear d.1);
          others = λ k pos ne. ground (arith, ih.others k pos ne);
        })
  ]
]

-- `nv_vram_free` as its caller sees it: only a handle in use is accepted.
pub free-release :
    (p : Pool) (handle : ℕ) {p' : Pool}
    → free p handle ≡ ok p'
    → (r : ℕ × List Allocation) × (0 < handle)
      × (release p.allocations handle ≡ some r)
      × (p' ≡ record p { used = p.used -64 r.0; allocations = r.1 })
unfolding free
free-release p h e = elim (Option-cases (release p.allocations h)) [
  | inl n ↦ absurd (ground arith)
  | inr (r, n) ↦ (r, ground arith, n, ground arith)
]

-- A successful release leaves a pool that keeps the invariant.
pub free-IsPool : (p : Pool) (handle : ℕ) {p' : Pool} → IsPool p → free p handle ≡ ok p' → IsPool p'
free-IsPool p h inv e =
    let (r, pos, n, f) = free-release p h e in
    let rel = release-IsReleased p.allocations h n in
    subst IsPool (sym f) (record {
      positive = inv.positive;
      phys_word = inv.phys_word;
      va_word = inv.va_word;
      phys_pages = inv.phys_pages;
      va_pages = inv.va_pages;
      size_pages = inv.size_pages;
      handle_pos = inv.handle_pos;
      handle_word = inv.handle_word;
      slots = rel.same_length ∙ inv.slots;
      live = rel.keeps (IsSlot p.size p.next_handle) inv.live (inl refl);
      disjoint = rel.clear inv.disjoint;
      counted = omega (arith, rel.given, inv.counted, inv.budget, inv.va_word);
      budget = omega (arith, rel.given, inv.counted, inv.budget, inv.va_word);
    })

-- A release changes no address that another handle resolves to.
pub resolve-free_ne :
    (p : Pool) (handle other offset bytes : ℕ) {p' : Pool}
    → free p handle ≡ ok p'
    → other ≢ handle
    → resolve p' other offset bytes ≡ resolve p other offset bytes
unfolding resolve
resolve-free_ne p h k o n e ne =
    let (r, pos, q, f) = free-release p h e in
    let rel = release-IsReleased p.allocations h q in rw f (ground (arith, rel.others k))

not_found_of_clear :
    (a : Allocation) (l : List Allocation)
    → 0 < a.handle
    → All (IsClear a) l
    → find_handle l a.handle ≡ none
unfolding find_handle
not_found_of_clear a [] pos h = refl
not_found_of_clear a (b ∷ l) pos h = ground (arith, h.0, not_found_of_clear a l pos h.1)

release-not_found :
    (size n : ℕ) (l : List Allocation) (handle : ℕ) {r : ℕ × List Allocation}
    → All (IsSlot size n) l
    → IsDisjoint l
    → 0 < handle
    → release l handle ≡ some r
    → find_handle r.1 handle ≡ none
unfolding release find_handle
release-not_found size n [] h live d pos e = cc
release-not_found size n (a ∷ l) h {r} live d pos e = elim (Bool-cases (a.handle == h)) [
  | inl q ↦
      let same : a.handle ≡ h = (==_iff _ _).0 q in
      let none_left : find_handle l h ≡ none =
        subst (λ k. find_handle l k ≡ none) same (not_found_of_clear a l (rw same pos) d.0) in
      ground arith
  | inr q ↦ elim (Option-cases (release l h)) [
    | inl none_here ↦ absurd (ground arith)
    | inr (s, m) ↦ ground (arith, release-not_found size n l h live.1 d.1 pos m)
  ]
]

-- What has been stored and released again leaves the slots as they were.
release-set :
    (l : List Allocation) (i : ℕ) (v : Allocation)
    → get_elem? l i ≡ some free_slot
    → find_handle l v.handle ≡ none
    → 0 < v.handle
    → release (set l i v) v.handle ≡ some (v.size, l)
unfolding release find_handle
release-set [] i v e n pos = cc
release-set (a ∷ l) zero v e n pos = ground arith
release-set (a ∷ l) (suc i) v e n pos = ground (arith, release-set l i v e)

release_of_not_found :
    (l : List Allocation) (handle : ℕ) → find_handle l handle ≡ none → release l handle ≡ none
unfolding release find_handle
release_of_not_found [] h n = refl
release_of_not_found (a ∷ l) h n = elim (Bool-cases (a.handle == h)) [
  | inl q ↦ absurd (ground arith)
  | inr q ↦ ground (arith, release_of_not_found l h)
]

-- A handle that has been released resolves to nothing, and cannot be released again.
pub resolve-free_self :
    (p : Pool) (handle offset bytes : ℕ) {p' : Pool}
    → IsPool p
    → free p handle ≡ ok p'
    → (resolve p' handle offset bytes ≡ err invalid) × (free p' handle ≡ err invalid)
unfolding resolve free
resolve-free_self p h o n inv e =
    let (r, pos, q, f) = free-release p h e in
    let gone = release-not_found p.size p.next_handle p.allocations h inv.live inv.disjoint pos q in
    (rw f (ground (arith, gone)), rw f (ground (arith, release_of_not_found r.1 h gone)))

-- Releasing what was just allocated gives the pool back, but for the handle, which is used up.
pub free-alloc :
    (p : Pool) (bytes alignment : ℕ) {handle : ℕ} {p' : Pool}
    → IsPool p
    → bytes < 2 ^ 64
    → alignment < 2 ^ 64
    → alloc p bytes alignment ≡ ok (handle, p')
    → free p' handle ≡ ok (record p { next_handle = p.next_handle + 1 })
unfolding free take_slot
free-alloc p bytes alignment {handle} {p'} inv wb wa e =
    let out : IsTaken p bytes alignment handle p' =
      rw e at (alloc_cases p bytes alignment inv wb wa) in
    let at_slot =
      free_slot_from-get p.allocations p.size p.next_handle inv.live
        (λ q. out.slot (q ∙ inv.slots)) in
    let undone =
      release-set p.allocations (free_slot_from p.allocations 0)
        (record { handle = p.next_handle; offset = out.offset; size = out.rounded }) at_slot
        (find_handle_fresh p.size p.next_handle p.allocations inv.live inv.handle_pos)
        inv.handle_pos in
    subst (λ (r : ℕ × Pool). free r.1 r.0 ≡ ok (record p { next_handle = p.next_handle + 1 }))
      (sym out.stored)
      (ground (arith, undone, inv.handle_pos, inv.va_word, inv.budget, out.room, out.handles))
