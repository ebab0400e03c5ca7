-- ===== src/Vram/Resolve.antt =====
-- `nv_vram_resolve`: the addresses lie in the pool, and those of two handles never meet.
use rtxmac_oc.Base.{ℕ, ◌+◌, ◌^◌, ◌≤◌, ◌<◌, ◌≡◌, ◌≢◌, arith, inl, inr}
use rtxmac_oc.Base.{some, Option-cases, Bool-cases, ◌==◌, List, [], ◌∷◌}
use rtxmac_oc.Base.{ok, All}
use mathlib.Core.Path.{subst}
use rtxmac_oc.Base.{some_inj}
use rtxmac_oc.Vram.Defs.{Pool, Allocation}
use rtxmac_oc.Vram.Pool.{resolve, find_handle}
use rtxmac_oc.Vram.Invariant.{IsPool, IsSlot, IsLive, IsClear, IsClear-symm, IsDisjoint}

pub find_handle-IsLive :
    (size next_handle : ℕ) (l : List Allocation) (handle : ℕ) {a : Allocation}
    → All (IsSlot size next_handle) l
    → 0 < handle
    → find_handle l handle ≡ some a
    → (a.handle ≡ handle) × IsLive size next_handle a
unfolding find_handle
find_handle-IsLive size n [] h live pos e = cc
find_handle-IsLive size n (x ∷ rest) h {a} live pos e = elim (Bool-cases (x.handle == h)) [
  | inl q ↦ ground (arith, live.0)
  | inr q ↦ find_handle-IsLive size n rest h live.1 pos (rw (q, find_handle) at e)
]

All_of_find :
    (P : Allocation → Type 0) (l : List Allocation) (handle : ℕ) {a : Allocation}
    → All P l
    → find_handle l handle ≡ some a
    → P a
unfolding find_handle
All_of_find P [] h all e = cc
All_of_find P (x ∷ rest) h {a} all e = elim (Bool-cases (x.handle == h)) [
  | inl q ↦ subst P (some_inj (rw (q, find_handle) at e)) all.0
  | inr q ↦ All_of_find P rest h all.1 (rw (q, find_handle) at e)
]

-- The slots that two different handles lead to are clear of one another.
pub find_handle-IsClear :
    (l : List Allocation) (h k : ℕ) {a b : Allocation}
    → IsDisjoint l
    → h ≢ k
    → find_handle l h ≡ some a
    → find_handle l k ≡ some b
    → IsClear a b
unfolding find_handle
find_handle-IsClear [] h k d ne e f = cc
find_handle-IsClear (x ∷ rest) h k {a} {b} d ne e f = elim (Bool-cases (x.handle == h)) [
  | inl q ↦ elim (Bool-cases (x.handle == k)) [
    | inl r ↦ absurd (ground arith)
    | inr r ↦
        subst (λ y. IsClear y b) (some_inj (rw (q, find_handle) at e))
          (All_of_find (IsClear x) rest k d.0 (rw (r, find_handle) at f))
  ]
  | inr q ↦ elim (Bool-cases (x.handle == k)) [
    | inl r ↦
        subst (IsClear a) (some_inj (rw (r, find_handle) at f))
          (IsClear-symm x a (All_of_find (IsClear x) rest h d.0 (rw (q, find_handle) at e)))
    | inr r ↦
        find_handle-IsClear rest h k d.1 ne (rw (q, find_handle) at e) (rw (r, find_handle) at f)
  ]
]

-- A resolved range: the slot it lies in, and where.
pub record IsResolved (p : Pool) (handle offset bytes : ℕ) (r : ℕ × ℕ) : Type 0 where
  pub slot : Allocation
  pub found : find_handle p.allocations handle ≡ some slot
  pub named : 0 < handle
  pub positive : 0 < bytes
  pub inside : offset + bytes ≤ slot.size
  pub live : IsLive p.size p.next_handle slot
  pub phys : r.0 ≡ p.phys + slot.offset + offset
  pub va : r.1 ≡ p.va + slot.offset + offset

pub resolve-IsResolved :
    (p : Pool) (handle offset bytes : ℕ) {r : ℕ × ℕ}
    → IsPool p
    → offset < 2 ^ 64
    → bytes < 2 ^ 64
    → resolve p handle offset bytes ≡ ok r
    → IsResolved p handle offset bytes r
unfolding resolve
resolve-IsResolved p handle offset bytes {r} inv wo wb e =
    elim (Option-cases (find_handle p.allocations handle)) [
      | inl q ↦ absurd (ground arith)
      | inr (a, q) ↦
          let pos : (0 < handle) × (0 < bytes) = ground arith in
          let live =
            find_handle-IsLive p.size p.next_handle p.allocations handle inv.live pos.0 q in
          record {
            slot = a;
            found = q;
            named = pos.0;
            positive = pos.1;
            inside = ground (arith, live.1);
            live = live.1;
            phys = ground (arith, live.1, inv.phys_word);
            va = ground (arith, live.1, inv.va_word);
          }
    ]
