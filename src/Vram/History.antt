-- ===== src/Vram/History.antt =====
-- Any sequence of calls on a pool, as its owner serialises them.
use rtxmac_oc.Base.{
  ℕ, suc, ◌+◌, ◌-◌, ◌%◌, ◌^◌, ◌≤◌, ◌<◌, ◌≡◌, ◌∙◌, refl, arith, ap, sym, bit_and, bit_or,
}
use rtxmac_oc.Base.{ok, err, All, replicate, inl, ◌==◌}
use rtxmac_oc.Base.{length-replicate, zero, ◌&&◌}
use rtxmac_oc.Base.{◌↔◌, ◌⊎◌, inr, Bool-cases, ==_iff}
use rtxmac_oc.Base.Bits.Mask.{bit_and-low, mod-bit_or}
use mathlib.Core.Bool.{false≢true}
use rtxmac_oc.Vram.Defs.{Pool, span_valid, page_bytes, max_allocs, invalid}
use rtxmac_oc.Vram.Pool.{pool_init, alloc, free, free_slot, take_slot}
use rtxmac_oc.Vram.Invariant.{IsPool, IsSlot, IsDisjoint, IsClear, total}
use rtxmac_oc.Vram.Taken.{IsTaken, alloc_cases}
use rtxmac_oc.Vram.Request.{alloc-IsPool}
use rtxmac_oc.Vram.Free.{free-IsPool, free-release}

-- One successful call that changes the pool; a failed call leaves it as it is.
pub data Call (p : Pool) : Pool → Type 0 where
  allocate :
      (bytes alignment handle : ℕ) (q : Pool)
      → bytes < 2 ^ 64
      → alignment < 2 ^ 64
      → alloc p bytes alignment ≡ ok (handle, q)
      → Call p q
  release_handle : (handle : ℕ) (q : Pool) → free p handle ≡ ok q → Call p q

pub data Calls (p : Pool) : Pool → Type 0 where
  done : Calls p p
  later : {q r : Pool} → Calls p q → Call q r → Calls p r

Call-IsPool : {p q : Pool} → IsPool p → Call p q → IsPool q
Call-IsPool {p} inv (allocate b a h q wb wa e) = alloc-IsPool p b a inv wb wa e
Call-IsPool {p} inv (release_handle h q e) = free-IsPool p h inv e

pub Calls-IsPool : {p q : Pool} → IsPool p → Calls p q → IsPool q
Calls-IsPool inv done = inv
Calls-IsPool inv (later cs c) = Call-IsPool (Calls-IsPool inv cs) c

-- The next handle of an allocation is larger by one, and a release does not change it.
alloc-next_handle :
    (p : Pool) (bytes alignment : ℕ) {handle : ℕ} {q : Pool}
    → IsPool p
    → bytes < 2 ^ 64
    → alignment < 2 ^ 64
    → alloc p bytes alignment ≡ ok (handle, q)
    → (handle ≡ p.next_handle) × (q.next_handle ≡ p.next_handle + 1)
unfolding take_slot
alloc-next_handle p b a {handle} {q} inv wb wa e =
    let out : IsTaken p b a handle q = rw e at (alloc_cases p b a inv wb wa) in
    let next = ap (λ (r : ℕ × Pool). r.1.next_handle) out.stored in
    (ap (λ (r : ℕ × Pool). r.0) out.stored, omega (arith, next, out.handles))

Call-next_handle : {p q : Pool} → IsPool p → Call p q → p.next_handle ≤ q.next_handle
Call-next_handle {p} inv (allocate b a h q wb wa e) =
    omega (arith, alloc-next_handle p b a inv wb wa e)
Call-next_handle {p} inv (release_handle h q e) =
    let (r, pos, n, f) = free-release p h e in omega (arith, ap (λ (s : Pool). s.next_handle) f)

Calls-next_handle : {p q : Pool} → IsPool p → Calls p q → p.next_handle ≤ q.next_handle
Calls-next_handle inv done = omega arith
Calls-next_handle inv (later cs c) =
    omega (arith, Calls-next_handle inv cs, Call-next_handle (Calls-IsPool inv cs) c)

-- A handle is never given out twice in the life of a pool, whatever is released in between.
pub handles_never_reused :
    {p q r s : Pool} (b a c d : ℕ) {h k : ℕ}
    → IsPool p
    → b < 2 ^ 64
    → a < 2 ^ 64
    → c < 2 ^ 64
    → d < 2 ^ 64
    → alloc p b a ≡ ok (h, q)
    → Calls q r
    → alloc r c d ≡ ok (k, s)
    → h < k
handles_never_reused {p} {q} {r} {s} b a c d {h} {k} inv wb wa wc wd e cs f =
    let inv_q = alloc-IsPool p b a inv wb wa e in
    omega (
      arith,
      alloc-next_handle p b a inv wb wa e,
      Calls-next_handle inv_q cs,
      alloc-next_handle r c d (Calls-IsPool inv_q cs) wc wd f,
    )

pub free_slots : (size n k : ℕ) → All (IsSlot size n) (replicate k free_slot)
free_slots size n zero = tt
free_slots size n (suc k) = (inl refl, free_slots size n k)

IsClear-free : (k : ℕ) → All (IsClear free_slot) (replicate k free_slot)
IsClear-free zero = tt
IsClear-free (suc k) = (inl refl, IsClear-free k)

pub IsDisjoint-free : (k : ℕ) → IsDisjoint (replicate k free_slot)
IsDisjoint-free zero = tt
IsDisjoint-free (suc k) = (IsClear-free k, IsDisjoint-free k)

pub total_free : (k : ℕ) → total (replicate k free_slot) ≡ 0
unfolding total
total_free zero = refl
total_free (suc k) = omega (arith, total_free k)

-- What `nv_vram_pool_init` asks for.
abbrev pub IsPoolRange : ℕ → ℕ → ℕ → Type 0
IsPoolRange phys va size =
    (phys % 4096 ≡ 0)
    × (va % 4096 ≡ 0)
    × (size % 4096 ≡ 0)
    × (0 < size)
    × (phys + size < 2 ^ 64)
    × (va + size < 2 ^ 64)

fresh_pool : ℕ → ℕ → ℕ → Pool
fresh_pool phys va size = record {
  phys = phys;
  va = va;
  size = size;
  used = 0;
  next_handle = 1;
  allocations = replicate max_allocs free_slot;
}

module _ (phys va size : ℕ) (wp : phys < 2 ^ 64) (wv : va < 2 ^ 64) (ws : size < 2 ^ 64) where
  pages_iff :
      (bit_and (bit_or (bit_or phys va) size) (page_bytes - 1) ≡ 0)
      ↔ ((phys % 4096 ≡ 0) × (va % 4096 ≡ 0) × (size % 4096 ≡ 0))
  pages_iff =
      let low = bit_and-low 12 (bit_or (bit_or phys va) size) in
      let outer = mod-bit_or 12 (bit_or phys va) size in
      let inner = mod-bit_or 12 phys va in
      (
        λ h. let both = outer.0 (sym low ∙ h) in let two = inner.0 both.0 in (two.0, two.1, both.1),
        λ h. low ∙ outer.1 (inner.1 (h.0, h.1), h.2),
      )

  fresh_pool-IsPool : IsPoolRange phys va size → IsPool (fresh_pool phys va size)
  unfolding fresh_pool
  fresh_pool-IsPool range = record {
    positive = range.3;
    phys_word = range.4;
    va_word = range.5;
    phys_pages = range.0;
    va_pages = range.1;
    size_pages = range.2;
    handle_pos = omega arith;
    handle_word = omega arith;
    slots = length-replicate max_allocs free_slot;
    live = free_slots size 1 max_allocs;
    disjoint = IsDisjoint-free max_allocs;
    counted = sym (total_free max_allocs);
    budget = omega arith;
  }

  -- `nv_vram_pool_init` accepts exactly page-aligned ranges that are not empty and end below 2^64,
  -- and makes a pool of them that meets the invariant.
  pub pool_init-IsPool :
      ((p : Pool) × (pool_init phys va size ≡ ok p) × IsPool p × IsPoolRange phys va size)
      ⊎ ((pool_init phys va size ≡ err invalid) × ¬ IsPoolRange phys va size)
  unfolding pool_init span_valid fresh_pool
  pool_init-IsPool =
      elim (Bool-cases (bit_and (bit_or (bit_or phys va) size) (page_bytes - 1) == 0)) [
        | inr odd ↦ inr (
          rw odd,
          λ range. false≢true (sym odd ∙ (==_iff _ _).1 (pages_iff.1 (range.0, range.1, range.2))),
        )
        | inl even ↦
            let pages = pages_iff.0 ((==_iff _ _).0 even) in
            elim (Bool-cases (span_valid phys size && span_valid va size)) [
              | inl fits ↦
                  let range : IsPoolRange phys va size =
                    (pages.0, pages.1, pages.2, ground arith, ground arith, ground arith) in
                  inl (
                    fresh_pool phys va size,
                    rw even (ground arith),
                    fresh_pool-IsPool range,
                    range,
                  )
              | inr over ↦ inr (rw even (ground arith), λ range. ground arith)
            ]
      ]
