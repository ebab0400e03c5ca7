-- ===== src/Vram/Search.antt =====
-- The loop `first_fit` of both searches, against what it looks for.
use rtxmac_oc.Base.{ℕ, zero, suc, ◌+◌, ◌^◌, ◌≤◌, ◌<◌, ◌≡◌, arith}
use rtxmac_oc.Base.{Option, none, some, List, Bool-cases, Option-cases, inl, inr}
use rtxmac_oc.Base.{leb, ◌==◌, ◌&&◌, ◌-64◌, ==_iff}
use rtxmac_oc.Vram.Defs.{Span, first_fit}
use rtxmac_oc.Vram.FirstFit.{IsFree}

-- A place for `bytes` below `limit`, at an address that `IsPlace` admits, clear of the spans.
pub record Fits (IsPlace : ℕ → Type 0) (limit bytes : ℕ) (spans : List Span) (x : ℕ) : Type 0 where
  pub place : IsPlace x
  pub inside : x + bytes ≤ limit
  pub free : IsFree bytes spans x

-- The lowest such place from `start` on; `none` says that there is none.
abbrev pub IsLowest : (ℕ → Type 0) → ℕ → Option ℕ → Type 0
IsLowest P start (some r) = P r × (start ≤ r) × ((x : ℕ) → start ≤ x → P x → r ≤ x)
IsLowest P start none = (x : ℕ) → start ≤ x → ¬ P x

-- A search may begin lower where nothing is passed.
pub IsLowest-from :
    {P : ℕ → Type 0} {start low : ℕ} (r : Option ℕ)
    → low ≤ start
    → ((x : ℕ) → low ≤ x → P x → start ≤ x)
    → IsLowest P start r
    → IsLowest P low r
IsLowest-from none le skip h = λ x q p. h x (skip x q p) p
IsLowest-from (some r) le skip h = (h.0, omega (arith, h.1), λ x q p. h.2 x (skip x q p) p)

-- What the loop relies on: the scan stays put exactly at a free place and passes none, and the
-- next candidate is the lowest place that the scan has not passed.
pub record Steps (IsPlace : ℕ → Type 0) (limit bytes : ℕ) (spans : List Span) (scan_from : ℕ → ℕ)
    (advance : ℕ → Option ℕ) : Type 0 where
  pub word : limit < 2 ^ 64
  pub scan_up : (c : ℕ) → c ≤ scan_from c
  pub scan_free : (c : ℕ) → c + bytes ≤ limit → scan_from c ≡ c → IsFree bytes spans c
  pub scan_low :
      (c x : ℕ) → c ≤ limit → c ≤ x → x + bytes ≤ limit → IsFree bytes spans x → scan_from c ≤ x
  pub next : (c : ℕ) → c ≤ limit → IsLowest IsPlace (scan_from c) (advance (scan_from c))

module _ (IsPlace : ℕ → Type 0) (limit bytes : ℕ) (spans : List Span) (scan_from : ℕ → ℕ)
    (advance : ℕ → Option ℕ) (steps : Steps IsPlace limit bytes spans scan_from advance) where
  -- The loop finds the lowest place that fits, whenever the fuel covers the way to the limit.
  pub first_fit-IsLowest :
      (fuel c : ℕ)
      → limit < c + fuel
      → IsPlace c
      → IsLowest (Fits IsPlace limit bytes spans) c (first_fit scan_from advance limit bytes fuel c)
  unfolding first_fit
  first_fit-IsLowest zero c f p = λ x h q. absurd (omega (arith, q.inside))
  first_fit-IsLowest (suc fuel) c f p = elim (Bool-cases (leb c limit && leb bytes (limit -64 c))) [
    | inr out ↦ rw out (λ x h q. absurd (ground (arith, q.inside, steps.word)))
    | inl room ↦
        let inside : (c ≤ limit) × (c + bytes ≤ limit) = ground (arith, steps.word) in
        elim (Bool-cases (scan_from c == c)) [
          | inl stays ↦
              let e : scan_from c ≡ c = (==_iff _ _).0 stays in
              let free = steps.scan_free c inside.1 e in
              rw (room, stays)
                (record { place = p; inside = inside.1; free = free }, omega arith, λ x h q. h)
          | inr moves ↦
              let up : c < scan_from c = ground (arith, steps.scan_up c) in
              elim (Option-cases (advance (scan_from c))) [
                | inl e ↦
                    rw (room, moves, e)
                      (λ x h q.
                        (rw e at (steps.next c inside.0)) x
                          (steps.scan_low c x inside.0 h q.inside q.free) q.place)
                | inr (c', e) ↦
                    let low : IsLowest IsPlace (scan_from c) (some c') =
                      rw e at (steps.next c inside.0) in
                    rw (room, moves, e)
                      (IsLowest-from (first_fit scan_from advance limit bytes fuel c')
                        (omega (arith, low.1))
                        (λ x h q. low.2 x (steps.scan_low c x inside.0 h q.inside q.free) q.place)
                        (first_fit-IsLowest fuel c' (omega (arith, low.1)) low.0))
              ]
        ]
  ]
