-- ===== src/DmaArena/Blocks.antt =====
-- Blocks of the arena are whole pages inside the buffer, and no two of them meet.
use rtxmac_oc.Base.{ℕ, ◌+◌, ◌-◌, ◌%◌, ◌^◌, ◌≤◌, ◌<◌, ◌≡◌, refl, ◌∙◌, arith}
use rtxmac_oc.Base.{ltb, ◌+64◌, Option, none, some, Bool-cases}
use rtxmac_oc.Base.{inl, inr}
use rtxmac_oc.Base.Bits.Align.{bit_and-not64_low}
use rtxmac_oc.DmaArena.Defs.{Arena, Block, dma_alloc}

-- The blocks handed out end at `off`, on a page boundary inside the buffer.
pub record IsArena (a : Arena) : Type 0 where
  pub paged : a.off % 2 ^ 12 ≡ 0
  pub inside : a.off ≤ a.cap
  pub dma_word : a.dma_addr + a.cap < 2 ^ 64

-- A block starts at the first free byte, at both addresses, and ends inside the buffer; the next one
-- starts on the first page boundary after it.
pub record IsBlock (a : Arena) (sz : ℕ) (b : Block) : Type 0 where
  pub va_at : b.out_va ≡ a.va + a.off
  pub dma_at : b.out_dma ≡ a.dma_addr + a.off
  pub after : a.off + sz ≤ b.arena.off
  pub near : b.arena.off < a.off + sz + 2 ^ 12
  pub same_va : b.arena.va ≡ a.va
  pub same_dma : b.arena.dma_addr ≡ a.dma_addr
  pub same_cap : b.arena.cap ≡ a.cap
  pub arena_kept : IsArena b.arena

-- A refusal means that no page boundary inside the buffer lies behind the bytes.
abbrev pub IsOutcome : Arena → ℕ → Option Block → Type 0
IsOutcome a sz none = (x : ℕ) → x % 2 ^ 12 ≡ 0 → a.off + sz ≤ x → a.cap < x
IsOutcome a sz (some b) = IsBlock a sz b

-- From an arena that meets the invariant, a request whose end does not run over 64 bits gets the
-- bytes from the first free one on, rounded up to pages and inside the buffer, and keeps the
-- invariant; it is refused only if the rounded request leaves the buffer.
pub dma_alloc-IsOutcome :
    (a : Arena) (sz : ℕ) → IsArena a → a.off + sz + 4095 < 2 ^ 64 → IsOutcome a sz (dma_alloc a sz)
unfolding dma_alloc
dma_alloc-IsOutcome a sz inv small =
    let sum : a.off +64 sz +64 4095 ≡ a.off + sz + 4095 = omega arith in
    let next = a.off + sz + 4095 - (a.off + sz + 4095) % 2 ^ 12 in
    let round = bit_and-not64_low 12 (a.off + sz + 4095) (omega arith) small in
    elim (Bool-cases (ltb a.cap next)) [
      | inl e ↦ rw (sum, round, e) (λ x q h. ground (arith, e))
      | inr e ↦
          rw (sum, round, e)
            (record {
              va_at = refl;
              dma_at = ground (arith, inv.dma_word, inv.inside);
              after = omega arith;
              near = omega arith;
              same_va = refl;
              same_dma = refl;
              same_cap = refl;
              arena_kept = record {
                paged = omega arith;
                inside = ground (arith, e);
                dma_word = inv.dma_word;
              };
            })
    ]

-- The arenas that a program can come to without a reset: by successful requests.
pub data Grows : Arena → Arena → Type 0 where
  here : {a : Arena} → Grows a a
  step :
      {a c : Arena} (sz : ℕ) (b : Block)
      → a.off + sz + 4095 < 2 ^ 64
      → dma_alloc a sz ≡ some b
      → Grows b.arena c
      → Grows a c

pub alloc-IsBlock :
    (a : Arena) (sz : ℕ) (b : Block)
    → IsArena a
    → a.off + sz + 4095 < 2 ^ 64
    → dma_alloc a sz ≡ some b
    → IsBlock a sz b
alloc-IsBlock a sz b inv small e = rw e at (dma_alloc-IsOutcome a sz inv small)

record IsLater (a c : Arena) : Type 0 where
  kept : IsArena c
  grown : a.off ≤ c.off
  va : c.va ≡ a.va
  dma : c.dma_addr ≡ a.dma_addr

Grows-IsLater : (a c : Arena) → IsArena a → Grows a c → IsLater a c
Grows-IsLater a c inv here = record { kept = inv; grown = omega arith; va = refl; dma = refl }
Grows-IsLater a c inv (step sz b small e more) =
    let k = alloc-IsBlock a sz b inv small e in
    let l = Grows-IsLater b.arena c k.arena_kept more in
    record {
      kept = l.kept;
      grown = omega (arith, k.after, l.grown);
      va = l.va ∙ k.same_va;
      dma = l.dma ∙ k.same_dma;
    }

-- Of two successful requests, with successful requests in between, the earlier block ends before
-- the later one starts, for the CPU and for the GPU.
pub blocks_disjoint :
    (a c : Arena) (first second : ℕ) (b d : Block)
    → IsArena a
    → a.off + first + 4095 < 2 ^ 64
    → dma_alloc a first ≡ some b
    → Grows b.arena c
    → c.off + second + 4095 < 2 ^ 64
    → dma_alloc c second ≡ some d
    → (b.out_va + first ≤ d.out_va) × (b.out_dma + first ≤ d.out_dma)
blocks_disjoint a c first second b d inv s1 e1 more s2 e2 =
    let k = alloc-IsBlock a first b inv s1 e1 in
    let l = Grows-IsLater b.arena c k.arena_kept more in
    let m = alloc-IsBlock c second d l.kept s2 e2 in
    (
      omega (arith, k.va_at, k.after, k.same_va, l.grown, l.va, m.va_at),
      omega (arith, k.dma_at, k.after, k.same_dma, l.grown, l.dma, m.dma_at),
    )
