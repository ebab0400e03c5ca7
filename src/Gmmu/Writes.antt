-- ===== src/Gmmu/Writes.antt =====
-- Loops of writes through the window: a run of entries at distinct places, and a cleared block.
use rtxmac_oc.Base.{ℕ, ◌+◌, ◌*◌, ◌/◌, ◌%◌, ◌^◌, ◌≤◌, ◌<◌, ◌≡◌, ◌≢◌, ◌∙◌, refl, arith}
use rtxmac_oc.Base.{ltb, leb, ◌&&◌, if◌then◌else◌, ◌+64◌, for_each, for_each_inv}
use native.Mathlib.Decide.{ℕ_discrete}
use rtxmac_oc.Mmio.{Mmio}
use rtxmac_oc.Gmmu.Pramin.{Bus, pramin_wr32, pramin_wr64, pramin_fill}
use rtxmac_oc.Gmmu.Branch.{zero_table}
use rtxmac_oc.Gmmu.Window.{Window, IsAimed, word, entry, wr32_lem, wr32-IsAimed, wr64-IsAimed}
use rtxmac_oc.Gmmu.Window.{entry-wr64}

module _ (io : Mmio) (w : Window io) where
  -- The first `k` entries have been written, and no other entry has changed.
  pub record IsWritten (at value : ℕ → ℕ) (k : ℕ) (b t : Bus io.State) : Type 0 where
    pub aimed : IsAimed io w t
    pub written : (j : ℕ) → j < k → entry io w t (at j) ≡ value j
    pub kept : (x : ℕ) → x % 8 ≡ 0 → ((j : ℕ) → j < k → at j ≢ x) → entry io w t x ≡ entry io w b x

  -- The places of a run of writes: entries of VRAM, no two the same, and 64-bit values.
  pub record IsRun (at value : ℕ → ℕ) (n : ℕ) : Type 0 where
    pub aligned : (j : ℕ) → j < n → at j % 8 ≡ 0
    pub inside : (j : ℕ) → j < n → at j + 8 ≤ 2 ^ 40
    pub small : (j : ℕ) → j < n → value j < 2 ^ 64
    pub apart : (j k : ℕ) → j < k → k < n → at j ≢ at k

  pub write_run :
      (at value : ℕ → ℕ) (n : ℕ) (b : Bus io.State)
      → IsRun at value n
      → IsAimed io w b
      → IsWritten at value n b (for_each (λ k. pramin_wr64 io (at k) (value k)) n 0 b)
  write_run at value n b run a =
      for_each_inv (λ k. pramin_wr64 io (at k) (value k)) (λ k t. IsWritten at value k b t) n 0 n b
        (omega arith)
        (λ k t z lt p. record {
          aimed = wr64-IsAimed io w (at k) (value k) t (run.inside k lt) (run.small k lt) p.aimed;
          written = λ j le.
              entry-wr64 io w (at k) (value k) (at j) t (run.inside k lt) (run.aligned k lt)
                (run.small k lt) (run.aligned j (omega arith)) p.aimed
              ∙ elim (ℕ_discrete j k) [
                | yes e ↦ rw e (ground arith)
                | no ne ↦ ground (arith, run.apart j k (omega arith) lt, p.written j (omega arith))
              ];
          kept = λ x hx fresh.
              entry-wr64 io w (at k) (value k) x t (run.inside k lt) (run.aligned k lt)
                (run.small k lt) hx p.aimed
              ∙ ground (arith, fresh k (omega arith), p.kept x hx (λ j h. fresh j (omega arith)));
        })
        (record { aimed = a; written = λ j h. elim h [ ]; kept = λ x hx f. refl })

  record IsFilled (phys v k : ℕ) (b t : Bus io.State) : Type 0 where
    aimed : IsAimed io w t
    content :
        (x : ℕ)
        → x % 4 ≡ 0
        → word io w t x ≡ (if leb phys x && ltb x (phys + k * 4) then v else word io w b x)

  fill-IsFilled :
      (phys n v : ℕ) (b : Bus io.State)
      → phys + n * 4 ≤ 2 ^ 40
      → phys % 4 ≡ 0
      → v < 2 ^ 32
      → IsAimed io w b
      → IsFilled phys v n b (for_each (λ k. pramin_wr32 io (phys +64 k * 4) v) n 0 b)
  fill-IsFilled phys n v b h q hv a =
      for_each_inv (λ k. pramin_wr32 io (phys +64 k * 4) v) (λ k t. IsFilled phys v k b t) n 0 n b
        (omega arith)
        (λ k t z lt p.
          let there : phys +64 k * 4 ≡ phys + k * 4 = omega arith in
          record {
            aimed = rw there (wr32-IsAimed io w (phys + k * 4) v t (omega arith) p.aimed);
            content = λ x hx. rw there (
                wr32_lem io w (phys + k * 4) v x t (omega arith) (omega arith) hv hx p.aimed
                ∙ ground (arith, p.content x hx));
          })
        (record { aimed = a; content = λ x hx. ground arith })

  -- A cleared block of entries reads as zero, and entries elsewhere keep their value.
  pub entry-zero_table :
      (phys len x : ℕ) (b : Bus io.State)
      → phys + len ≤ 2 ^ 40
      → phys % 8 ≡ 0
      → len % 8 ≡ 0
      → x % 8 ≡ 0
      → IsAimed io w b
      → entry io w (zero_table io phys len b) x
        ≡ (if leb phys x && ltb x (phys + len) then 0 else entry io w b x)
  unfolding zero_table pramin_fill
  entry-zero_table phys len x b h q hl hx a =
      let f = fill-IsFilled phys ((len + 3) / 4) 0 b (omega arith) (omega arith) (omega arith) a in
      ground (arith, f.content x (omega arith), f.content (x + 4) (omega arith))

  pub zero_table-IsAimed :
      (phys len : ℕ) (b : Bus io.State)
      → phys + len ≤ 2 ^ 40
      → phys % 8 ≡ 0
      → len % 8 ≡ 0
      → IsAimed io w b
      → IsAimed io w (zero_table io phys len b)
  unfolding zero_table pramin_fill
  zero_table-IsAimed phys len b h q hl a =
      (fill-IsFilled phys ((len + 3) / 4) 0 b (omega arith) (omega arith) (omega arith) a).aimed
