-- ===== src/GspExec/Wait.antt =====
-- The wait for the semaphore and what a copy reports.
use rtxmac_oc.Base.{ℕ, zero, suc, ◌+◌, ◌%◌, ◌^◌, ◌<◌, ◌≡◌, refl, ◌∙◌, arith}
use rtxmac_oc.Base.{
  ◌≢◌, ◌⊎◌, inl, inr, ◌==◌, ◌||◌, not, if◌then◌else◌, Bool, true, false, Bool-cases,
}
use rtxmac_oc.Base.{◌+32◌}
use rtxmac_oc.Base.{bit_or, u32, ◌<<<◌, ◌*◌, ◌&&◌}
use native.Mathlib.Nat as Nat
use rtxmac_oc.Mmio.{Mmio}
use rtxmac_oc.Gmmu.Pramin.{Bus, pramin_rd32}
use rtxmac_oc.GspExec.Command.{payload_of-eq}
use rtxmac_oc.GspExec.Defs.{
  GpuContext, payload_of, next_put, queue_words, ring_doorbell, wait_semaphore, ticks_for, settled,
  started, class_to_set, copy_words, gpu_copy,
}

module _ (io : Mmio) (phys payload : ℕ) where
  -- The state at the `j`-th look at the semaphore, 20 microseconds after the one before.
  unfoldable pub at_look : ℕ → Bus io.State → Bus io.State
  at_look zero b = b
  at_look (suc j) b =
      let seen = pramin_rd32 io phys b in
      at_look j (record { win_base = seen.1.win_base; dev = io.udelay 20 seen.1.dev })

  abbrev pub look : ℕ → Bus io.State → ℕ
  look j b = (pramin_rd32 io phys (at_look j b)).0

  -- The wait ends at the first look that shows the payload, or when none of them has.
  pub record IsAwaited (ticks : ℕ) (b : Bus io.State) (o : Bool × Bus io.State) : Type 0 where
    pub count : ℕ
    pub before : (j : ℕ) → j < count → look j b ≢ payload
    pub outcome :
        ((count < ticks)
          × (look count b ≡ payload)
          × (o ≡ (true, (pramin_rd32 io phys (at_look count b)).1)))
        ⊎ ((count ≡ ticks) × (o ≡ (false, at_look count b)))

  pub wait-IsAwaited :
      (ticks : ℕ) (b : Bus io.State) → IsAwaited ticks b (wait_semaphore io ticks phys payload b)
  unfolding wait_semaphore at_look
  wait-IsAwaited zero b = record {
    count = 0;
    before = λ j lt. elim lt [ ];
    outcome = inr (refl, refl);
  }
  wait-IsAwaited (suc ticks) b = elim (Bool-cases ((pramin_rd32 io phys b).0 == payload)) [
    | inl e ↦ rw e (record {
      count = 0;
      before = λ j lt. elim lt [ ];
      outcome = inl (omega arith, ground (arith, e), refl);
    })
    | inr e ↦
        let rest = wait-IsAwaited ticks _ in
        rw e (record {
          count = suc rest.count;
          before = earlier rest.count (ground (arith, e)) rest.before;
          outcome = elim rest.outcome [
            | inl (lt, shown, o) ↦ inl (omega (arith, lt), shown, o)
            | inr (end, o) ↦ inr (omega (arith, end), o)
          ];
        })
  ]
    where
      earlier :
          (count : ℕ)
          → look 0 b ≢ payload
          → ((j : ℕ) → j < count → look (suc j) b ≢ payload)
          → (j : ℕ) → j < suc count
          → look j b ≢ payload
      earlier count first rest zero lt = first
      earlier count first rest (suc j) lt = rest j (omega (arith, lt))

-- What a copy leaves of its context.
record IsSettled (set_obj : ℕ) (came : Bool) (g g' : GpuContext) : Type 0 where
  counted : g'.seq ≡ g.seq
  put : g'.gp_put ≡ g.gp_put
  entries : g'.ring_entries ≡ g.ring_entries
  usable : g'.ok ≡ (if came then g.ok else false)
  bound :
      g'.object_bound
      ≡ (if came then (if set_obj == 0 then g.object_bound else true) else g.object_bound)

settled-IsSettled :
    (io : Mmio) (set_obj : ℕ) (came : Bool) (g : GpuContext)
    → IsSettled set_obj came g (settled io set_obj came g)
unfolding settled
settled-IsSettled io set_obj false g = record {
  counted = refl;
  put = refl;
  entries = refl;
  usable = refl;
  bound = refl;
}
settled-IsSettled io set_obj true g = record {
  counted = kept (λ c. c.seq ≡ g.seq) refl refl;
  put = kept (λ c. c.gp_put ≡ g.gp_put) refl refl;
  entries = kept (λ c. c.ring_entries ≡ g.ring_entries) refl refl;
  usable = kept (λ c. c.ok ≡ g.ok) refl refl;
  bound = elim (Bool-cases (set_obj == 0)) [ inl e ↦ rw e refl | inr e ↦ rw e refl ];
}
  where
    kept :
        (P : GpuContext → Type 0)
        → P g
        → P (record g { object_bound = true })
        → P (if set_obj == 0 then g else record g { object_bound = true })
    kept P p q = elim (Bool-cases (set_obj == 0)) [ inl e ↦ rw e p | inr e ↦ rw e q ]

module _ (io : Mmio) (gpu : GpuContext) (src dst bytes timeout_ms : ℕ) (b : Bus io.State) where
  -- The state when the words are queued and the channel's number has gone to the doorbell.
  abbrev pub rung : Bus io.State
  rung =
      let queued = queue_words io gpu (copy_words io gpu src dst bytes) b in
      record {
        win_base = queued.win_base;
        dev = io.wr 0xbb0090 (bit_or (u32 (gpu.runlist <<< 16)) gpu.chid) queued.dev;
      }

  -- The looks at the semaphore: 50 in a millisecond, for two seconds where no time is given.
  abbrev pub looks : ℕ
  looks = (if timeout_ms == 0 then 2000 else timeout_ms) * 50 % 2 ^ 32

  abbrev pub own_payload : ℕ
  own_payload = 0xC0DE0000 + (gpu.seq + 1) % 2 ^ 32 % 2 ^ 16

  -- A copy that the context can take: the payload came, and the context counts the copy and keeps its
  -- state, or it did not come at any of the looks, and the context is given up.
  pub record IsCopied (o : Bool × GpuContext × Bus io.State) : Type 0 where
    pub awaited : IsAwaited io gpu.sem_phys own_payload looks rung (o.0, o.2)
    pub counted : o.1.seq ≡ (gpu.seq + 1) % 2 ^ 32
    pub slot :
        (o.1.gp_put ≡ (gpu.gp_put + 1) % 2 ^ 32 % gpu.ring_entries)
        × (o.1.gp_put < gpu.ring_entries)
    pub entries : o.1.ring_entries ≡ gpu.ring_entries
    pub usable : o.1.ok ≡ o.0
    pub bound :
        o.1.object_bound
        ≡ (if o.0 && not (gpu.class_engine_id == 0) then true else gpu.object_bound)

  abbrev awaited_copy : Bool × Bus io.State
  awaited_copy =
      wait_semaphore io (ticks_for io timeout_ms) gpu.sem_phys (payload_of (gpu.seq +32 1))
        (ring_doorbell io gpu (queue_words io gpu (copy_words io gpu src dst bytes) b))

  ready_lem : gpu.ok ≡ true → (came : Bool) → (if came then gpu.ok else false) ≡ came
  ready_lem ready true = ready
  ready_lem ready false = refl

  -- A class that is bound stays bound; one that is not is bound by a copy that came, if there is one.
  bound_lem :
      (came : Bool)
      → (if came
          then (if class_to_set io gpu == 0 then gpu.object_bound else true)
          else gpu.object_bound)
        ≡ (if came && not (gpu.class_engine_id == 0) then true else gpu.object_bound)
  unfolding class_to_set
  bound_lem false = refl
  bound_lem true = elim (Bool-cases gpu.object_bound) [
    | inl e ↦
        rw e
          (elim (Bool-cases (gpu.class_engine_id == 0)) [ inl c ↦ rw c refl | inr c ↦ rw c refl ])
    | inr e ↦
        rw e
          (elim (Bool-cases (gpu.class_engine_id == 0)) [ inl c ↦ rw c refl | inr c ↦ rw c refl ])
  ]

  awaited_lem : IsAwaited io gpu.sem_phys own_payload looks rung awaited_copy
  unfolding ticks_for ring_doorbell
  awaited_lem =
      rw (← payload_of-eq (gpu.seq +32 1))
        (wait-IsAwaited io gpu.sem_phys (payload_of (gpu.seq +32 1)) looks rung)

  copied :
      gpu.ok ≡ true
      → 0 < gpu.ring_entries
      → IsCopied (
        awaited_copy.0,
        settled io (class_to_set io gpu) awaited_copy.0 (started io gpu),
        awaited_copy.1,
      )
  unfolding started next_put
  copied ready pos =
      let s = settled-IsSettled io (class_to_set io gpu) awaited_copy.0 (started io gpu) in
      record {
        awaited = awaited_lem;
        counted = s.counted;
        slot = (s.put, rw s.put (Nat.mod-lt _ pos));
        entries = s.entries;
        usable = s.usable ∙ ready_lem ready awaited_copy.0;
        bound = s.bound ∙ bound_lem awaited_copy.0;
      }

  -- nv_gsp_gpu_copy refuses a context that is not ready, an empty copy and an empty ring, and changes
  -- nothing then. Otherwise it ends: it succeeds exactly if one of its looks at the semaphore, 50 in a
  -- millisecond, shows this copy's payload, at the first such look; after a timeout the context is not
  -- ready any more. The payload counter goes up, and GP_PUT goes to the next slot of the ring.
  pub gpu_copy-IsCopied :
      (((gpu.ok ≡ false) ⊎ (bytes ≡ 0) ⊎ (gpu.ring_entries ≡ 0))
        × (gpu_copy io gpu src dst bytes timeout_ms b ≡ (false, gpu, b)))
      ⊎ ((gpu.ok ≡ true)
          × (0 < bytes)
          × (0 < gpu.ring_entries)
          × IsCopied (gpu_copy io gpu src dst bytes timeout_ms b))
  unfolding gpu_copy
  gpu_copy-IsCopied = elim (Bool-cases gpu.ok) [
    | inr down ↦ inl (inl down, rw down refl)
    | inl ready ↦ elim (Bool-cases (bytes == 0)) [
      | inl none_asked ↦ inl (inr (inl (ground (arith, none_asked))), rw (ready, none_asked) refl)
      | inr some_asked ↦ elim (Bool-cases (gpu.ring_entries == 0)) [
        | inl empty ↦ inl (inr (inr (ground (arith, empty))), rw (ready, some_asked, empty) refl)
        | inr room ↦
            let pos : 0 < gpu.ring_entries = ground (arith, room) in
            let good : (not gpu.ok || (bytes == 0)) ≡ false = rw (ready, some_asked) refl in
            inr (ready, ground (arith, some_asked), pos, rw (good, room) (copied ready pos))
      ]
    ]
  ]
