-- ===== src/Mmio.antt =====
-- driver/gsp/falcon.h, `nv_mmio_t`: register access through the platform's callbacks. The platform
-- is outside this repository's C code, so it is a parameter: a state and the effect of each call.
use rtxmac_oc.Base.{ℕ}

pub record Mmio : Type 1 where
  pub State : Type 0
  -- The value read and the state after it: a read may clear or advance what it shows.
  pub rd : ℕ → State → ℕ × State
  pub wr : ℕ → ℕ → State → State
  pub udelay : ℕ → State → State
