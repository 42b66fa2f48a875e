-- ===== src/DutWrapper/Reset.antt =====
-- The reset of the core under test: it puts the three agents in their invariants.
use scarv_cpu.Base.{
  ℕ, zero, suc, ◌+◌, ◌≤◌, refl, true, not, Bool-cases, inl, inr, ◌==◌, if◌then◌else◌, arith,
}
use scarv_cpu.CRandom.{CRandom}
use scarv_cpu.SramAgent
use scarv_cpu.SramAgent.Reset
use scarv_cpu.RngAgent
use scarv_cpu.RngAgent.{RngAgent}
use scarv_cpu.RngAgent.Reset.{Grown, Grown-refl, Grown-trans, posedge_clk-Grown}
use scarv_cpu.DutWrapper.{
  Core, Wrapper, eval, drive, posedge_gclk, toggle_clk, tick, ticks, dut_step_clk, dut_set_reset,
  dut_clear_reset,
}
use scarv_cpu.DutWrapper.Bounds.{AreSound, redriven-Inv}

-- How many of `n` rounds from the round `i` on have an edge of the clock.
edges : ℕ → ℕ → ℕ
edges zero i = 0
edges (suc n) i = (if i == 5 then 1 else 0) + edges n (suc i)

module _ (lib : CRandom) (core : Core) where
  posedge_gclk-Grown :
      (w : Wrapper lib core) → Grown 1 w.rng_if_agent (posedge_gclk lib core w).rng_if_agent
  unfolding posedge_gclk
  posedge_gclk-Grown w = posedge_clk-Grown lib w.rng_if_agent w.ports.rng _

  still-Grown : (n : ℕ) (a : RngAgent) → Grown n a a
  still-Grown n a = record {
    req_limit = refl;
    rsp_limit = refl;
    req = omega arith;
    rsp = omega arith;
  }

  toggle_clk-Grown :
      (w : Wrapper lib core) → Grown 1 w.rng_if_agent (toggle_clk lib core w).rng_if_agent
  unfolding toggle_clk
  toggle_clk-Grown w = elim (Bool-cases (not w.ports.g_clk)) [
    | inl h ↦
        rw (h, toggle_clk)
          (posedge_gclk-Grown (record w { ports = record (w.ports) { g_clk = true } }))
    | inr h ↦ rw (h, toggle_clk) (still-Grown 1 w.rng_if_agent)
  ]

  tick-Grown :
      (i : ℕ) (w : Wrapper lib core)
      → Grown (if i == 5 then 1 else 0) w.rng_if_agent (tick lib core i w).rng_if_agent
  unfolding tick eval drive
  tick-Grown i w = elim (Bool-cases (i == 5)) [
    | inl h ↦ rw h (toggle_clk-Grown w)
    | inr h ↦ rw h (Grown-refl w.rng_if_agent)
  ]

  ticks-Grown :
      (n i : ℕ) (w : Wrapper lib core)
      → Grown (edges n i) w.rng_if_agent (ticks lib core n i w).rng_if_agent
  unfolding ticks edges
  ticks-Grown zero i w = Grown-refl w.rng_if_agent
  ticks-Grown (suc n) i w = Grown-trans (tick-Grown i w) (ticks-Grown n (suc i) (tick lib core i w))

  -- A call of `dut_step_clk` has one edge.
  pub dut_step_clk-Grown :
      (w : Wrapper lib core) → Grown 1 w.rng_if_agent (dut_step_clk lib core w).rng_if_agent
  unfolding dut_step_clk edges
  dut_step_clk-Grown w = ticks-Grown 10 0 w

  -- The agents before a reset of `n` calls of `dut_step_clk`.
  pub record AreStartable (n : ℕ) (w : Wrapper lib core) : Type 0 where
    pub imem : SramAgent.Reset.IsStartable w.imem_agent
    pub dmem : SramAgent.Reset.IsStartable w.dmem_agent
    pub rng : RngAgent.Reset.IsStartable n w.rng_if_agent

  pub dut_set_reset-AreSound :
      (n : ℕ) (w : Wrapper lib core)
      → AreStartable n w
      → AreSound lib core (dut_set_reset lib core w)
  unfolding dut_set_reset RngAgent.set_reset RngAgent.drive_signals
  dut_set_reset-AreSound n w v =
      let imem = SramAgent.Reset.set_reset-IsBounded w.imem_agent w.ports.imem in
      let dmem = SramAgent.Reset.set_reset-IsBounded w.dmem_agent w.ports.dmem in
      let rng = RngAgent.Reset.set_reset-Inv n w.rng_if_agent w.ports.rng in
      record {
        imem = imem _ v.imem;
        dmem = dmem _ v.dmem;
        rng = rng _ v.rng refl;
        ready = record {
          imem = imem _ v.imem;
          dmem = dmem _ v.dmem;
          rng = rng _ v.rng v.rng.silent;
        };
      }

  pub dut_clear_reset-AreSound :
      (w : Wrapper lib core)
      → AreSound lib core w
      → (w.rng_if_agent.req_stall_len ≤ w.rng_if_agent.max_req_stall)
        × (w.rng_if_agent.rsp_stall_len ≤ w.rng_if_agent.max_rsp_stall)
      → AreSound lib core (dut_clear_reset lib core w)
  unfolding dut_clear_reset SramAgent.clear_reset
  dut_clear_reset-AreSound w v low = record {
    imem = v.imem;
    dmem = v.dmem;
    rng = RngAgent.Reset.clear_reset-Inv lib w.rng_if_agent w.ports.rng w.random v.rng low;
    ready = record {
      imem = v.ready.imem;
      dmem = v.ready.dmem;
      rng = redriven-Inv w.rng_if_agent w.ports.rng _ v.ready.rng;
    };
  }
