-- ===== src/DutWrapper/Bounds.antt =====
-- The invariants of the three agents, kept by the clock of the core under test.
use scarv_cpu.Base.{ℕ, zero, suc, Bool, true, false, not, Bool-cases, inl, inr, ◌==◌}
use scarv_cpu.CRandom.{CRandom}
use scarv_cpu.SramAgent
use scarv_cpu.SramAgent.{SramAgent, Pins}
use scarv_cpu.SramAgent.Counters.{IsBounded, driven-IsBounded, posedge_clk-IsBounded}
use scarv_cpu.RngAgent
use scarv_cpu.RngAgent.{RngAgent, RngPins}
use scarv_cpu.RngAgent.Invariant.{Inv, driven-Inv, posedge_clk-Inv}
use scarv_cpu.DutWrapper.{
  Core, Wrapper, set_outputs, eval, drive, posedge_gclk, toggle_clk, tick, ticks, dut_step_clk,
}

-- Once an agent drives its next values, the pins from before play no part.
redriven-IsBounded :
    (a : SramAgent) (p q : Pins)
    → IsBounded a (SramAgent.drive_signals a p)
    → IsBounded a (SramAgent.drive_signals a q)
unfolding SramAgent.drive_signals
redriven-IsBounded a p q v = record {
  limits = v.limits;
  req_low = v.req_low;
  req_bound = v.req_bound;
  rsp_bound = v.rsp_bound;
}

pub redriven-Inv :
    (a : RngAgent) (p q : RngPins)
    → Inv a (RngAgent.drive_signals a p)
    → Inv a (RngAgent.drive_signals a q)
unfolding RngAgent.drive_signals
redriven-Inv a p q v = record {
  fits = v.fits;
  req_low = v.req_low;
  req_bound = v.req_bound;
  rsp_low = v.rsp_low;
  rsp_bound = v.rsp_bound;
  shown = v.shown;
  known = v.known;
  all_known = v.all_known;
}

module _ (lib : CRandom) (core : Core) where
  -- Each agent is in its invariant once it drives its next values.
  pub record AreReady (w : Wrapper lib core) : Type 0 where
    pub imem : IsBounded w.imem_agent (SramAgent.drive_signals w.imem_agent w.ports.imem)
    pub dmem : IsBounded w.dmem_agent (SramAgent.drive_signals w.dmem_agent w.ports.dmem)
    pub rng : Inv w.rng_if_agent (RngAgent.drive_signals w.rng_if_agent w.ports.rng)

  -- Each agent is in its invariant with the pins as they are, and once it drives its next values.
  pub record AreSound (w : Wrapper lib core) : Type 0 where
    pub imem : IsBounded w.imem_agent w.ports.imem
    pub dmem : IsBounded w.dmem_agent w.ports.dmem
    pub rng : Inv w.rng_if_agent w.ports.rng
    pub ready : AreReady w

  posedge_gclk-AreReady : (w : Wrapper lib core) → AreSound w → AreReady (posedge_gclk lib core w)
  unfolding posedge_gclk
  posedge_gclk-AreReady w v = record {
    imem = posedge_clk-IsBounded lib w.imem_agent _ w.ports.imem _ v.imem;
    dmem = posedge_clk-IsBounded lib w.dmem_agent w.mem w.ports.dmem w.random v.dmem;
    rng = posedge_clk-Inv lib w.rng_if_agent w.ports.rng _ v.rng;
  }

  clocked-AreSound :
      (w : Wrapper lib core) (b : Bool)
      → AreSound w
      → AreSound (record w { ports = record (w.ports) { g_clk = b } })
  clocked-AreSound w b v = record {
    imem = v.imem;
    dmem = v.dmem;
    rng = v.rng;
    ready = record { imem = v.ready.imem; dmem = v.ready.dmem; rng = v.ready.rng };
  }

  toggle_clk-AreReady : (w : Wrapper lib core) → AreSound w → AreReady (toggle_clk lib core w)
  unfolding toggle_clk
  toggle_clk-AreReady w v = elim (Bool-cases (not w.ports.g_clk)) [
    | inl h ↦ rw (h, toggle_clk) (posedge_gclk-AreReady _ (clocked-AreSound w true v))
    | inr h ↦ rw (h, toggle_clk) (clocked-AreSound w false v).ready
  ]

  -- The core runs, the agents drive their signals, and the core runs again.
  settle-AreSound :
      (w : Wrapper lib core)
      → AreReady w
      → AreSound (eval lib core (drive lib core (eval lib core w)))
  unfolding eval drive set_outputs
  settle-AreSound w v =
      let w1 = drive lib core (eval lib core w) in
      let i = redriven-IsBounded w.imem_agent w.ports.imem (eval lib core w).ports.imem v.imem in
      let d = redriven-IsBounded w.dmem_agent w.ports.dmem (eval lib core w).ports.dmem v.dmem in
      let r = redriven-Inv w.rng_if_agent w.ports.rng (eval lib core w).ports.rng v.rng in
      let o = (core.eval w1.ports w1.dut).0 in
      record {
        imem = driven-IsBounded w.imem_agent w1.ports.imem o.imem i;
        dmem = driven-IsBounded w.dmem_agent w1.ports.dmem o.dmem d;
        rng = driven-Inv w.rng_if_agent w1.ports.rng o.rng r;
        ready = record {
          imem = redriven-IsBounded w.imem_agent w.ports.imem _ v.imem;
          dmem = redriven-IsBounded w.dmem_agent w.ports.dmem _ v.dmem;
          rng = redriven-Inv w.rng_if_agent w.ports.rng _ v.rng;
        };
      }

  timed-AreSound :
      (w : Wrapper lib core) (t : ℕ) → AreSound w → AreSound (record w { sim_time = t })
  timed-AreSound w t v = record {
    imem = v.imem;
    dmem = v.dmem;
    rng = v.rng;
    ready = record { imem = v.ready.imem; dmem = v.ready.dmem; rng = v.ready.rng };
  }

  tick-AreSound : (i : ℕ) (w : Wrapper lib core) → AreSound w → AreSound (tick lib core i w)
  unfolding tick
  tick-AreSound i w v = elim (Bool-cases (i == 5)) [
    | inl h ↦
        rw h
          (timed-AreSound _ _ (settle-AreSound (toggle_clk lib core w) (toggle_clk-AreReady w v)))
    | inr h ↦ rw h (timed-AreSound _ _ (settle-AreSound w v.ready))
  ]

  ticks-AreSound : (n i : ℕ) (w : Wrapper lib core) → AreSound w → AreSound (ticks lib core n i w)
  unfolding ticks
  ticks-AreSound zero i w v = v
  ticks-AreSound (suc n) i w v = ticks-AreSound n (suc i) (tick lib core i w) (tick-AreSound i w v)

  -- A call of `dut_step_clk` keeps the invariants of the three agents, whatever the core does and
  -- whatever random numbers are drawn.
  pub dut_step_clk-AreSound :
      (w : Wrapper lib core) → AreSound w → AreSound (dut_step_clk lib core w)
  unfolding dut_step_clk
  dut_step_clk-AreSound w v = ticks-AreSound 10 0 w v
