-- ===== src/Testbench/Sound.antt =====
-- The simulation from before its reset: the invariants of the agents hold at its end.
use scarv_cpu.Base.{ℕ, zero, suc, ◌+◌, ◌*◌, ◌^◌, ◌≤◌, ◌<◌, ◌≡◌, subst, some, arith}
use scarv_cpu.CRandom.{CRandom}
use scarv_cpu.RngAgent
use scarv_cpu.RngAgent.Reset.{Grown, Grown-refl, Grown-trans}
use scarv_cpu.DutWrapper.{Core, Wrapper, dut_step_clk, dut_set_reset, dut_clear_reset}
use scarv_cpu.DutWrapper.Bounds.{AreSound, dut_step_clk-AreSound}
use scarv_cpu.DutWrapper.Reset.{
  AreStartable, dut_step_clk-Grown, dut_set_reset-AreSound, dut_clear_reset-AreSound,
}
use scarv_cpu.Testbench.{Testbench, reset_steps, run_simulation}
use scarv_cpu.Testbench.Run.{run_loop-AreSound, reset_steps_time}

module _ (lib : CRandom) (core : Core) where
  reset_steps-AreSound :
      (n : ℕ) (w : Wrapper lib core)
      → AreSound lib core w
      → AreSound lib core (reset_steps lib core n w)
  unfolding reset_steps
  reset_steps-AreSound zero w v = v
  reset_steps-AreSound (suc n) w v =
      reset_steps-AreSound n (dut_step_clk lib core w) (dut_step_clk-AreSound lib core w v)

  reset_steps-Grown :
      (n : ℕ) (w : Wrapper lib core)
      → Grown n w.rng_if_agent (reset_steps lib core n w).rng_if_agent
  unfolding reset_steps
  reset_steps-Grown zero w = Grown-refl w.rng_if_agent
  reset_steps-Grown (suc n) w =
      let w' = dut_step_clk lib core w in
      let one_more : 1 + n ≡ suc n = omega arith in
      subst (λ k. Grown k w.rng_if_agent (reset_steps lib core n w').rng_if_agent) one_more
        (Grown-trans (dut_step_clk-Grown lib core w) (reset_steps-Grown n w'))

  -- The five steps in reset and its end.
  reset-AreSound :
      (w : Wrapper lib core)
      → AreStartable lib core 5 w
      → AreSound lib core
          (dut_clear_reset lib core (reset_steps lib core 5 (dut_set_reset lib core w)))
  unfolding dut_set_reset RngAgent.set_reset
  reset-AreSound w v =
      let w1 = dut_set_reset lib core w in
      let g = reset_steps-Grown 5 w1 in
      let long = v.rng.long in
      dut_clear_reset-AreSound lib core (reset_steps lib core 5 w1)
        (reset_steps-AreSound 5 w1 (dut_set_reset-AreSound lib core 5 w v))
        (omega (arith, g.req, g.req_limit, long), omega (arith, g.rsp, g.rsp_limit, long))

  pub run_simulation-AreSound :
      (fuel : ℕ) (tb : Testbench lib core)
      → AreStartable lib core 5 tb.dut
      → tb.max_sim_time + 10 < 2 ^ 64
      → tb.dut.sim_time + 50 < tb.max_sim_time + 10
      → tb.max_sim_time + 10 ≤ tb.dut.sim_time + 50 + 10 * fuel
      → (tb' : Testbench lib core) × (run_simulation lib core fuel tb ≡ some tb')
        × AreSound lib core tb'.dut
  unfolding run_simulation dut_set_reset dut_clear_reset
  run_simulation-AreSound fuel tb v small before enough =
      let w = dut_set_reset lib core tb.dut in
      let d = dut_clear_reset lib core (reset_steps lib core 5 w) in
      let time : d.sim_time ≡ tb.dut.sim_time + 50 = reset_steps_time lib core 5 w (omega arith) in
      run_loop-AreSound lib core fuel (record tb { dut = d }) small (omega (arith, time))
        (omega (arith, time)) (reset-AreSound tb.dut v)
