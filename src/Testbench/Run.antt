-- ===== src/Testbench/Run.antt =====
-- The loop of the run: it ends, and keeps the invariants of the agents.
use scarv_cpu.Base.{
  ℕ, zero, suc, ◌+◌, ◌*◌, ◌^◌, ◌≤◌, ◌<◌, ◌≡◌, ◌⊎◌, inl, inr, refl, subst, true, not, ◌&&◌, List, [],
  ◌∷◌, some, arith, ltb, ◌==◌, Bool-cases,
}
use scarv_cpu.CRandom.{CRandom}
use scarv_cpu.DutWrapper.{Core, Wrapper, TracePacket, dut_step_clk, dut_set_reset, dut_clear_reset}
use scarv_cpu.DutWrapper.Step.{dut_step_clk_lem}
use scarv_cpu.DutWrapper.Bounds.{AreSound, dut_step_clk-AreSound}
use scarv_cpu.Testbench.{Testbench, check_trace, round, run_loop, reset_steps, run_simulation}

module _ (lib : CRandom) (core : Core) where
  -- A round keeps the limits, and sets the verdict only by the first packet of the trace.
  pub check_trace_lem :
      (tb : Testbench lib core) (trace : List TracePacket)
      → let tb' = check_trace lib core tb trace in
        (tb'.max_sim_time ≡ tb.max_sim_time)
        × (tb'.dut.sim_time ≡ tb.dut.sim_time)
        × (tb'.pass_address ≡ tb.pass_address)
        × (tb'.fail_address ≡ tb.fail_address)
  unfolding check_trace
  check_trace_lem tb [] = (refl, refl, refl, refl)
  check_trace_lem tb (item ∷ trace) = ground arith

  pub round_lem :
      (tb : Testbench lib core)
      → tb.dut.sim_time + 10 < 2 ^ 64
      → let tb' = round lib core tb in
        (tb'.max_sim_time ≡ tb.max_sim_time) × (tb'.dut.sim_time ≡ tb.dut.sim_time + 10)
  unfolding round
  round_lem tb small =
      let d = dut_step_clk lib core tb.dut in
      let c = check_trace_lem (record tb { dut = d }) d.dut_trace in
      (c.0, omega (arith, c.1, (dut_step_clk_lem lib core tb.dut).0))

  -- From a time less than ten past the limit, with fuel for the steps up to ten past the limit, and
  -- where the times do not wrap, the loop ends; then the simulation is
  -- finished or its time is up, and it has run past the limit by less than a step.
  pub run_loop_ends :
      (fuel : ℕ) (tb : Testbench lib core)
      → tb.max_sim_time + 10 < 2 ^ 64
      → tb.dut.sim_time < tb.max_sim_time + 10
      → tb.max_sim_time + 10 ≤ tb.dut.sim_time + 10 * fuel
      → (tb' : Testbench lib core) × (run_loop lib core fuel tb ≡ some tb')
        × ((tb'.sim_finished ≡ true) ⊎ (tb.max_sim_time ≤ tb'.dut.sim_time))
        × (tb'.dut.sim_time < tb.max_sim_time + 10)
  unfolding run_loop
  run_loop_ends zero tb small before enough = absurd (omega arith)
  run_loop_ends (suc fuel) tb small before enough =
      elim (Bool-cases (ltb tb.dut.sim_time tb.max_sim_time && not tb.sim_finished)) [
        | inl go ↦
            let lt : tb.dut.sim_time < tb.max_sim_time = ground (arith, go) in
            let step = round_lem tb (omega arith) in
            let (tb', ends, why, time) =
              run_loop_ends fuel (round lib core tb) (omega (arith, step)) (omega (arith, step))
                (omega (arith, step)) in
            (
              tb',
              rw (go, run_loop) ends,
              (elim why [ inl x ↦ inl x | inr y ↦ inr (omega (arith, y, step.0)) ]),
              omega (arith, time, step),
            )
        | inr stop ↦ (tb, rw (stop, run_loop), ground (arith, stop), before)
      ]

  checked-AreSound :
      (tb : Testbench lib core) (trace : List TracePacket)
      → AreSound lib core tb.dut
      → AreSound lib core (check_trace lib core tb trace).dut
  unfolding check_trace
  checked-AreSound tb [] v = v
  checked-AreSound tb (item ∷ trace) v =
      let d = tb.dut in
      let v' : AreSound lib core (record d { dut_trace = trace }) = record {
        imem = v.imem;
        dmem = v.dmem;
        rng = v.rng;
        ready = record { imem = v.ready.imem; dmem = v.ready.dmem; rng = v.ready.rng };
      } in
      elim (Bool-cases (item.program_counter == tb.pass_address)) [
        | inl pass ↦ rw pass v'
        | inr other ↦ elim (Bool-cases (item.program_counter == tb.fail_address)) [
          | inl fail ↦ rw (other, fail) v'
          | inr neither ↦ rw (other, neither) v'
        ]
      ]

  run_loop_keeps :
      (fuel : ℕ) (tb tb' : Testbench lib core)
      → run_loop lib core fuel tb ≡ some tb'
      → AreSound lib core tb.dut
      → AreSound lib core tb'.dut
  unfolding run_loop round
  run_loop_keeps zero tb tb' e v = absurd (cc)
  run_loop_keeps (suc fuel) tb tb' e v =
      elim (Bool-cases (ltb tb.dut.sim_time tb.max_sim_time && not tb.sim_finished)) [
        | inl go ↦
            let d = dut_step_clk lib core tb.dut in
            run_loop_keeps fuel (round lib core tb) tb' (rw (go, run_loop) at e) (
              checked-AreSound (record tb { dut = d }) d.dut_trace
                (dut_step_clk-AreSound lib core tb.dut v))
        | inr stop ↦
            let same : tb ≡ tb' = cc (rw (stop, run_loop) at e) in
            subst (λ t. AreSound lib core t.dut) same v
      ]

  -- From a time less than ten past the limit, with fuel for the steps up to ten past the limit, and
  -- where the times do not wrap, the loop ends with the three agents in their invariants, if they are
  -- in them at the start.
  pub run_loop-AreSound :
      (fuel : ℕ) (tb : Testbench lib core)
      → tb.max_sim_time + 10 < 2 ^ 64
      → tb.dut.sim_time < tb.max_sim_time + 10
      → tb.max_sim_time + 10 ≤ tb.dut.sim_time + 10 * fuel
      → AreSound lib core tb.dut
      → (tb' : Testbench lib core) × (run_loop lib core fuel tb ≡ some tb')
        × AreSound lib core tb'.dut
  run_loop-AreSound fuel tb small before enough v =
      let (tb', ends, why, time) = run_loop_ends fuel tb small before enough in
      (tb', ends, run_loop_keeps fuel tb tb' ends v)

  pub reset_steps_time :
      (n : ℕ) (w : Wrapper lib core)
      → w.sim_time + 10 * n < 2 ^ 64
      → (reset_steps lib core n w).sim_time ≡ w.sim_time + 10 * n
  unfolding reset_steps
  reset_steps_time zero w small = omega arith
  reset_steps_time (suc n) w small =
      let d = dut_step_clk lib core w in
      let step : d.sim_time ≡ w.sim_time + 10 = omega (arith, (dut_step_clk_lem lib core w).0) in
      omega (arith, step, reset_steps_time n d (omega (arith, step)))

  -- A simulation that starts less than ten past the limit less the fifty units of the reset, with
  -- fuel for the steps from there up to ten past the limit, and whose times do not wrap, ends; then
  -- it is finished or its time is up, and it has run past the limit by less than a step.
  pub run_simulation_ends :
      (fuel : ℕ) (tb : Testbench lib core)
      → tb.max_sim_time + 10 < 2 ^ 64
      → tb.dut.sim_time + 50 < tb.max_sim_time + 10
      → tb.max_sim_time + 10 ≤ tb.dut.sim_time + 50 + 10 * fuel
      → (tb' : Testbench lib core) × (run_simulation lib core fuel tb ≡ some tb')
        × ((tb'.sim_finished ≡ true) ⊎ (tb.max_sim_time ≤ tb'.dut.sim_time))
        × (tb'.dut.sim_time < tb.max_sim_time + 10)
  unfolding run_simulation dut_set_reset dut_clear_reset
  run_simulation_ends fuel tb small before enough =
      let w = dut_set_reset lib core tb.dut in
      let d = dut_clear_reset lib core (reset_steps lib core 5 w) in
      let time : d.sim_time ≡ tb.dut.sim_time + 50 = reset_steps_time 5 w (omega arith) in
      run_loop_ends fuel (record tb { dut = d }) small (omega (arith, time)) (omega (arith, time))
