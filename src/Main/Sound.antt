-- ===== src/Main/Sound.antt =====
-- The invariants of the agents at the end of the simulation that `main` runs.
use scarv_cpu.Base.{ℕ, ◌+◌, ◌*◌, ◌^◌, ◌≤◌, ◌<◌, ◌≡◌, refl, false, some, arith}
use scarv_cpu.CRandom.{CRandom}
use scarv_cpu.SramAgent
use scarv_cpu.RngAgent
use scarv_cpu.DutWrapper.{Core, Unset, new_wrapper, set_imem_max_stall, set_dmem_max_stall}
use scarv_cpu.DutWrapper.Bounds.{AreSound}
use scarv_cpu.DutWrapper.Reset.{AreStartable}
use scarv_cpu.Testbench.{Testbench, new_testbench, run_simulation}
use scarv_cpu.Testbench.Sound.{run_simulation-AreSound}
use scarv_cpu.Arguments.{Settings}
use scarv_cpu.Bus.{Bus}
use scarv_cpu.Main.{configure}

-- The stall limits that the arguments set: not zero, and in 32 bits.
pub record HasStallLimits (g : Settings) : Type 0 where
  pub imem : (0 < g.max_stall_imem) × (g.max_stall_imem < 2 ^ 32)
  pub dmem : (0 < g.max_stall_dmem) × (g.max_stall_dmem < 2 ^ 32)

module _ (lib : CRandom) (core : Core) where
  configured-AreStartable :
      (g : Settings) (next_id tx rx ctrl status : ℕ) (u : Unset core) (random : lib.State)
      (mem : Bus)
      → HasStallLimits g
      → u.rng_rsp_valid ≡ false
      → let tb = new_testbench lib core next_id tx rx ctrl status u random in
        AreStartable lib core 5 (configure lib core g tb mem).dut
  unfolding configure new_testbench new_wrapper set_imem_max_stall set_dmem_max_stall
      SramAgent.new_agent RngAgent.new_agent
  configured-AreStartable g next_id tx rx ctrl status u random mem h silent = record {
    imem = record {
      limits = record { req_fits = h.imem.1; rsp_fits = h.imem.1 };
      req_low = h.imem.0;
      rsp_low = omega arith;
    };
    dmem = record {
      limits = record { req_fits = h.dmem.1; rsp_fits = h.dmem.1 };
      req_low = h.dmem.0;
      rsp_low = omega arith;
    };
    rng = record {
      fits = (omega arith, omega arith);
      long = (omega arith, omega arith);
      empty = refl;
      silent = silent;
    };
  }

  -- From the constructors, with stall limits that are not zero and times that do not wrap, with a
  -- limit behind the reset and fuel for the steps up to ten past the limit, and where the memory that
  -- holds the unset valid flag of the randomness agent happens to be zero: the simulation that `main`
  -- runs ends, for any core and any random numbers, and all three agents are then in their
  -- invariants.
  pub configured_run-AreSound :
      (fuel : ℕ) (g : Settings) (next_id tx rx ctrl status : ℕ) (u : Unset core)
      (random : lib.State) (mem : Bus)
      → HasStallLimits g
      → u.rng_rsp_valid ≡ false
      → g.max_sim_time + 10 < 2 ^ 64
      → 40 < g.max_sim_time
      → g.max_sim_time + 10 ≤ 50 + 10 * fuel
      → let tb = new_testbench lib core next_id tx rx ctrl status u random in
        (tb' : Testbench lib core) × (run_simulation lib core fuel (configure lib core g tb mem)
          ≡ some tb')
        × AreSound lib core tb'.dut
  unfolding configure new_testbench new_wrapper set_imem_max_stall set_dmem_max_stall
  configured_run-AreSound fuel g next_id tx rx ctrl status u random mem h silent small behind
        enough =
      let tb = new_testbench lib core next_id tx rx ctrl status u random in
      run_simulation-AreSound lib core fuel (configure lib core g tb mem)
        (configured-AreStartable g next_id tx rx ctrl status u random mem h silent)
        (omega (arith, small)) (omega (arith, behind)) (omega (arith, enough))
