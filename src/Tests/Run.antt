-- ===== src/Tests/Run.antt =====
-- The theorems on the clock of the core under test and on the run of the simulation, at concrete
-- values.
use scarv_cpu.Base.{
  ℕ, ◌++◌, ◌*◌, Text, codes, List, Option, none, ◌∷◌, Bool, inr, ◌+◌, ◌≤◌, ◌<◌, ◌≡◌, ◌⊎◌, refl,
  true, false, ◌&&◌, ◌||◌, [], some, leb, ltb, arith, length,
}
use scarv_cpu.Bus.Map.{AllApart}
use scarv_cpu.Bus.Bytes.{plain_at, writable_at}
use scarv_cpu.SramAgent
use scarv_cpu.SramAgent.Counters.{IsBounded}
use scarv_cpu.RngAgent
use scarv_cpu.RngAgent.Invariant.{Inv}
use scarv_cpu.DutWrapper.Bounds.{AreSound}
use scarv_cpu.DutWrapper.{TracePacket, Unset, Core, Wrapper}
use scarv_cpu.Testbench.{Testbench, build_bus, new_testbench, run_loop, run_simulation}
use scarv_cpu.Testbench.Build.{build_bus_map}
use scarv_cpu.Testbench.Verdict.{verdict, packets, behind_reset, run_loop-verdict}
use scarv_cpu.Testbench.Run.{run_simulation_ends}
use scarv_cpu.Main.{Says, Files, configure, main, exited}
use scarv_cpu.Bus.{Bus}
use scarv_cpu.Main.Sound.{configured_run-AreSound}
use scarv_cpu.Main.Exits.{main_exits, Ran, Dumps, Checks}
use scarv_cpu.Arguments.{Settings, defaults, process_argument, process_arguments}
use scarv_cpu.Arguments.Number.{stoul, stoul_any, number, prefixed, digits_from}
use scarv_cpu.Tests.{
  counting, small_bus, memory_agent, memory_pins, asks_memory, random_agent, random_pins,
  asks_random,
}

-- A core that asks for the same word and the same sample all the time, and never retires.
abbrev asking_core : Core
asking_core = record {
  State = Unit {0};
  eval = λ p s. (
    record {
      imem = asks_memory;
      dmem = asks_memory;
      rng = asks_random;
      trs_valid = false;
      trs_pc = 0;
      trs_instr = 0;
    },
    s,
  );
}

abbrev wrapper : Wrapper counting asking_core
wrapper = record {
  mem = small_bus;
  imem_agent = memory_agent;
  dmem_agent = memory_agent;
  rng_if_agent = random_agent;
  sim_time = 95;
  dut = tt;
  ports = record {
    g_clk = true;
    g_resetn = true;
    imem = memory_pins;
    dmem = memory_pins;
    rng = random_pins;
    trs_valid = false;
    trs_pc = 0;
    trs_instr = 0;
  };
  dut_trace = [];
  random = 0;
}

abbrev testbench : Testbench counting asking_core
testbench = record {
  dut = wrapper;
  max_sim_time = 110;
  pass_address = 0;
  fail_address = 16;
  sim_finished = false;
  sim_passed = false;
}

run_simulation_ends_example :
    (tb' : Testbench counting asking_core) × (run_simulation counting asking_core 3
        (record testbench { max_sim_time = 160 })
      ≡ some tb')
    × ((tb'.sim_finished ≡ true) ⊎ (160 ≤ tb'.dut.sim_time))
    × (tb'.dut.sim_time < 160 + 10)
run_simulation_ends_example =
    run_simulation_ends counting asking_core 3 (record testbench { max_sim_time = 160 })
      (omega arith) (omega arith) (omega arith)

bounded : (b : Bool) → IsBounded memory_agent (record memory_pins { mem_gnt = b })
bounded b = record {
  limits = record { req_fits = omega arith; rsp_fits = omega arith };
  req_low = λ g. omega arith;
  req_bound = omega arith;
  rsp_bound = omega arith;
}

shown : Inv random_agent random_pins
shown = record {
  fits = (omega arith, omega arith);
  req_low = λ g. omega arith;
  req_bound = omega arith;
  rsp_low = λ g. omega arith;
  rsp_bound = omega arith;
  shown = λ h. (refl, refl);
  known = inr (inr refl);
  all_known = (inr (inr refl), tt);
}

wrapper-AreSound : AreSound counting asking_core wrapper
unfolding SramAgent.drive_signals RngAgent.drive_signals
wrapper-AreSound = record {
  imem = bounded true;
  dmem = bounded true;
  rng = shown;
  ready = record { imem = bounded true; dmem = bounded true; rng = shown };
}

-- A core that retires one instruction again and again.
abbrev retiring_core : Core
retiring_core = record {
  State = Unit {0};
  eval = λ p s. (
    record {
      imem = asks_memory;
      dmem = asks_memory;
      rng = asks_random;
      trs_valid = true;
      trs_pc = 0x8000_0000;
      trs_instr = 19;
    },
    s,
  );
}

abbrev retires : Testbench counting retiring_core
retires = record {
  dut = record {
    mem = small_bus;
    imem_agent = memory_agent;
    dmem_agent = memory_agent;
    rng_if_agent = random_agent;
    sim_time = 0;
    dut = tt;
    ports = wrapper.ports;
    dut_trace = [];
    random = wrapper.random;
  };
  max_sim_time = 40;
  pass_address = 0x8000_0000;
  fail_address = 0;
  sim_finished = false;
  sim_passed = false;
}

run_loop-verdict_example :
    (tb' : Testbench counting retiring_core) × (n : ℕ) × (seen : List TracePacket) × (run_loop
        counting retiring_core 5 retires
      ≡ some tb')
    × (tb'.dut.sim_time ≡ 0 + 10 * n)
    × (packets counting retiring_core n retires ≡ seen ++ tb'.dut.dut_trace)
    × (length tb'.dut.dut_trace ≤ 0)
    × ((tb'.sim_finished, tb'.sim_passed) ≡ verdict 0x8000_0000 0 false seen)
    × ((tb'.sim_finished ≡ true) ⊎ (40 ≤ tb'.dut.sim_time))
run_loop-verdict_example =
    run_loop-verdict counting retiring_core 5 retires refl (omega arith) (omega arith) (omega arith)

build_bus_map_example :
    let bus = build_bus 0 0 0 0 0 in
    AllApart bus.devices
    × (writable_at bus 0x8000_0004 ≡ (leb 0x8000_0000 0x8000_0004 && ltb 0x8000_0004 0x8002_0000))
    × (plain_at bus 0x8000_0004 ≡ (ltb 0x8000_0004 0x4060_0000 || ltb 0x4060_0008 0x8000_0004))
build_bus_map_example = build_bus_map 0 0 0 0 0 0x8000_0004

abbrev unset_for : (core : Core) → core.State → Unset core
unset_for core state = record {
  imem_error = false;
  imem_recv = false;
  imem_rdata = 0;
  imem_gnt = false;
  dmem_error = false;
  dmem_recv = false;
  dmem_rdata = 0;
  dmem_gnt = false;
  rng_status = 0;
  rng_req_ready = false;
  rng_rsp_valid = false;
  rng_rsp_status = 0;
  rng_rsp_data = 0;
  dut = state;
  ports = wrapper.ports;
}

abbrev unset : Unset asking_core
unset = unset_for asking_core tt

abbrev no_files : Files
no_files path = none

abbrev short_run : Settings
short_run = record defaults { max_sim_time = 200; quiet = true }

abbrev three_arguments : List Text
three_arguments = codes "+TIMEOUT=20" ∷ codes "+PASS_ADDR=0x80000000" ∷ codes "+q" ∷ []

abbrev passing_run : Settings
passing_run = record short_run { pass_address = 0x8000_0000 }

main_exits_example :
    let tb0 = new_testbench counting retiring_core 0 0 0 0 0 (unset_for retiring_core tt) 0 in
    let tb1 = configure counting retiring_core passing_run tb0 (build_bus 0 0 0 0 0) in
    (tb : Testbench counting retiring_core) × (n : ℕ) × (seen : List TracePacket) × (files' : Files)
    × (mem' : Bus) × (verif : Option Bool) × (exit : ℕ) × (tb1.dut.mem ≡ build_bus 0 0 0 0 0)
    × (run_simulation counting retiring_core 30 tb1 ≡ some tb)
    × Ran counting retiring_core passing_run (behind_reset counting retiring_core tb1) tb n seen
    × Dumps 30 passing_run no_files tb.dut.mem files' mem'
    × Checks 30 passing_run files' mem' verif
    × Says exit tb.dut.sim_time 200 tb.sim_passed verif
    × (main counting retiring_core 30 0 0 0 0 0
          (unset_for retiring_core tt)
          0
          no_files
          three_arguments
        ≡ (exited exit, files'))
unfolding defaults process_arguments process_argument stoul stoul_any number prefixed digits_from
main_exits_example =
    main_exits counting retiring_core 30 0 0 0 0 0 (unset_for retiring_core tt) 0 no_files
      three_arguments passing_run (build_bus 0 0 0 0 0) refl
      record {
        loads = refl;
        reference = refl;
        small = omega arith;
        behind = omega arith;
        fuel_steps = omega arith;
        fuel_words = (omega arith, omega arith, omega arith);
      }

configured_run-AreSound_example :
    let tb = new_testbench counting asking_core 0 0 0 0 0 unset 0 in
    (tb' : Testbench counting asking_core) × (run_simulation counting asking_core 30
        (configure counting asking_core short_run tb (build_bus 0 0 0 0 0))
      ≡ some tb')
    × AreSound counting asking_core tb'.dut
unfolding defaults
configured_run-AreSound_example =
    configured_run-AreSound counting asking_core 30 short_run 0 0 0 0 0 unset 0
      (build_bus 0 0 0 0 0)
      record { imem = (omega arith, omega arith); dmem = (omega arith, omega arith) } refl
      (omega arith) (omega arith) (omega arith)
