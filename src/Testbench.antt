-- ===== src/Testbench.antt =====
-- flow/verilator/testbench.hpp and testbench.cpp: the bus with its devices, and the run of the core.
pub mod Build
pub mod Run
pub mod Verdict
pub mod Sound
use scarv_cpu.Base.{
  ℕ, zero, suc, ◌+◌, ◌-◌, ◌^◌, Bool, true, false, not, ◌&&◌, List, [], ◌∷◌, Option, none, some, ltb,
  ◌==◌, if◌then◌else◌,
}
use scarv_cpu.CRandom.{CRandom}
use scarv_cpu.Device.Ram.{new_ram}
use scarv_cpu.Device.Uart.{new_uart}
use scarv_cpu.Device.{ram, uart}
use scarv_cpu.Bus.{Bus, new_bus, add_device}
use scarv_cpu.DutWrapper.{
  Core, Wrapper, Unset, new_wrapper, TracePacket, dut_set_reset, dut_clear_reset, dut_step_clk,
}

abbrev default_ram_base_addr : ℕ
default_ram_base_addr = 0x8000_0000

abbrev uart_base_addr : ℕ
uart_base_addr = 0x4060_0000

abbrev default_ram_size : ℕ
default_ram_size = 0x2_0000

-- The part of `build` that sets up the bus. The arguments are the registers of the UART, which are
-- left as the memory was, and the counter of transactions.
unfoldable pub build_bus : ℕ → ℕ → ℕ → ℕ → ℕ → Bus
build_bus next_id tx rx ctrl status =
    let default_ram = ram (new_ram default_ram_base_addr default_ram_size) in
    let uart_0 = uart (new_uart uart_base_addr tx rx ctrl status) in
    (add_device (add_device (new_bus next_id) default_ram).1 uart_0).1

module _ (lib : CRandom) (core : Core) where
  pub record Testbench : Type 0 where
    pub dut : Wrapper lib core
    pub max_sim_time : ℕ
    pub pass_address : ℕ
    pub fail_address : ℕ
    pub sim_finished : Bool
    pub sim_passed : Bool

  -- The constructor, with its `build`.
  unfoldable pub new_testbench : ℕ → ℕ → ℕ → ℕ → ℕ → Unset core → lib.State → Testbench
  new_testbench next_id tx rx ctrl status u random = record {
    dut = new_wrapper lib core (build_bus next_id tx rx ctrl status) u random;
    max_sim_time = 10000;
    pass_address = 0;
    fail_address = 2 ^ 64 - 1;
    sim_finished = false;
    sim_passed = false;
  }

  -- What the loop of `run` does with the packets after a step: the first is looked at and taken off.
  unfoldable pub check_trace : Testbench → List TracePacket → Testbench
  check_trace tb [] = tb
  check_trace tb (item ∷ trace) =
      let d = tb.dut in
      let popped : Testbench = record tb { dut = record d { dut_trace = trace } } in
      if item.program_counter == tb.pass_address
      then record popped { sim_passed = true; sim_finished = true }
      else if item.program_counter == tb.fail_address
      then record popped { sim_passed = false; sim_finished = true }
      else popped

  unfoldable pub round : Testbench → Testbench
  unfolding check_trace
  round tb = let d = dut_step_clk lib core tb.dut in check_trace (record tb { dut = d }) d.dut_trace

  -- The loop of `run`, on fuel; `none` means that it ran out.
  unfoldable pub run_loop : ℕ → Testbench → Option Testbench
  run_loop zero tb = none
  run_loop (suc fuel) tb = elim (ltb tb.dut.sim_time tb.max_sim_time && not tb.sim_finished) [
    | true ↦ run_loop fuel (round tb)
    | false ↦ some tb
  ]

  -- The steps in reset.
  pub reset_steps : ℕ → Wrapper lib core → Wrapper lib core
  reset_steps zero w = w
  reset_steps (suc n) w = reset_steps n (dut_step_clk lib core w)

  -- `pre_run` and `run`.
  unfoldable pub run_simulation : ℕ → Testbench → Option Testbench
  unfolding reset_steps
  run_simulation fuel tb =
      let d = dut_clear_reset lib core (reset_steps 5 (dut_set_reset lib core tb.dut)) in
      run_loop fuel (record tb { dut = d })
