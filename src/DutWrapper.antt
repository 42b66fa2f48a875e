-- ===== src/DutWrapper.antt =====
-- flow/verilator/dut_wrapper.hpp and dut_wrapper.cpp: the core under test with its three agents.
-- The core itself is the class that Verilator generates from the RTL when the simulator is built. It
-- is a parameter: a state, and `eval`, which sets the output ports from the input ports and the state
-- and writes no input port.
pub mod Step
pub mod Bounds
pub mod Reset
use scarv_cpu.Base.{
  ℕ, zero, suc, ◌+◌, ◌/◌, Bool, true, false, not, List, [], ◌∷◌, ◌++◌, u64, ◌==◌, if◌then◌else◌,
}
use scarv_cpu.CRandom.{CRandom, rand_chance}
use scarv_cpu.Bus.{Bus}
use scarv_cpu.SramAgent
use scarv_cpu.SramAgent.{SramAgent, Pins}
use scarv_cpu.RngAgent
use scarv_cpu.RngAgent.Cycle
use scarv_cpu.RngAgent.{RngAgent, RngPins}

-- `dut_trace_pkt_t`
pub record TracePacket : Type 0 where
  pub program_counter : ℕ
  pub instr_word : ℕ

pub record Ports : Type 0 where
  pub g_clk : Bool
  pub g_resetn : Bool
  pub imem : Pins
  pub dmem : Pins
  pub rng : RngPins
  pub trs_valid : Bool
  pub trs_pc : ℕ
  pub trs_instr : ℕ

-- The output ports.
pub record Outputs : Type 0 where
  pub imem : SramAgent.CoreOutputs
  pub dmem : SramAgent.CoreOutputs
  pub rng : Cycle.CoreOutputs
  pub trs_valid : Bool
  pub trs_pc : ℕ
  pub trs_instr : ℕ

pub record Core : Type 1 where
  pub State : Type 0
  pub eval : Ports → State → Outputs × State

unfoldable pub set_outputs : Ports → Outputs → Ports
set_outputs p o = record p {
  imem = SramAgent.core_drives p.imem o.imem;
  dmem = SramAgent.core_drives p.dmem o.dmem;
  rng = Cycle.core_drives p.rng o.rng;
  trs_valid = o.trs_valid;
  trs_pc = o.trs_pc;
  trs_instr = o.trs_instr;
}

abbrev evals_per_clock : ℕ
evals_per_clock = 10

-- The wrapper's fields, the bus that both memory agents share, and the random number generator.
pub record Wrapper (lib : CRandom) (core : Core) : Type 0 where
  pub mem : Bus
  pub imem_agent : SramAgent
  pub dmem_agent : SramAgent
  pub rng_if_agent : RngAgent
  pub sim_time : ℕ
  pub dut : core.State
  pub ports : Ports
  pub dut_trace : List TracePacket
  pub random : lib.State

-- What the constructors leave as the memory was, and the state and ports of a new core.
pub record Unset (core : Core) : Type 0 where
  pub imem_error : Bool
  pub imem_recv : Bool
  pub imem_rdata : ℕ
  pub imem_gnt : Bool
  pub dmem_error : Bool
  pub dmem_recv : Bool
  pub dmem_rdata : ℕ
  pub dmem_gnt : Bool
  pub rng_status : ℕ
  pub rng_req_ready : Bool
  pub rng_rsp_valid : Bool
  pub rng_rsp_status : ℕ
  pub rng_rsp_data : ℕ
  pub dut : core.State
  pub ports : Ports

-- What `posedge_gclk` adds to the trace.
capture : Ports → List TracePacket → List TracePacket
capture p trace =
    if p.trs_valid
    then trace ++ record { program_counter = p.trs_pc; instr_word = p.trs_instr } ∷ []
    else trace

-- `rand_set_uint8`, which nothing calls: the result, and what `*d` holds then.
unfoldable pub rand_set_uint8 : (lib : CRandom) → ℕ → ℕ → lib.State → Bool × ℕ × lib.State
rand_set_uint8 lib x y s =
    let (chance, s') = rand_chance lib x y s in if chance then (true, 1, s') else (false, 0, s')

module _ (lib : CRandom) (core : Core) where
  abbrev W : Type 0
  W = Wrapper lib core

  -- The constructor: the agents point to the ports of the core.
  unfoldable pub new_wrapper : Bus → Unset core → lib.State → W
  new_wrapper mem u random = record {
    mem = mem;
    imem_agent = SramAgent.new_agent u.imem_error u.imem_recv u.imem_rdata u.imem_gnt;
    dmem_agent = SramAgent.new_agent u.dmem_error u.dmem_recv u.dmem_rdata u.dmem_gnt;
    rng_if_agent =
        RngAgent.new_agent u.rng_status u.rng_req_ready u.rng_rsp_valid u.rng_rsp_status
          u.rng_rsp_data;
    sim_time = 0;
    dut = u.dut;
    ports = u.ports;
    dut_trace = [];
    random = random;
  }

  unfoldable pub set_imem_max_stall : ℕ → W → W
  set_imem_max_stall stall w =
      let a = w.imem_agent in
      record w { imem_agent = record a { max_req_stall = stall; max_rsp_stall = stall } }

  unfoldable pub set_dmem_max_stall : ℕ → W → W
  set_dmem_max_stall stall w =
      let a = w.dmem_agent in
      record w { dmem_agent = record a { max_req_stall = stall; max_rsp_stall = stall } }

  eval : W → W
  eval w =
      let (outputs, state) = core.eval w.ports w.dut in
      record w { ports = set_outputs w.ports outputs; dut = state }

  -- The agents drive their signals, in the order of the code.
  drive : W → W
  drive w =
      let p = w.ports in
      record w {
        ports = record p {
          imem = SramAgent.drive_signals w.imem_agent p.imem;
          dmem = SramAgent.drive_signals w.dmem_agent p.dmem;
          rng = RngAgent.drive_signals w.rng_if_agent p.rng;
        };
      }

  unfoldable pub dut_set_reset : W → W
  dut_set_reset w =
      let p = w.ports in
      let (imem_agent, imem, freed) = SramAgent.set_reset w.imem_agent p.imem in
      let (dmem_agent, dmem, freed') = SramAgent.set_reset w.dmem_agent p.dmem in
      let (rng_if_agent, rng) = RngAgent.set_reset w.rng_if_agent p.rng in
      record w {
        imem_agent = imem_agent;
        dmem_agent = dmem_agent;
        rng_if_agent = rng_if_agent;
        ports = record p { g_resetn = false; g_clk = false; imem = imem; dmem = dmem; rng = rng };
      }

  unfoldable pub dut_clear_reset : W → W
  dut_clear_reset w =
      let p = w.ports in
      let (rng, random) = RngAgent.clear_reset lib p.rng w.random in
      record w {
        imem_agent = SramAgent.clear_reset w.imem_agent;
        dmem_agent = SramAgent.clear_reset w.dmem_agent;
        ports = record p { g_resetn = true; rng = rng };
        random = random;
      }

  -- The data memory's agent goes first: the two share the bus and the random numbers.
  unfoldable pub posedge_gclk : W → W
  unfolding capture
  posedge_gclk w =
      let p = w.ports in
      let (dmem_agent, mem1, s1) = SramAgent.posedge_clk lib w.dmem_agent w.mem p.dmem w.random in
      let (imem_agent, mem2, s2) = SramAgent.posedge_clk lib w.imem_agent mem1 p.imem s1 in
      let (rng_if_agent, s3) = RngAgent.posedge_clk lib w.rng_if_agent p.rng s2 in
      record w {
        mem = mem2;
        imem_agent = imem_agent;
        dmem_agent = dmem_agent;
        rng_if_agent = rng_if_agent;
        dut_trace = capture p w.dut_trace;
        random = s3;
      }

  -- The clock changes in the middle of the rounds.
  toggle_clk : W → W
  toggle_clk w =
      let p = w.ports in
      let w' : W = record w { ports = record p { g_clk = not p.g_clk } } in
      if w'.ports.g_clk then posedge_gclk w' else w'

  -- One round of the loop of `dut_step_clk`.
  unfoldable pub tick : ℕ → W → W
  unfolding eval drive toggle_clk
  tick i w =
      let w1 = if i == evals_per_clock / 2 then toggle_clk w else w in
      let w2 = eval (drive (eval w1)) in record w2 { sim_time = u64 (w2.sim_time + 1) }

  ticks : ℕ → ℕ → W → W
  ticks zero i w = w
  ticks (suc n) i w = ticks n (suc i) (tick i w)

  unfoldable pub dut_step_clk : W → W
  unfolding ticks
  dut_step_clk w = ticks evals_per_clock 0 w
