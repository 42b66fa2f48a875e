-- ===== src/SramAgent/Cycle.antt =====
-- Clock cycles of the agent, with a core that drives anything at all.
use scarv_cpu.Base.{List, [], ◌∷◌}
use scarv_cpu.CRandom.{CRandom}
use scarv_cpu.Bus.{Bus}
use scarv_cpu.SramAgent.{SramAgent, Pins, CoreOutputs, core_drives, posedge_clk, drive_signals}

pub record World (lib : CRandom) : Type 0 where
  pub agent : SramAgent
  pub bus : Bus
  pub pins : Pins
  pub random : lib.State

module _ (lib : CRandom) where
  unfoldable pub cycle : World lib → CoreOutputs → World lib
  cycle w c =
      let pins = core_drives w.pins c in
      let (agent, bus, random) = posedge_clk lib w.agent w.bus pins w.random in
      record { agent = agent; bus = bus; pins = drive_signals agent pins; random = random }

  unfoldable pub run : World lib → List CoreOutputs → World lib
  run w [] = w
  run w (c ∷ cs) = run (cycle w c) cs
