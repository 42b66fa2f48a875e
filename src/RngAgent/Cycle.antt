-- ===== src/RngAgent/Cycle.antt =====
-- Clock cycles of the agent, with a core that drives anything at all.
use scarv_cpu.Base.{ℕ, Bool, List, [], ◌∷◌}
use scarv_cpu.CRandom.{CRandom}
use scarv_cpu.RngAgent.{RngAgent, RngPins, posedge_clk, drive_signals}

-- What the core drives in a cycle.
pub record CoreOutputs : Type 0 where
  pub valid : Bool
  pub op : ℕ
  pub word : ℕ
  pub ready : Bool

unfoldable pub core_drives : RngPins → CoreOutputs → RngPins
core_drives p c = record p {
  req_valid = c.valid;
  req_op = c.op;
  req_data = c.word;
  rsp_ready = c.ready;
}

pub record World (lib : CRandom) : Type 0 where
  pub agent : RngAgent
  pub pins : RngPins
  pub random : lib.State

module _ (lib : CRandom) where
  unfoldable pub cycle : World lib → CoreOutputs → World lib
  cycle w c =
      let pins = core_drives w.pins c in
      let (agent, random) = posedge_clk lib w.agent pins w.random in
      record { agent = agent; pins = drive_signals agent pins; random = random }

  unfoldable pub run : World lib → List CoreOutputs → World lib
  run w [] = w
  run w (c ∷ cs) = run (cycle w c) cs
