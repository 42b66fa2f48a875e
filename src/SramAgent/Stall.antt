-- ===== src/SramAgent/Stall.antt =====
-- How long the agent can stall a request or a response.
use scarv_cpu.Base.{
  suc, ◌+◌, ◌≤◌, ◌<◌, ◌≡◌, ◌⊎◌, inl, inr, ◌∙◌, true, false, List, [], ◌∷◌, length, arith,
}
use scarv_cpu.CRandom.{CRandom}
use scarv_cpu.SramAgent.{CoreOutputs, core_drives, drive_signals}
use scarv_cpu.SramAgent.Cycle.{World, cycle}
use scarv_cpu.SramAgent.Counters.{IsBounded, driven-IsBounded, posedge_clk_stall, cycle-IsBounded}

module _ (lib : CRandom) where
  -- Cycles in each of which the core asks for a request that is not granted.
  abbrev AllRefused : World lib → List CoreOutputs → Type 0
  AllRefused w [] = Unit {0}
  AllRefused w (c ∷ cs) = (c.req ≡ true) × (w.pins.mem_gnt ≡ false) × AllRefused (cycle lib w c) cs

  -- Cycles before each of which a request waits in the queue and there is no response.
  abbrev AllUnanswered : World lib → List CoreOutputs → Type 0
  AllUnanswered w [] = Unit {0}
  AllUnanswered w (c ∷ cs) =
      (0 < length w.agent.req_q) × (w.pins.mem_recv ≡ false) × AllUnanswered (cycle lib w c) cs

  refused_once :
      (w : World lib) (c : CoreOutputs)
      → IsBounded w.agent w.pins
      → c.req ≡ true
      → w.pins.mem_gnt ≡ false
      → ((cycle lib w c).agent.req_stall_len ≡ suc w.agent.req_stall_len)
        × ((cycle lib w c).agent.max_req_stall ≡ w.agent.max_req_stall)
  unfolding cycle core_drives
  refused_once w c v asks low =
      let p = core_drives w.pins c in
      let v' = driven-IsBounded w.agent w.pins c v in
      let e = posedge_clk_stall lib w.agent w.bus p w.random v' in (e.2 ∙ ground arith, e.0)

  refused_bound :
      (cs : List CoreOutputs) (w : World lib)
      → IsBounded w.agent w.pins
      → AllRefused w cs
      → w.agent.req_stall_len + length cs ≤ w.agent.max_req_stall
  refused_bound [] w v h = omega (arith, v.req_bound)
  refused_bound (c ∷ cs) w v h = omega (
    arith,
    refused_once w c v h.0 h.1,
    refused_bound cs (cycle lib w c) (cycle-IsBounded lib w c v) h.2,
  )

  -- From an agent whose stall counters are in bounds, whatever random numbers are drawn: cycles in a
  -- row in each of which the core asks and is not granted are at most `max_req_stall`.
  pub refused-le-max_req_stall :
      (cs : List CoreOutputs) (w : World lib)
      → IsBounded w.agent w.pins
      → AllRefused w cs
      → length cs ≤ w.agent.max_req_stall
  refused-le-max_req_stall cs w v h = omega (arith, refused_bound cs w v h)

  unanswered_once :
      (w : World lib) (c : CoreOutputs)
      → IsBounded w.agent w.pins
      → 0 < length w.agent.req_q
      → w.pins.mem_recv ≡ false
      → (((cycle lib w c).pins.mem_recv ≡ true)
          ⊎ ((cycle lib w c).agent.rsp_stall_len ≡ suc w.agent.rsp_stall_len))
        × ((cycle lib w c).agent.max_rsp_stall ≡ w.agent.max_rsp_stall)
  unfolding cycle core_drives drive_signals
  unanswered_once w c v waits none_yet =
      let p = core_drives w.pins c in
      let v' = driven-IsBounded w.agent w.pins c v in
      let e = posedge_clk_stall lib w.agent w.bus p w.random v' in (e.5 none_yet waits, e.1)

  unanswered_bound :
      (cs : List CoreOutputs) (w : World lib)
      → IsBounded w.agent w.pins
      → AllUnanswered w cs
      → w.agent.rsp_stall_len + length cs ≤ w.agent.max_rsp_stall + 1
  unanswered_bound [] w v h = omega (arith, v.rsp_bound)
  unanswered_bound (c ∷ []) w v h = omega (arith, v.rsp_bound)
  unanswered_bound (c ∷ d ∷ cs) w v h =
      let one = unanswered_once w c v h.0 h.1 in
      let rest = unanswered_bound (d ∷ cs) (cycle lib w c) (cycle-IsBounded lib w c v) h.2 in
      let later : (cycle lib w c).pins.mem_recv ≡ false = h.2.1 in
      elim one.0 [ inl x ↦ absurd (cc) | inr y ↦ omega (arith, one.1, rest, y) ]

  -- From an agent whose stall counters are in bounds, whatever random numbers are drawn: cycles in a
  -- row before each of which a request is queued and there is no response are at most
  -- `max_rsp_stall` + 1.
  pub unanswered-le-max_rsp_stall :
      (cs : List CoreOutputs) (w : World lib)
      → IsBounded w.agent w.pins
      → AllUnanswered w cs
      → length cs ≤ w.agent.max_rsp_stall + 1
  unanswered-le-max_rsp_stall cs w v h = omega (arith, unanswered_bound cs w v h)
