-- ===== src/RngAgent/Stall.antt =====
-- How long the agent can stall a request, and how long it does where chance never helps.
use scarv_cpu.Base.{
  suc, ◌+◌, ◌^◌, ◌≤◌, ◌<◌, ◌≡◌, ◌∙◌, refl, ap, sym, ap₂, u32, true, false, ◌||◌, ltb, List, [], ◌∷◌,
  length, arith,
}
use scarv_cpu.CRandom.{CRandom, rand_chance}
use scarv_cpu.RngAgent.{
  RngAgent, RngPins, RngTxn, handle_request, handle_response, draw_ready, draw_valid, next_response,
  posedge_clk, drive_signals,
}
use scarv_cpu.RngAgent.Cycle.{World, CoreOutputs, core_drives, cycle, run}
use scarv_cpu.RngAgent.Invariant.{Inv, cycle-Inv}

module _ (lib : CRandom) where
  -- Cycles in each of which the core asks for a sample and is not granted it.
  abbrev pub AllRefused : World lib → List CoreOutputs → Type 0
  AllRefused w [] = Unit {0}
  AllRefused w (c ∷ cs) =
      (c.valid ≡ true) × (w.pins.req_ready ≡ false) × AllRefused (cycle lib w c) cs

  abbrev pub AllAsk : List CoreOutputs → Type 0
  AllAsk [] = Unit {0}
  AllAsk (c ∷ cs) = (c.valid ≡ true) × AllAsk cs

  draw_valid_keeps :
      (a : RngAgent) (p : RngPins) (s : lib.State)
      → let a' = (draw_valid lib a p s).0 in
        (a'.req_stall_len ≡ a.req_stall_len)
        × (a'.max_req_stall ≡ a.max_req_stall)
        × (a'.n_req_ready ≡ a.n_req_ready)
  unfolding draw_valid
  draw_valid_keeps a p s = ground arith

  handle_response_keeps :
      (a : RngAgent) (p : RngPins)
      → let a' = handle_response a p in
        (a'.req_stall_len ≡ a.req_stall_len) × (a'.max_req_stall ≡ a.max_req_stall)
  unfolding handle_response
  handle_response_keeps a p = ground arith

  next_response_keeps :
      (a : RngAgent) (q : List RngTxn)
      → let a' = next_response a q in
        (a'.req_stall_len ≡ a.req_stall_len)
        × (a'.max_req_stall ≡ a.max_req_stall)
        × (a'.n_req_ready ≡ a.n_req_ready)
  unfolding next_response
  next_response_keeps a [] = (refl, refl, refl)
  next_response_keeps a (t ∷ q) = (refl, refl, refl)

  handle_request_refused :
      (a : RngAgent) (p : RngPins) (s : lib.State)
      → p.req_valid ≡ true
      → p.req_ready ≡ false
      → handle_request lib a p s ≡ (record a { req_stall_len = u32 (a.req_stall_len + 1) }, s)
  unfolding handle_request
  handle_request_refused a p s asks low = rw (asks, low) refl

  -- What a rising edge does to the counter of stalls and the next ready signal, where the core asks
  -- and is not granted.
  posedge_clk_refused :
      (a : RngAgent) (p : RngPins) (s : lib.State)
      → p.req_valid ≡ true
      → p.req_ready ≡ false
      → a.req_stall_len + 1 < 2 ^ 32
      → let a' = (posedge_clk lib a p s).0 in
        (a'.req_stall_len ≡ suc a.req_stall_len)
        × (a'.max_req_stall ≡ a.max_req_stall)
        × (a'.n_req_ready
            ≡ ((rand_chance lib 5 10 s).0 || ltb a.max_req_stall (suc a.req_stall_len)))
  unfolding posedge_clk draw_ready
  posedge_clk_refused a p s asks low fits =
      let r = handle_request_refused a p s asks low in
      let a1 : RngAgent = record a { req_stall_len = u32 (a.req_stall_len + 1) } in
      let a2 = handle_response a1 p in
      let k = handle_response_keeps a1 p in
      let a3 = (draw_ready lib a2 s).0 in
      let s3 = (draw_ready lib a2 s).1 in
      let v = draw_valid_keeps a3 p s3 in
      let a4 = (draw_valid lib a3 p s3).0 in
      let n = next_response_keeps a4 a4.rsp_q in
      let one : u32 (a.req_stall_len + 1) ≡ suc a.req_stall_len = omega arith in
      rw r (
        n.0 ∙ v.0 ∙ k.0 ∙ one,
        n.1 ∙ v.1 ∙ k.1,
        n.2 ∙ v.2 ∙ ap₂ (λ m l. (rand_chance lib 5 10 s).0 || ltb m l) k.1 (k.0 ∙ one),
      )

  refused_once :
      (w : World lib) (c : CoreOutputs)
      → Inv w.agent w.pins
      → c.valid ≡ true
      → w.pins.req_ready ≡ false
      → let w' = cycle lib w c in
        (w'.agent.req_stall_len ≡ suc w.agent.req_stall_len)
        × (w'.agent.max_req_stall ≡ w.agent.max_req_stall)
        × (w'.pins.req_ready ≡ (
            (rand_chance lib 5 10 w.random).0
            || ltb w.agent.max_req_stall (suc w.agent.req_stall_len)))
  unfolding cycle core_drives drive_signals
  refused_once w c v asks low =
      let fits : w.agent.req_stall_len + 1 < 2 ^ 32 = omega (arith, v.req_low low, v.fits.0) in
      posedge_clk_refused w.agent (core_drives w.pins c) w.random asks low fits

  unready_bound :
      (cs : List CoreOutputs) (w : World lib)
      → Inv w.agent w.pins
      → AllRefused w cs
      → w.agent.req_stall_len + length cs ≤ w.agent.max_req_stall + 1
  unready_bound [] w v h = omega (arith, v.req_bound)
  unready_bound (c ∷ cs) w v h = omega (
    arith,
    refused_once w c v h.0 h.1,
    unready_bound cs (cycle lib w c) (cycle-Inv lib w c v) h.2,
  )

  -- From an agent in its invariant, whatever random numbers are drawn: cycles in a row in each of
  -- which the core asks for a sample and the agent is not ready are at most `max_req_stall` + 1.
  pub unready-le-max_req_stall :
      (cs : List CoreOutputs) (w : World lib)
      → Inv w.agent w.pins
      → AllRefused w cs
      → length cs ≤ w.agent.max_req_stall + 1
  unready-le-max_req_stall cs w v h = omega (arith, unready_bound cs w v h)

  refused_to_end :
      (cs : List CoreOutputs) (w : World lib)
      → ((s : lib.State) → (rand_chance lib 5 10 s).0 ≡ false)
      → Inv w.agent w.pins
      → AllAsk cs
      → w.pins.req_ready ≡ ltb w.agent.max_req_stall w.agent.req_stall_len
      → w.agent.req_stall_len + length cs ≡ w.agent.max_req_stall + 1
      → AllRefused w cs × ((run lib w cs).pins.req_ready ≡ true)
  unfolding run
  refused_to_end [] w unlucky v asks at len = (tt, ground (arith, at, len))
  refused_to_end (c ∷ cs) w unlucky v asks at len =
      let low : w.pins.req_ready ≡ false = ground (arith, at, len) in
      let (more, same, ready) = refused_once w c v asks.0 low in
      let at' : (cycle lib w c).pins.req_ready
          ≡ ltb (cycle lib w c).agent.max_req_stall (cycle lib w c).agent.req_stall_len =
        ready
        ∙ ap (λ b. b || ltb w.agent.max_req_stall (suc w.agent.req_stall_len)) (unlucky w.random)
        ∙ sym (ap₂ ltb same more) in
      let (rest, end) =
        refused_to_end cs (cycle lib w c) unlucky (cycle-Inv lib w c v) asks.1 at'
          (omega (arith, more, same, len)) in
      ((asks.0, low, rest), end)

  -- Where chance never makes the agent ready: from an agent in its invariant that is not ready and has
  -- no stall behind it, a core that keeps asking is refused in `max_req_stall` + 1 cycles in a row,
  -- one more than the limit, and the agent is ready after them.
  pub unready_past_limit :
      (cs : List CoreOutputs) (w : World lib)
      → ((s : lib.State) → (rand_chance lib 5 10 s).0 ≡ false)
      → Inv w.agent w.pins
      → AllAsk cs
      → w.pins.req_ready ≡ false
      → w.agent.req_stall_len ≡ 0
      → length cs ≡ w.agent.max_req_stall + 1
      → AllRefused w cs × ((run lib w cs).pins.req_ready ≡ true)
  unready_past_limit cs w unlucky v asks low none_yet len =
      refused_to_end cs w unlucky v asks (ground (arith, low, none_yet))
        (omega (arith, len, none_yet))
