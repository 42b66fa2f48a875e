-- ===== src/RngAgent/Responses.antt =====
-- The responses that the core receives.
use mathlib.Core.List.{append-nil, append_assoc}
use scarv_cpu.Base.{
  ℕ, ◌≡◌, refl, sym, subst, ap, ◌∙◌, inl, inr, true, false, ◌&&◌, List, [], ◌∷◌, ◌++◌, arith,
  Bool-cases, if◌then◌else◌,
}
use scarv_cpu.CRandom.{CRandom, rand_chance}
use scarv_cpu.RngAgent.{
  RngAgent, RngPins, RngTxn, tail, handle_request, handle_response, draw_ready, draw_valid,
  next_response, posedge_clk, drive_signals,
}
use scarv_cpu.RngAgent.Cycle.{World, CoreOutputs, core_drives, cycle, run}
use scarv_cpu.RngAgent.Invariant.{Inv, Shows, driven-Inv, handle_request-Requested, cycle-Inv}

Shows-tail :
    (q : List RngTxn) (word status : ℕ)
    → Shows q word status
    → q ≡ record { word = word; status = status } ∷ tail q
Shows-tail [] word status h = absurd h
Shows-tail (t ∷ q) word status h = ground arith

handle_response_queue :
    (a : RngAgent) (p : RngPins)
    → (p.rsp_valid ≡ true → Shows a.rsp_q p.rsp_data p.rsp_status)
    → a.rsp_q
      ≡ (if p.rsp_valid && p.rsp_ready
          then record { word = p.rsp_data; status = p.rsp_status } ∷ []
          else [])
        ++ (handle_response a p).rsp_q
unfolding handle_response
handle_response_queue a p h = elim (Bool-cases (p.rsp_valid && p.rsp_ready)) [
  | inl go ↦
      let valid : p.rsp_valid ≡ true = ground (arith, go) in
      ground (arith, go, valid, Shows-tail a.rsp_q p.rsp_data p.rsp_status (h valid))
  | inr stay ↦ ground (arith, stay)
]

next_response_queue : (a : RngAgent) (q : List RngTxn) → (next_response a q).rsp_q ≡ a.rsp_q
unfolding next_response
next_response_queue a [] = refl
next_response_queue a (t ∷ q) = refl

next_response_valid :
    (a : RngAgent) (q : List RngTxn) → (next_response a q).n_rsp_valid ≡ a.n_rsp_valid
unfolding next_response
next_response_valid a [] = refl
next_response_valid a (t ∷ q) = refl

Shows-unique :
    (q r : List RngTxn) {word status word' status' : ℕ}
    → Shows q word status
    → Shows (q ++ r) word' status'
    → (word' ≡ word) × (status' ≡ status)
Shows-unique [] r h k = absurd h
Shows-unique (t ∷ q) r h k = (k.0 ∙ sym h.0, k.1 ∙ sym h.1)

module _ (lib : CRandom) where
  -- The response to a request: the status before the request, and the random number that the request
  -- draws, after the one that decides the next status.
  abbrev response_to : RngAgent → lib.State → RngTxn
  response_to a s = record { word = (lib.rand (rand_chance lib 9 10 s).1).0; status = a.status }

  -- What is asked for in a cycle, and what the core takes from the response channel in it.
  abbrev asked_in : World lib → CoreOutputs → List RngTxn
  asked_in w c = if c.valid && w.pins.req_ready then response_to w.agent w.random ∷ [] else []

  abbrev received_in : World lib → CoreOutputs → List RngTxn
  received_in w c =
      if w.pins.rsp_valid && c.ready
      then record { word = w.pins.rsp_data; status = w.pins.rsp_status } ∷ []
      else []

  unfoldable pub all_asked : World lib → List CoreOutputs → List RngTxn
  all_asked w [] = []
  all_asked w (c ∷ cs) = asked_in w c ++ all_asked (cycle lib w c) cs

  unfoldable pub all_received : World lib → List CoreOutputs → List RngTxn
  all_received w [] = []
  all_received w (c ∷ cs) = received_in w c ++ all_received (cycle lib w c) cs

  handle_request_queue :
      (a : RngAgent) (p : RngPins) (s : lib.State)
      → (handle_request lib a p s).0.rsp_q
        ≡ a.rsp_q ++ (if p.req_valid && p.req_ready then response_to a s ∷ [] else [])
  unfolding handle_request
  handle_request_queue a p s = ground (arith, append-nil a.rsp_q)

  draw_valid_waiting :
      (a : RngAgent) (p : RngPins) (s : lib.State)
      → p.rsp_valid ≡ true
      → p.rsp_ready ≡ false
      → (draw_valid lib a p s).0.n_rsp_valid ≡ true
  unfolding draw_valid
  draw_valid_waiting a p s h k = ground arith

  draw_valid_queue :
      (a : RngAgent) (p : RngPins) (s : lib.State) → (draw_valid lib a p s).0.rsp_q ≡ a.rsp_q
  unfolding draw_valid
  draw_valid_queue a p s = ground arith

  posedge_clk_queue :
      (a : RngAgent) (p : RngPins) (s : lib.State)
      → (posedge_clk lib a p s).0.rsp_q ≡ (handle_response (handle_request lib a p s).0 p).rsp_q
  unfolding posedge_clk draw_ready
  posedge_clk_queue a p s =
      let a2 = handle_response (handle_request lib a p s).0 p in
      let a3 = (draw_ready lib a2 (handle_request lib a p s).1).0 in
      let s3 = (draw_ready lib a2 (handle_request lib a p s).1).1 in
      next_response_queue (draw_valid lib a3 p s3).0 _ ∙ draw_valid_queue a3 p s3

  -- A request that joins the queue leaves what the channel shows.
  handle_request-Shows :
      (a : RngAgent) (p : RngPins) (s : lib.State)
      → Inv a p
      → p.rsp_valid ≡ true
      → Shows (handle_request lib a p s).0.rsp_q p.rsp_data p.rsp_status
  handle_request-Shows a p s v h = (handle_request-Requested lib a p s v).shown h

  cycle_queue :
      (w : World lib) (c : CoreOutputs)
      → Inv w.agent w.pins
      → w.agent.rsp_q ++ asked_in w c ≡ received_in w c ++ (cycle lib w c).agent.rsp_q
  unfolding cycle core_drives
  cycle_queue w c v =
      let p = core_drives w.pins c in
      let a1 = (handle_request lib w.agent p w.random).0 in
      let v' = driven-Inv w.agent w.pins c v in
      sym (handle_request_queue w.agent p w.random)
      ∙ handle_response_queue a1 p (handle_request-Shows w.agent p w.random v')
      ∙ ap (◌++◌ (received_in w c)) (sym (posedge_clk_queue w.agent p w.random))

  -- Over any run of cycles from a state in the invariant, whatever the core drives and whatever random
  -- numbers are drawn: the
  -- responses that were queued at the start, followed by those to the requests that are accepted,
  -- are those that the core takes from the channel, in the same order, followed by those that are
  -- queued at the end.
  pub run_responses :
      (w : World lib) (cs : List CoreOutputs)
      → Inv w.agent w.pins
      → w.agent.rsp_q ++ all_asked w cs ≡ all_received w cs ++ (run lib w cs).agent.rsp_q
  unfolding run all_asked all_received
  run_responses w [] v = rw append-nil
  run_responses w (c ∷ cs) v =
      let w' = cycle lib w c in
      sym (append_assoc w.agent.rsp_q (asked_in w c) (all_asked w' cs))
      ∙ ap (λ t. t ++ all_asked w' cs) (cycle_queue w c v)
      ∙ append_assoc (received_in w c) w'.agent.rsp_q (all_asked w' cs)
      ∙ ap (◌++◌ (received_in w c)) (run_responses w' cs (cycle-Inv lib w c v))
      ∙ sym (append_assoc (received_in w c) (all_received w' cs) (run lib w (c ∷ cs)).agent.rsp_q)

  cycle_stays_valid :
      (w : World lib) (c : CoreOutputs)
      → w.pins.rsp_valid ≡ true
      → c.ready ≡ false
      → (cycle lib w c).pins.rsp_valid ≡ true
  unfolding cycle core_drives drive_signals posedge_clk draw_ready
  cycle_stays_valid w c h k =
      let p = core_drives w.pins c in
      let a2 = handle_response (handle_request lib w.agent p w.random).0 p in
      let a3 = (draw_ready lib a2 (handle_request lib w.agent p w.random).1).0 in
      let s3 = (draw_ready lib a2 (handle_request lib w.agent p w.random).1).1 in
      next_response_valid (draw_valid lib a3 p s3).0 _ ∙ draw_valid_waiting a3 p s3 h k

  -- From a state in the invariant, a response that the core does not take in a cycle stays on the
  -- channel, with the same data and status.
  cycle_holds_response :
      (w : World lib) (c : CoreOutputs)
      → Inv w.agent w.pins
      → w.pins.rsp_valid ≡ true
      → c.ready ≡ false
      → ((cycle lib w c).pins.rsp_valid ≡ true)
        × (((cycle lib w c).pins.rsp_data ≡ w.pins.rsp_data)
            × ((cycle lib w c).pins.rsp_status ≡ w.pins.rsp_status))
  cycle_holds_response w c v h k =
      let valid = cycle_stays_valid w c h k in
      let stays : w.agent.rsp_q ++ asked_in w c ≡ (cycle lib w c).agent.rsp_q =
        cycle_queue w c v ∙ ground (arith, k) in
      let now = (cycle-Inv lib w c v).shown valid in
      (
        valid,
        Shows-unique w.agent.rsp_q (asked_in w c) (v.shown h) (
            subst (λ q. Shows q (cycle lib w c).pins.rsp_data (cycle lib w c).pins.rsp_status)
              (sym stays) now),
      )
