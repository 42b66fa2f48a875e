-- ===== src/SramAgent/Queue.antt =====
-- Requests are answered once each, in the order in which they were taken in.
use mathlib.Core.List.{append-nil, append_assoc}
use scarv_cpu.Base.{
  ◌≡◌, refl, ◌∙◌, sym, ap, true, false, not, ◌&&◌, ◌||◌, List, [], ◌∷◌, ◌++◌, leb, Bool-cases, inl,
  inr, if◌then◌else◌, arith,
}
use scarv_cpu.CRandom.{CRandom, rand_chance}
use scarv_cpu.Txn.{Txn, data_word}
use scarv_cpu.Bus.{Bus, request}
use scarv_cpu.SramAgent.{
  SramAgent, Pins, CoreOutputs, core_drives, new_request, take_request, drive_queue, drive_response,
  posedge_clk, draw_grant,
}
use scarv_cpu.SramAgent.Cycle.{World, cycle, run}

-- The request that the pins hand over at a rising edge, if any.
abbrev pub accepted : Pins → Bus → List Txn
accepted p bus = if p.mem_req && p.mem_gnt then new_request p bus.next_id ∷ [] else []

pub take_request-accepted :
    (a : SramAgent) (bus : Bus) (p : Pins)
    → ((take_request a bus p).0.req_q ≡ a.req_q ++ accepted p bus)
      × ((take_request a bus p).1.devices ≡ bus.devices)
      × ((take_request a bus p).0.n_mem_recv ≡ a.n_mem_recv)
      × ((take_request a bus p).0.n_mem_error ≡ a.n_mem_error)
      × ((take_request a bus p).0.n_mem_rdata ≡ a.n_mem_rdata)
unfolding take_request
take_request-accepted a bus p = ground (arith, append-nil a.req_q)

-- What becomes of a queue at a rising edge where no response waits for the core: there is no
-- response, or the oldest request is answered by the memory.
pub data Drives (q : List Txn) (bus : Bus) (a' : SramAgent) (bus' : Bus) : Type 0 where
  idles :
      a'.req_q ≡ q
      → bus' ≡ bus
      → a'.n_mem_recv ≡ false
      → a'.n_mem_error ≡ false
      → a'.n_mem_rdata ≡ 0
      → Drives q bus a' bus'
  answers :
      (t : Txn)
      → q ≡ t ∷ a'.req_q
      → bus' ≡ (request bus t).1
      → a'.n_mem_recv ≡ true
      → a'.n_mem_error ≡ (request bus t).0.error
      → (t.write ≡ false → a'.n_mem_rdata ≡ data_word (request bus t).0.txn)
      → Drives q bus a' bus'

module _ (lib : CRandom) where
  drive_queue-Drives :
      (a : SramAgent) (bus : Bus) (s : lib.State) (q q0 : List Txn)
      → a.req_q ≡ q
      → q ≡ q0
      → Drives q0 bus (drive_queue lib a bus s q).0 (drive_queue lib a bus s q).1
  unfolding drive_queue
  drive_queue-Drives a bus s [] q0 e f = idles (e ∙ f) refl refl refl refl
  drive_queue-Drives a bus s (t ∷ rest) q0 e f =
      elim (Bool-cases ((rand_chance lib 7 10 s).0 || leb a.max_rsp_stall a.rsp_stall_len)) [
        | inl go ↦ rw (go, drive_queue) (answers t (sym f) refl refl refl (λ r. rw r))
        | inr stay ↦ rw (stay, drive_queue) (idles (e ∙ f) refl refl refl refl)
      ]

  -- At a rising edge at which a response waits for the core, the request that the pins hand over
  -- joins the queue at its end; the response, its data and its error stay, and so do the devices.
  pub posedge_clk_holds :
      (a : SramAgent) (bus : Bus) (p : Pins) (s : lib.State)
      → p.mem_recv && not p.mem_ack ≡ true
      → let (a', bus', s') = posedge_clk lib a bus p s in
        (a'.req_q ≡ a.req_q ++ accepted p bus)
        × (bus'.devices ≡ bus.devices)
        × (a'.n_mem_recv ≡ a.n_mem_recv)
        × (a'.n_mem_error ≡ a.n_mem_error)
        × (a'.n_mem_rdata ≡ a.n_mem_rdata)
  unfolding posedge_clk
  posedge_clk_holds a bus p s wait = rw wait (take_request-accepted a bus p)

  -- At a rising edge at which no response waits for the core, the request that the pins hand over
  -- joins the queue at its end; then there is no response, with no error and the data zero, or the
  -- oldest request of the queue leaves it and its response is what the memory bus gives.
  pub posedge_clk-Drives :
      (a : SramAgent) (bus : Bus) (p : Pins) (s : lib.State)
      → p.mem_recv && not p.mem_ack ≡ false
      → let (a', bus', s') = posedge_clk lib a bus p s in
        Drives (a.req_q ++ accepted p bus) (take_request a bus p).1 a' bus'
  unfolding posedge_clk drive_response
  posedge_clk-Drives a bus p s free =
      let a2 = (draw_grant lib (take_request a bus p).0 s).0 in
      rw free (drive_queue-Drives a2 _ _ _ _ refl (take_request-accepted a bus p).0)

-- The requests that are taken in, and those that are answered, over a list of cycles. A request is
-- answered in a cycle where no response waits for the core and there is a response after the cycle.
abbrev pub front : List Txn → List Txn
front [] = []
front (t ∷ q) = t ∷ []

module _ (lib : CRandom) where
  abbrev pub accepted_in : World lib → CoreOutputs → List Txn
  accepted_in w c = accepted (core_drives w.pins c) w.bus

  abbrev pub answered_in : World lib → CoreOutputs → List Txn
  answered_in w c =
      let p = core_drives w.pins c in
      if p.mem_recv && not p.mem_ack
      then []
      else if (cycle lib w c).agent.n_mem_recv
      then front (w.agent.req_q ++ accepted_in w c)
      else []

  unfoldable pub all_accepted : World lib → List CoreOutputs → List Txn
  all_accepted w [] = []
  all_accepted w (c ∷ cs) = accepted_in w c ++ all_accepted (cycle lib w c) cs

  unfoldable pub all_answered : World lib → List CoreOutputs → List Txn
  all_answered w [] = []
  all_answered w (c ∷ cs) = answered_in w c ++ all_answered (cycle lib w c) cs

  Drives-front :
      {q : List Txn} {bus bus' : Bus} {a' : SramAgent}
      → Drives q bus a' bus'
      → q ≡ (if a'.n_mem_recv then front q else []) ++ a'.req_q
  Drives-front (idles e b r x d) = rw r (sym e)
  Drives-front (answers t e b r x d) = rw (r, e)

  cycle_queue :
      (w : World lib) (c : CoreOutputs)
      → w.agent.req_q ++ accepted_in w c ≡ answered_in w c ++ (cycle lib w c).agent.req_q
  unfolding cycle
  cycle_queue w c =
      let p = core_drives w.pins c in
      elim (Bool-cases (p.mem_recv && not p.mem_ack)) [
        | inl wait ↦ rw wait (sym (posedge_clk_holds lib w.agent w.bus p w.random wait).0)
        | inr free ↦ rw free (Drives-front (posedge_clk-Drives lib w.agent w.bus p w.random free))
      ]

  -- Over any run of cycles, whatever the core drives and whatever random numbers are drawn: the
  -- requests that waited at the start, followed by those taken in, are those answered, in the same
  -- order, followed by those that wait at the end. None is lost, answered twice or out of turn.
  pub run_queue :
      (w : World lib) (cs : List CoreOutputs)
      → w.agent.req_q ++ all_accepted w cs ≡ all_answered w cs ++ (run lib w cs).agent.req_q
  unfolding run all_accepted all_answered
  run_queue w [] = rw append-nil
  run_queue w (c ∷ cs) =
      sym (append_assoc w.agent.req_q (accepted_in w c) (all_accepted (cycle lib w c) cs))
      ∙ ap (λ t. t ++ all_accepted (cycle lib w c) cs) (cycle_queue w c)
      ∙ append_assoc (answered_in w c) (cycle lib w c).agent.req_q (all_accepted (cycle lib w c) cs)
      ∙ ap (◌++◌ (answered_in w c)) (run_queue (cycle lib w c) cs)
      ∙ sym (
          append_assoc (answered_in w c) (all_answered (cycle lib w c) cs)
            (run lib w (c ∷ cs)).agent.req_q)
