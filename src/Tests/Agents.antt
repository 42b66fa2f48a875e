-- ===== src/Tests/Agents.antt =====
-- The theorems on the agents of the memory and of the randomness interface, at concrete values.
use scarv_cpu.Base.{
  List, ◌+◌, ◌≤◌, ◌≡◌, refl, inr, true, false, [], ◌∷◌, ◌++◌, length, replicate, arith,
}
use scarv_cpu.CRandom.{CRandom, rand_chance}
use scarv_cpu.SramAgent
use scarv_cpu.SramAgent.Cycle as MemoryCycle
use scarv_cpu.SramAgent.{Pins, take_request}
use scarv_cpu.SramAgent.Queue.{all_accepted, all_answered, run_queue}
use scarv_cpu.SramAgent.Sequential.{serve_all, all_replies, run-serve_all}
use scarv_cpu.SramAgent.Counters.{IsBounded}
use scarv_cpu.SramAgent.Stall.{refused-le-max_req_stall, unanswered-le-max_rsp_stall}
use scarv_cpu.SramAgent.Reset.{set_reset_deletes}
use scarv_cpu.RngAgent.Cycle as RandomCycle
use scarv_cpu.RngAgent.Invariant.{Inv}
use scarv_cpu.RngAgent.Stall.{AllRefused, unready-le-max_req_stall, unready_past_limit}
use scarv_cpu.RngAgent.Responses.{all_asked, all_received, run_responses}
use scarv_cpu.Tests.{
  counting, small_bus, write_txn, read_txn, memory_agent, memory_pins, asks_memory, random_agent,
  random_pins, asks_random,
}

abbrev memory_world : MemoryCycle.World counting
memory_world = record { agent = memory_agent; bus = small_bus; pins = memory_pins; random = 0 }

run_queue_example :
    memory_world.agent.req_q ++ all_accepted counting memory_world (asks_memory ∷ asks_memory ∷ [])
    ≡ all_answered counting memory_world (asks_memory ∷ asks_memory ∷ [])
      ++ (MemoryCycle.run counting memory_world (asks_memory ∷ asks_memory ∷ [])).agent.req_q
run_queue_example = run_queue counting memory_world (asks_memory ∷ asks_memory ∷ [])

run-serve_all_example :
    serve_all small_bus.devices
      (all_answered counting memory_world (asks_memory ∷ asks_memory ∷ []))
    ≡ (
      all_replies counting memory_world (asks_memory ∷ asks_memory ∷ []),
      (MemoryCycle.run counting memory_world (asks_memory ∷ asks_memory ∷ [])).bus.devices,
    )
run-serve_all_example = run-serve_all counting memory_world (asks_memory ∷ asks_memory ∷ [])

-- The grant is low and no response is shown.
abbrev idle_world : MemoryCycle.World counting
idle_world = record {
  agent = memory_agent;
  bus = small_bus;
  pins = record memory_pins { mem_gnt = false };
  random = 0;
}

idle_world-IsBounded : IsBounded idle_world.agent idle_world.pins
idle_world-IsBounded = record {
  limits = record { req_fits = omega arith; rsp_fits = omega arith };
  req_low = λ g. omega arith;
  req_bound = omega arith;
  rsp_bound = omega arith;
}

refused-le-max_req_stall_example : length (asks_memory ∷ []) ≤ idle_world.agent.max_req_stall
refused-le-max_req_stall_example =
    refused-le-max_req_stall counting (asks_memory ∷ []) idle_world idle_world-IsBounded
      (refl, refl, tt)

unanswered-le-max_rsp_stall_example : length (asks_memory ∷ []) ≤ idle_world.agent.max_rsp_stall + 1
unanswered-le-max_rsp_stall_example =
    unanswered-le-max_rsp_stall counting (asks_memory ∷ []) idle_world idle_world-IsBounded
      (omega arith, refl, tt)

set_reset_deletes_example :
    let (a', p', deleted) = SramAgent.set_reset memory_agent memory_pins in
    (a'.req_q ≡ [])
    × (p'.mem_gnt ≡ false)
    × (p'.mem_recv ≡ false)
    × (deleted ≡ replicate 2 read_txn.id)
set_reset_deletes_example =
    set_reset_deletes memory_agent memory_pins write_txn (read_txn ∷ []) refl

abbrev random_world : RandomCycle.World counting
random_world = record { agent = random_agent; pins = random_pins; random = 0 }

random_world-Inv : Inv random_world.agent random_world.pins
random_world-Inv = record {
  fits = (omega arith, omega arith);
  req_low = λ g. omega arith;
  req_bound = omega arith;
  rsp_low = λ g. omega arith;
  rsp_bound = omega arith;
  shown = λ h. (refl, refl);
  known = inr (inr refl);
  all_known = (inr (inr refl), tt);
}

run_responses_example :
    random_world.agent.rsp_q ++ all_asked counting random_world (asks_random ∷ asks_random ∷ [])
    ≡ all_received counting random_world (asks_random ∷ asks_random ∷ [])
      ++ (RandomCycle.run counting random_world (asks_random ∷ asks_random ∷ [])).agent.rsp_q
run_responses_example =
    run_responses counting random_world (asks_random ∷ asks_random ∷ []) random_world-Inv

-- An agent that is not ready.
abbrev busy_world : RandomCycle.World counting
busy_world = record random_world { pins = record random_pins { req_ready = false } }

busy_world-Inv : Inv busy_world.agent busy_world.pins
busy_world-Inv = record {
  fits = (omega arith, omega arith);
  req_low = λ g. omega arith;
  req_bound = omega arith;
  rsp_low = λ g. omega arith;
  rsp_bound = omega arith;
  shown = λ h. (refl, refl);
  known = inr (inr refl);
  all_known = (inr (inr refl), tt);
}

unready-le-max_req_stall_example : length (asks_random ∷ []) ≤ busy_world.agent.max_req_stall + 1
unready-le-max_req_stall_example =
    unready-le-max_req_stall counting (asks_random ∷ []) busy_world busy_world-Inv (refl, refl, tt)

-- A generator that never helps: 7 is not one of the five chances in ten.
abbrev unlucky : CRandom
unlucky = record {
  State = Unit {0};
  rand = λ s. (7, s);
  srand = λ seed. tt;
  rand_max = λ s. omega arith;
}

abbrev short_world : RandomCycle.World unlucky
short_world = record {
  agent = record random_agent { max_req_stall = 2; n_req_ready = false };
  pins = record random_pins { req_ready = false };
  random = tt;
}

short_world-Inv : Inv short_world.agent short_world.pins
short_world-Inv = record {
  fits = (omega arith, omega arith);
  req_low = λ g. omega arith;
  req_bound = omega arith;
  rsp_low = λ g. omega arith;
  rsp_bound = omega arith;
  shown = λ h. (refl, refl);
  known = inr (inr refl);
  all_known = (inr (inr refl), tt);
}

abbrev asks_thrice : List RandomCycle.CoreOutputs
asks_thrice = asks_random ∷ asks_random ∷ asks_random ∷ []

unready_past_limit_example :
    AllRefused unlucky short_world asks_thrice
    × ((RandomCycle.run unlucky short_world asks_thrice).pins.req_ready ≡ true)
unfolding rand_chance
unready_past_limit_example =
    unready_past_limit unlucky asks_thrice short_world (λ s. refl) short_world-Inv
      (refl, (refl, (refl, tt))) refl refl refl
