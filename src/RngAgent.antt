-- ===== src/RngAgent.antt =====
-- flow/verilator/rng_agent.hpp and rng_agent.cpp: the randomness interface of the core.
pub mod Cycle
pub mod Invariant
pub mod Responses
pub mod Stall
pub mod Reset
use scarv_cpu.Base.{
  ℕ, suc, ◌+◌, Bool, true, false, not, ◌&&◌, ◌||◌, List, [], ◌∷◌, ◌++◌, ltb, ◌==◌, u32, length,
  if◌then◌else◌,
}
use scarv_cpu.CRandom.{CRandom, rand_chance}

abbrev rng_op_seed : ℕ
rng_op_seed = 0b001

abbrev rng_op_samp : ℕ
rng_op_samp = 0b010

abbrev rng_op_test : ℕ
rng_op_test = 0b100

abbrev pub rng_status_noinit : ℕ
rng_status_noinit = 0b000

abbrev pub rng_status_init_unhealthy : ℕ
rng_status_init_unhealthy = 0b100

abbrev pub rng_status_init_healthy : ℕ
rng_status_init_healthy = 0b101

-- `rng_agent_txn`
pub record RngTxn : Type 0 where
  pub word : ℕ
  pub status : ℕ

-- The signals that the agent points to. A signal of one bit is a Boolean.
pub record RngPins : Type 0 where
  pub req_valid : Bool
  pub req_op : ℕ
  pub req_data : ℕ
  pub req_ready : Bool
  pub rsp_valid : Bool
  pub rsp_status : ℕ
  pub rsp_data : ℕ
  pub rsp_ready : Bool

pub record RngAgent : Type 0 where
  pub max_req_stall : ℕ
  pub max_rsp_stall : ℕ
  pub status : ℕ
  pub req_stall_len : ℕ
  pub rsp_stall_len : ℕ
  pub n_req_ready : Bool
  pub n_rsp_valid : Bool
  pub n_rsp_status : ℕ
  pub n_rsp_data : ℕ
  pub rsp_q : List RngTxn

-- The constructor. The status and the next values of the signals are left as the memory was: they
-- are arguments.
unfoldable pub new_agent : ℕ → Bool → Bool → ℕ → ℕ → RngAgent
new_agent status ready valid rsp_status rsp_data = record {
  max_req_stall = 5;
  max_rsp_stall = 5;
  status = status;
  req_stall_len = 0;
  rsp_stall_len = 0;
  n_req_ready = ready;
  n_rsp_valid = valid;
  n_rsp_status = rsp_status;
  n_rsp_data = rsp_data;
  rsp_q = [];
}

unfoldable pub set_reset : RngAgent → RngPins → RngAgent × RngPins
set_reset a p = (
  record a { req_stall_len = 0; rsp_stall_len = 0; status = rng_status_noinit },
  record p { req_ready = false; rsp_valid = false },
)

unfoldable pub drive_signals : RngAgent → RngPins → RngPins
drive_signals a p = record p {
  req_ready = a.n_req_ready;
  rsp_valid = a.n_rsp_valid;
  rsp_status = a.n_rsp_status;
  rsp_data = a.n_rsp_data;
}

abbrev get_status : RngAgent → ℕ
get_status a = a.status

-- The response channel: the first of the queue leaves it once the core has taken it. C++
-- does not define `pop` of an empty queue; here it leaves the queue empty.
abbrev pub some_queue : List RngTxn → Bool
some_queue [] = false
some_queue (t ∷ q) = true

abbrev pub tail : List RngTxn → List RngTxn
tail [] = []
tail (t ∷ q) = q

unfoldable pub handle_response : RngAgent → RngPins → RngAgent
handle_response a p =
    if some_queue a.rsp_q && not p.rsp_valid
    then record a { rsp_stall_len = u32 (a.rsp_stall_len + 1) }
    else if p.rsp_valid && p.rsp_ready
    then record a { rsp_stall_len = 0; rsp_q = tail a.rsp_q }
    else a

-- The next response: that of the first of the queue; with an empty queue it stays.
unfoldable pub next_response : RngAgent → List RngTxn → RngAgent
next_response a [] = a
next_response a (t ∷ q) = record a { n_rsp_data = t.word; n_rsp_status = t.status }

module _ (lib : CRandom) where
  open lib use {State, rand, srand}

  unfoldable pub clear_reset : RngPins → State → RngPins × State
  clear_reset p s =
      let (chance, s') = rand_chance lib 5 10 s in
      (record p { req_ready = chance; rsp_valid = false }, s')

  -- `rng_sample`: the sample, the agent with its new status, and the generator.
  rng_sample : RngAgent → State → ℕ × RngAgent × State
  rng_sample a s =
      let (healthy, s1) = rand_chance lib 9 10 s in
      let (v, s2) = rand s1 in
      (
        v,
        record a {
          status = if healthy then rng_status_init_healthy else rng_status_init_unhealthy;
        },
        s2,
      )

  rng_seed : RngAgent → ℕ → RngAgent × State
  rng_seed a seed = (record a { status = rng_status_init_unhealthy }, srand seed)

  -- The request channel.
  unfoldable pub handle_request : RngAgent → RngPins → State → RngAgent × State
  unfolding rng_sample rng_seed
  handle_request a p s =
      if p.req_valid && not p.req_ready
      then (record a { req_stall_len = u32 (a.req_stall_len + 1) }, s)
      else if p.req_valid && p.req_ready
      then (let (v, a1, s1) = rng_sample a s in
          let (a2, s2) = if p.req_op == rng_op_seed then rng_seed a1 p.req_data else (a1, s1) in
          (
            record a2 {
              req_stall_len = 0;
              rsp_q = a.rsp_q ++ record { word = v; status = get_status a } ∷ [];
            },
            s2,
          ))
      else (a, s)

  draw_ready : RngAgent → State → RngAgent × State
  draw_ready a s =
      let (chance, s') = rand_chance lib 5 10 s in
      (record a { n_req_ready = chance || ltb a.max_req_stall a.req_stall_len }, s')

  -- `||` and `&&` stop early: a random number is drawn only where no response waits and the queue is
  -- not empty.
  draw_valid : RngAgent → RngPins → State → RngAgent × State
  draw_valid a p s =
      if p.rsp_valid && not p.rsp_ready
      then (record a { n_rsp_valid = true }, s)
      else if some_queue a.rsp_q
      then (let (chance, s') = rand_chance lib 5 10 s in
          (record a { n_rsp_valid = chance || ltb a.max_rsp_stall a.rsp_stall_len }, s'))
      else (record a { n_rsp_valid = false }, s)

  unfoldable pub posedge_clk : RngAgent → RngPins → State → RngAgent × State
  unfolding draw_ready draw_valid
  posedge_clk a p s =
      let (a1, s1) = handle_request a p s in
      let a2 = handle_response a1 p in
      let (a3, s3) = draw_ready a2 s1 in
      let (a4, s4) = draw_valid a3 p s3 in (next_response a4 a4.rsp_q, s4)
