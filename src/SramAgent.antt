-- ===== src/SramAgent.antt =====
-- flow/verilator/sram_agent.hpp and sram_agent.cpp: the memory interface of the core, driven from
-- the memory bus.
pub mod Cycle
pub mod Queue
pub mod Counters
pub mod Stall
pub mod Reset
pub mod Sequential
use scarv_cpu.Base.{
  ℕ, suc, ◌+◌, ◌*◌, ◌/◌, ◌%◌, ◌^◌, Bool, true, false, not, ◌&&◌, ◌||◌, List, [], ◌∷◌, ◌++◌, leb,
  ◌==◌, u32, last_from, if◌then◌else◌,
}
use scarv_cpu.CRandom.{CRandom, rand_chance}
use scarv_cpu.Txn.{Txn, Rsp, new_txn, is_read, data_word}
use scarv_cpu.Bus.{Bus, request}

-- The signals that the agent points to. A signal of one bit is a Boolean.
pub record Pins : Type 0 where
  pub mem_req : Bool
  pub mem_gnt : Bool
  pub mem_wen : Bool
  pub mem_strb : ℕ
  pub mem_wdata : ℕ
  pub mem_addr : ℕ
  pub mem_recv : Bool
  pub mem_ack : Bool
  pub mem_error : Bool
  pub mem_rdata : ℕ

pub record SramAgent : Type 0 where
  pub max_req_stall : ℕ
  pub max_rsp_stall : ℕ
  pub req_stall_len : ℕ
  pub rsp_stall_len : ℕ
  pub req_q : List Txn
  pub n_mem_error : Bool
  pub n_mem_recv : Bool
  pub n_mem_rdata : ℕ
  pub n_mem_gnt : Bool

-- The constructor. The next values of the signals are left as the memory was: they are arguments.
unfoldable pub new_agent : Bool → Bool → ℕ → Bool → SramAgent
new_agent error recv rdata gnt = record {
  max_req_stall = 5;
  max_rsp_stall = 5;
  req_stall_len = 0;
  rsp_stall_len = 0;
  req_q = [];
  n_mem_error = error;
  n_mem_recv = recv;
  n_mem_rdata = rdata;
  n_mem_gnt = gnt;
}

-- The loop of `set_reset`: each round deletes the object at the back of the queue and takes the
-- front off. The identifiers of the deleted objects, in order.
unfoldable pub flush : List Txn → List ℕ
flush [] = []
flush (t ∷ q) = (last_from t q).id ∷ flush q

unfoldable pub set_reset : SramAgent → Pins → SramAgent × Pins × List ℕ
unfolding flush
set_reset a p =
    (record a { req_q = [] }, record p { mem_gnt = false; mem_recv = false }, flush a.req_q)

unfoldable pub clear_reset : SramAgent → SramAgent
clear_reset a = a

unfoldable pub drive_signals : SramAgent → Pins → Pins
drive_signals a p = record p {
  mem_recv = a.n_mem_recv;
  mem_error = a.n_mem_error;
  mem_rdata = a.n_mem_rdata;
  mem_gnt = a.n_mem_gnt;
}

-- The two branches of `drive_response`.
respond : SramAgent → Bus → Txn → List Txn → SramAgent × Bus
respond a bus req rest =
    let (rsp, bus') = request bus req in
    (
      record a {
        n_mem_error = rsp.error;
        n_mem_recv = true;
        rsp_stall_len = 0;
        n_mem_rdata = if is_read req then data_word rsp.txn else a.n_mem_rdata;
        req_q = rest;
      },
      bus',
    )

no_response : SramAgent → ℕ → SramAgent
no_response a more = record a {
  rsp_stall_len = u32 (a.rsp_stall_len + more);
  n_mem_error = false;
  n_mem_recv = false;
  n_mem_rdata = 0;
}

-- The write data and strobes of a request are those of the pins, a byte each.
abbrev pub data_bytes : ℕ → List ℕ
data_bytes w = (w / 2 ^ 0 % 256) ∷ (w / 2 ^ 8 % 256) ∷ (w / 2 ^ 16 % 256) ∷ (w / 2 ^ 24 % 256) ∷ []

abbrev strobes : ℕ → List Bool
strobes s =
    (s / 2 ^ 0 % 2 == 1) ∷ (s / 2 ^ 1 % 2 == 1) ∷ (s / 2 ^ 2 % 2 == 1) ∷ (s / 2 ^ 3 % 2 == 1) ∷ []

unfoldable pub new_request : Pins → ℕ → Txn
new_request p next_id =
    let req = new_txn next_id p.mem_addr 4 p.mem_wen in
    if p.mem_wen
    then record req { bytes = data_bytes p.mem_wdata; strb = strobes p.mem_strb }
    else req

-- The part of `posedge_clk` that takes a request in.
unfoldable pub take_request : SramAgent → Bus → Pins → SramAgent × Bus
unfolding new_request
take_request a bus p =
    if p.mem_req && p.mem_gnt
    then (
      record a { req_stall_len = 0; req_q = a.req_q ++ new_request p bus.next_id ∷ [] },
      record bus { next_id = suc bus.next_id },
    )
    else if p.mem_req && not p.mem_gnt
    then (record a { req_stall_len = u32 (a.req_stall_len + 1) }, bus)
    else (a, bus)

module _ (lib : CRandom) where
  open lib use {State}

  -- `drive_response`, by the queue. No random number is drawn where the queue is empty.
  drive_queue : SramAgent → Bus → State → List Txn → SramAgent × Bus × State
  unfolding respond no_response
  drive_queue a bus s [] = (no_response a 0, bus, s)
  drive_queue a bus s (req ∷ rest) =
      let (chance, s') = rand_chance lib 7 10 s in
      if chance || leb a.max_rsp_stall a.rsp_stall_len
      then (let (a', bus') = respond a bus req rest in (a', bus', s'))
      else (no_response a 1, bus, s')

  unfoldable pub drive_response : SramAgent → Bus → State → SramAgent × Bus × State
  unfolding drive_queue
  drive_response a bus s = drive_queue a bus s a.req_q

  -- The next value of the grant.
  draw_grant : SramAgent → State → SramAgent × State
  draw_grant a s =
      let (chance, s') = rand_chance lib 7 10 s in
      (record a { n_mem_gnt = chance || leb a.max_req_stall a.req_stall_len }, s')

  unfoldable pub posedge_clk : SramAgent → Bus → Pins → State → SramAgent × Bus × State
  unfolding take_request draw_grant
  posedge_clk a bus p s =
      let (a1, bus1) = take_request a bus p in
      let (a2, s2) = draw_grant a1 s in
      if p.mem_recv && not p.mem_ack then (a2, bus1, s2) else drive_response a2 bus1 s2

-- A clock cycle as the agent sees it: the core drives its outputs, the clock rises, and the agent
-- drives the next values.
pub record CoreOutputs : Type 0 where
  pub req : Bool
  pub wen : Bool
  pub strb : ℕ
  pub wdata : ℕ
  pub addr : ℕ
  pub ack : Bool

unfoldable pub core_drives : Pins → CoreOutputs → Pins
core_drives p c = record p {
  mem_req = c.req;
  mem_wen = c.wen;
  mem_strb = c.strb;
  mem_wdata = c.wdata;
  mem_addr = c.addr;
  mem_ack = c.ack;
}
