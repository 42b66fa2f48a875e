-- ===== src/Tests.antt =====
-- Concrete values at which the children apply the theorems of the other modules: a random number
-- generator, a core, a bus, and the two agents.
mod Memory
mod Files
mod Agents
mod Core
mod LoadStore
mod Registers
mod Run
mod Programs
use scarv_cpu.Base.{ℕ, suc, ◌%◌, ◌^◌, true, false, List, [], ◌∷◌, arith}
use scarv_cpu.CRandom.{CRandom}
use scarv_cpu.Txn.{Txn}
use scarv_cpu.Device.Ram.{Ram}
use scarv_cpu.Device.Uart.{Uart}
use scarv_cpu.Device.{ram, uart}
use scarv_cpu.Bus.{Bus}
use scarv_cpu.SramAgent
use scarv_cpu.SramAgent.{SramAgent, Pins}
use scarv_cpu.RngAgent
use scarv_cpu.RngAgent.Cycle
use scarv_cpu.RngAgent.{RngAgent, RngPins}

abbrev pub counting : CRandom
counting = record {
  State = ℕ;
  rand = λ s. (s % 2 ^ 31, suc s);
  srand = λ seed. seed;
  rand_max = λ s. omega arith;
}

abbrev pub small_ram : Ram
small_ram = record { range = record { base = 4096; range = 16; top = 4112 }; memory = [] }

abbrev pub small_uart : Uart
small_uart = record {
  range = record { base = 8192; range = 8; top = 8200 };
  addr_tx = 8192;
  addr_rx = 8196;
  addr_ctrl = 8200;
  addr_status = 8204;
  reg_tx = 0;
  reg_rx = 0;
  reg_ctrl = 0;
  reg_status = 0;
  rx_buffer = [];
  tx_buffer = [];
  stdout = [];
  errors = 0;
}

abbrev pub small_bus : Bus
small_bus = record { devices = ram small_ram ∷ uart small_uart ∷ []; next_id = 0 }

-- A write of four bytes whose second strobe is clear, and a read of the same addresses.
abbrev pub write_txn : Txn
write_txn = record {
  id = 0;
  addr = 4100;
  size = 4;
  write = true;
  bytes = 1 ∷ 2 ∷ 3 ∷ 4 ∷ [];
  strb = true ∷ false ∷ true ∷ true ∷ [];
}

abbrev pub read_txn : Txn
read_txn = record {
  id = 1;
  addr = 4100;
  size = 4;
  write = false;
  bytes = 0 ∷ 0 ∷ 0 ∷ 0 ∷ [];
  strb = true ∷ true ∷ true ∷ true ∷ [];
}

abbrev pub memory_agent : SramAgent
memory_agent = record {
  max_req_stall = 5;
  max_rsp_stall = 5;
  req_stall_len = 0;
  rsp_stall_len = 0;
  req_q = write_txn ∷ read_txn ∷ [];
  n_mem_error = false;
  n_mem_recv = false;
  n_mem_rdata = 0;
  n_mem_gnt = true;
}

abbrev pub memory_pins : Pins
memory_pins = record {
  mem_req = true;
  mem_gnt = true;
  mem_wen = false;
  mem_strb = 0;
  mem_wdata = 0;
  mem_addr = 4104;
  mem_recv = false;
  mem_ack = true;
  mem_error = false;
  mem_rdata = 0;
}

abbrev pub asks_memory : SramAgent.CoreOutputs
asks_memory = record { req = true; wen = false; strb = 0; wdata = 0; addr = 4104; ack = true }

abbrev pub random_agent : RngAgent
random_agent = record {
  max_req_stall = 10;
  max_rsp_stall = 10;
  status = 0b101;
  req_stall_len = 0;
  rsp_stall_len = 0;
  n_req_ready = true;
  n_rsp_valid = true;
  n_rsp_status = 0b101;
  n_rsp_data = 7;
  rsp_q = record { word = 7; status = 0b101 } ∷ [];
}

abbrev pub random_pins : RngPins
random_pins = record {
  req_valid = true;
  req_op = 0b010;
  req_data = 0;
  req_ready = true;
  rsp_valid = true;
  rsp_status = 0b101;
  rsp_data = 7;
  rsp_ready = false;
}

abbrev pub asks_random : Cycle.CoreOutputs
asks_random = record { valid = true; op = 0b010; word = 0; ready = false }
