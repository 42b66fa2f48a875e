-- ===== src/Device/Uart.antt =====
-- flow/verilator/memory_device_uart.hpp and memory_device_uart.cpp: the UART that prints lines.
pub mod Lines
use scarv_cpu.Base.{
  ℕ, suc, ◌+◌, ◌%◌, ◌≡◌, Bool, true, false, List, [], ◌∷◌, ◌++◌, u64, ◌==◌, if◌then◌else◌,
}
use scarv_cpu.Device.Range.{Range, new_range}

abbrev pub newline : ℕ
newline = 10

-- `std::cout << "$ "`
abbrev pub prompt : List ℕ
prompt = 36 ∷ 32 ∷ []

-- `stdout` is all that was printed so far, and `errors` counts the messages on `std::cerr`.
pub record Uart : Type 0 where
  pub range : Range
  pub addr_tx : ℕ
  pub addr_rx : ℕ
  pub addr_ctrl : ℕ
  pub addr_status : ℕ
  pub reg_tx : ℕ
  pub reg_rx : ℕ
  pub reg_ctrl : ℕ
  pub reg_status : ℕ
  pub rx_buffer : List ℕ
  pub tx_buffer : List ℕ
  pub stdout : List ℕ
  pub errors : ℕ

-- The constructor. The four registers are left as the memory was: they are arguments.
unfoldable pub new_uart : ℕ → ℕ → ℕ → ℕ → ℕ → Uart
new_uart base tx rx ctrl status = record {
  range = new_range base 8;
  addr_tx = u64 (base + 0);
  addr_rx = u64 (base + 4);
  addr_ctrl = u64 (base + 8);
  addr_status = u64 (base + 12);
  reg_tx = tx;
  reg_rx = rx;
  reg_ctrl = ctrl;
  reg_status = status;
  rx_buffer = [];
  tx_buffer = [];
  stdout = [];
  errors = 0;
}

-- `read_word` sets its own copy of the pointer, so `*dout` stays as it was.
unfoldable pub read_word : Uart → ℕ → ℕ → Bool × ℕ × Uart
read_word u addr dout =
    if addr == u.addr_tx
    then (true, dout, u)
    else if addr == u.addr_rx
    then (true, dout, u)
    else if addr == u.addr_ctrl
    then (true, dout, u)
    else if addr == u.addr_status
    then (true, dout, u)
    else (false, dout, u)

-- `get_from_rx_buffer`
take_rx : Uart → List ℕ → ℕ × Uart
take_rx u [] = (0, u)
take_rx u (b ∷ rest) = (b, record u { rx_buffer = rest })

unfoldable pub get_from_rx_buffer : Uart → ℕ × Uart
unfolding take_rx
get_from_rx_buffer u = take_rx u u.rx_buffer

-- The loop that prints the buffer from the front and empties it.
print_buffer : List ℕ → List ℕ → List ℕ
print_buffer out [] = out
print_buffer out (b ∷ rest) = print_buffer (out ++ b ∷ []) rest

unfoldable pub write_to_tx_buffer : Uart → ℕ → Uart
unfolding print_buffer
write_to_tx_buffer u byte =
    if byte == newline
    then record u {
      tx_buffer = [];
      stdout = print_buffer (u.stdout ++ prompt) (u.tx_buffer ++ byte ∷ []);
    }
    else record u { tx_buffer = u.tx_buffer ++ byte ∷ [] }

complain : Uart → Uart
complain u = record u { errors = suc u.errors }

unfoldable pub write_byte : Uart → ℕ → ℕ → Bool × Uart
unfolding complain
write_byte u addr byte =
    if addr == u.addr_tx
    then (true, if addr % 4 == 0 then write_to_tx_buffer u byte else u)
    else if addr == u.addr_rx
    then (true, u)
    else if addr == u.addr_ctrl
    then (false, complain u)
    else if addr == u.addr_status
    then (false, complain u)
    else (false, u)

-- `addr & 0b11 == 0` is `addr & (0b11 == 0)`, that is `addr & 0`: the test never holds, and the
-- register TX always reads as zero.
unfoldable pub read_byte : Uart → ℕ → ℕ × Uart
unfolding complain
read_byte u addr =
    if addr == u.addr_tx
    then (0, u)
    else if addr == u.addr_rx
    then get_from_rx_buffer u
    else if addr == u.addr_ctrl
    then (0, complain u)
    else if addr == u.addr_status
    then (0, complain u)
    else (0, u)
