-- ===== src/Embench/Console.antt =====
-- Text that a program stores to the UART, through the memory bus of the simulator.
use scarv_cpu.Base.{
  AllBytes, ℕ, zero, suc, ◌+◌, ◌/◌, ◌%◌, ◌^◌, ◌<◌, ◌≡◌, refl, ◌∙◌, sym, ap, subst, true, false,
  List, [], ◌∷◌, ◌++◌, some, arith, if◌then◌else◌, u64, Text, Bool, get_or, lacks,
}
use scarv_cpu.Txn.{Txn}
use scarv_cpu.Device
use scarv_cpu.Device.Range.{in_range, in_range_span}
use scarv_cpu.Device.{Device, uart, range, write_range, write_from}
use scarv_cpu.Device.Uart
use scarv_cpu.Device.Uart.{Uart}
use scarv_cpu.Device.Uart.Lines.{
  write_all, text_of, transcript, AllLines, HasNoNewline, write_all_lines,
}
use scarv_cpu.Bus.{Bus, get_device_at, store, request}
use scarv_cpu.Bus.Map.{get_device_at-store, get_device_at-numbered}
use scarv_cpu.Bus.Request.{request-serve, serve_write}
use scarv_cpu.SramAgent.{data_bytes}
use scarv_cpu.Embench.{putstr, put_from}

abbrev pub all_strobes : List Bool
all_strobes = true ∷ true ∷ true ∷ true ∷ []

-- The request that a store of a word makes.
abbrev pub store_txn : ℕ → ℕ → Txn
store_txn addr w = record {
  id = 0;
  addr = addr;
  size = 4;
  write = true;
  bytes = data_bytes w;
  strb = all_strobes;
}

-- The words are stored one after another.
unfoldable pub store_all : Bus → ℕ → List ℕ → Bus
store_all bus addr [] = bus
store_all bus addr (w ∷ ws) = store_all (request bus (store_txn addr w)).1 addr ws

-- The registers of a UART stand at their offsets from the base of its range.
pub record IsWired (u : Uart) : Type 0 where
  pub base : u.range.base ≡ u.addr_tx
  pub top : u.range.top ≡ u.addr_tx + 8
  pub small : u.addr_tx + 12 < 2 ^ 64
  pub rx : u.addr_rx ≡ u.addr_tx + 4
  pub ctrl : u.addr_ctrl ≡ u.addr_tx + 8
  pub status : u.addr_status ≡ u.addr_tx + 12

-- A byte written to TX changes the buffer and what is printed.
write_byte_tx :
    (u : Uart) (b : ℕ)
    → let u' = (Uart.write_byte u u.addr_tx b).1 in
      (u'.addr_tx ≡ u.addr_tx) × (u'.range ≡ u.range) × (IsWired u → IsWired u')
unfolding Uart.write_byte Uart.write_to_tx_buffer
write_byte_tx u b = (
  ground arith,
  ground arith,
  λ v. record {
    base = ground (arith, v);
    top = ground (arith, v);
    small = ground (arith, v);
    rx = ground (arith, v);
    ctrl = ground (arith, v);
    status = ground (arith, v);
  },
)

-- The other bytes of the word at TX have no effect.
write_byte_beside :
    (u : Uart) (k b : ℕ)
    → IsWired u
    → 0 < k
    → k < 4
    → (Device.write_byte (uart u) (u64 (u.addr_tx + k)) b).1 ≡ uart u
unfolding Device.write_byte Uart.write_byte
write_byte_beside u k b v h0 h4 = ground (arith, v)

wired_in_range :
    (u : Uart) (k : ℕ) → IsWired u → k < 4 → in_range (range (uart u)) (u64 (u.addr_tx + k)) ≡ true
unfolding in_range range
wired_in_range u k v h = ground (arith, v)

write_from_beside :
    (u : Uart) (n i : ℕ) (bs : List ℕ) (strb : List Bool)
    → IsWired u
    → 0 < i
    → i + n < 5
    → (write_from (uart u) u.addr_tx n i bs strb).1 ≡ uart u
unfolding write_from
write_from_beside u zero i bs strb v h0 h4 = refl
write_from_beside u (suc n) i bs strb v h0 h4 =
    let here = u64 (u.addr_tx + i) in
    let d' : Device =
      if get_or strb i false then (Device.write_byte (uart u) here (get_or bs i 0)).1 else uart u in
    let beside = write_byte_beside u i (get_or bs i 0) v h0 (omega arith) in
    let same : d' ≡ uart u = ground (arith, beside) in
    rw (wired_in_range u i v (omega arith), write_from)
      (ap (λ d. (write_from d u.addr_tx n (suc i) bs strb).1) same
        ∙ write_from_beside u n (suc i) bs strb v (omega arith) (omega arith))

-- A word stored at TX writes its lowest byte there.
write_range_word :
    (u : Uart) (w : ℕ)
    → IsWired u
    → (write_range (uart u) u.addr_tx 4 (data_bytes w) all_strobes).1
      ≡ uart (Uart.write_byte u u.addr_tx (w % 256)).1
unfolding write_range write_from Device.write_byte
write_range_word u w v =
    let at : u64 (u.addr_tx + 0) ≡ u.addr_tx = omega (arith, v.small) in
    let first : w / 2 ^ 0 % 256 ≡ w % 256 = omega arith in
    let u1 = (Uart.write_byte u (u64 (u.addr_tx + 0)) (w / 2 ^ 0 % 256)).1 in
    let same : u1 ≡ (Uart.write_byte u u.addr_tx (w % 256)).1 =
      ap (λ a. (Uart.write_byte u a (w / 2 ^ 0 % 256)).1) at
      ∙ ap (λ b. (Uart.write_byte u u.addr_tx b).1) first in
    let (tx, _, wired) = write_byte_tx u (w % 256) in
    let v1 : IsWired u1 = subst IsWired (sym same) (wired v) in
    let tx1 : u1.addr_tx ≡ u.addr_tx = ap (λ x. x.addr_tx) same ∙ tx in
    rw (wired_in_range u 0 v (omega arith), write_from)
      (ap (λ a. (write_from (uart u1) a 3 1 (data_bytes w) all_strobes).1) (sym tx1)
        ∙ write_from_beside u1 3 1 (data_bytes w) all_strobes v1 (omega arith) (omega arith)
        ∙ ap uart same)

request-store :
    (bus : Bus) (i : ℕ) (u : Uart) (w : ℕ)
    → get_device_at bus u.addr_tx ≡ some (i, uart u)
    → IsWired u
    → (request bus (store_txn u.addr_tx w)).1
      ≡ store
          (record bus { next_id = suc bus.next_id })
          i
          (uart (Uart.write_byte u u.addr_tx (w % 256)).1)
unfolding in_range_span range
request-store bus i u w here v =
    let t = store_txn u.addr_tx w in
    let inside : in_range_span (range (uart u)) t.addr t.size ≡ true = ground (arith, v) in
    ap (λ r. r.1) (request-serve bus t i (uart u) here inside)
    ∙ ap (λ r. r.1) (serve_write bus t i (uart u) (omega (arith, v.small)) inside refl)
    ∙ ap (store (record bus { next_id = suc bus.next_id }) i) (write_range_word u w v)

store_all_console :
    (ws : List ℕ) (bus : Bus) (i tx : ℕ) (u : Uart)
    → AllBytes ws
    → IsWired u
    → u.addr_tx ≡ tx
    → get_device_at bus tx ≡ some (i, uart u)
    → get_device_at (store_all bus tx ws) tx ≡ some (i, uart (write_all u ws))
unfolding store_all write_all range
store_all_console [] bus i tx u bytes v at here = here
store_all_console (w ∷ ws) bus i tx u bytes v at here =
    let u1 = (Uart.write_byte u u.addr_tx w).1 in
    let small : w % 256 ≡ w = omega (arith, bytes.0) in
    let (tx1, ranges, wired) = write_byte_tx u w in
    let next = record bus { next_id = suc bus.next_id } in
    let stored : (request bus (store_txn tx w)).1 ≡ store next i (uart u1) =
      ap (λ a. (request bus (store_txn a w)).1) (sym at)
      ∙ request-store bus i u w (ap (get_device_at bus) at ∙ here) v
      ∙ ap (λ b. store next i (uart (Uart.write_byte u u.addr_tx b).1)) small in
    let there : get_device_at (store next i (uart u1)) tx ≡ some (i, uart u1) =
      get_device_at-store next i tx (uart u) (uart u1)
        (get_device_at-numbered bus (suc bus.next_id) tx ∙ here) ranges in
    ap (λ b. get_device_at (store_all b tx ws) tx) stored
    ∙ store_all_console ws (store next i (uart u1)) i tx u1 bytes.1 (wired v) (tx1 ∙ at) there

putstr_from : (c : ℕ) (cs : Text) → lacks 0 cs ≡ true → put_from c cs ≡ c ∷ cs
unfolding put_from
putstr_from c [] h = refl
putstr_from c (d ∷ ds) h = ground (arith, putstr_from d ds)

-- A string without a zero byte is stored whole.
pub putstr_whole : (s : Text) → lacks 0 s ≡ true → putstr s ≡ s
unfolding putstr
putstr_whole [] h = refl
putstr_whole (c ∷ cs) h = ground (arith, putstr_from c cs)

-- A string of lines, without a zero byte, that `putstr` stores word by word through the memory bus to
-- the register TX of a wired UART that holds nothing back: each complete line is printed once, in
-- order and behind the prompt, and what follows the last newline is held back. Nothing else of the
-- UART changes.
pub putstr_prints :
    (bus : Bus) (i : ℕ) (u : Uart) (ls : List (List ℕ)) (rest : List ℕ)
    → get_device_at bus u.addr_tx ≡ some (i, uart u)
    → IsWired u
    → u.addr_tx % 4 ≡ 0
    → u.tx_buffer ≡ []
    → AllLines ls
    → HasNoNewline rest
    → AllBytes (text_of ls ++ rest)
    → lacks 0 (text_of ls ++ rest) ≡ true
    → get_device_at (store_all bus u.addr_tx (putstr (text_of ls ++ rest))) u.addr_tx
      ≡ some (i, uart (record u { tx_buffer = rest; stdout = u.stdout ++ transcript ls }))
putstr_prints bus i u ls rest here v aligned empty lines no_line bytes text =
    ap (λ s. get_device_at (store_all bus u.addr_tx s) u.addr_tx)
      (putstr_whole (text_of ls ++ rest) text)
    ∙ store_all_console (text_of ls ++ rest) bus i u.addr_tx u bytes v refl here
    ∙ ap (λ x. some (i, uart x)) (write_all_lines ls u rest aligned empty lines no_line)
