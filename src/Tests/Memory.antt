-- ===== src/Tests/Memory.antt =====
-- The theorems on the bus and its devices, at concrete values.
use scarv_cpu.Base.{
  ℕ, ◌≡◌, ◌↔◌, inl, inr, refl, true, false, List, [], ◌∷◌, ◌++◌, some, arith, get_or, if◌then◌else◌,
}
use scarv_cpu.Device.Range.{in_range, in_range_span}
use scarv_cpu.Device.{Device, ram, uart, range}
use scarv_cpu.Device.Uart.Lines.{write_all, write_all_lines, text_of, transcript}
use scarv_cpu.Bus.{add_device, get_device_at, get_device_from, request}
use scarv_cpu.Bus.Map.{
  Stands, ApartFrom, AllApart, add_device_apart, add_device_enclosing, get_device_at_iff,
}
use scarv_cpu.Bus.Request.{Outcome, request-Outcome}
use scarv_cpu.Bus.Request.Memory.{ToRam, request_write-request_read}
use scarv_cpu.Tests.{small_ram, small_uart, small_bus, write_txn, read_txn}

request-Outcome_example : Outcome small_bus write_txn
request-Outcome_example = request-Outcome small_bus write_txn (omega arith)

write_txn-ToRam : ToRam small_bus write_txn 0 small_ram
unfolding get_device_at get_device_from in_range in_range_span range
write_txn-ToRam = record { small = omega arith; at = refl; inside = refl }

read_txn-ToRam : ToRam small_bus read_txn 0 small_ram
unfolding get_device_at get_device_from in_range in_range_span range
read_txn-ToRam = record { small = omega arith; at = refl; inside = refl }

request_write-request_read_example :
    let rsp = (request (request small_bus write_txn).1 read_txn).0 in
    (rsp.error ≡ false) × (get_or rsp.txn.bytes 2 0 ≡ 3)
request_write-request_read_example =
    request_write-request_read small_bus write_txn read_txn 0 small_ram 2 write_txn-ToRam
      read_txn-ToRam refl refl (omega arith)

abbrev next_ram : Device
next_ram = ram record { range = record { base = 4112; range = 16; top = 4128 }; memory = [] }

abbrev wide_ram : Device
wide_ram = ram record { range = record { base = 0; range = 16384; top = 16384 }; memory = [] }

add_device_apart_example :
    (((add_device small_bus next_ram).0 ≡ true) ↔ ApartFrom (range next_ram) small_bus.devices)
    × ((add_device small_bus next_ram).1.devices ≡ (
        if (add_device small_bus next_ram).0
        then small_bus.devices ++ next_ram ∷ []
        else small_bus.devices))
    × AllApart (add_device small_bus next_ram).1.devices
unfolding range
add_device_apart_example =
    add_device_apart small_bus next_ram (omega arith) (inl (omega arith), (inr (omega arith), tt))
      ((inl (omega arith), tt), (tt, tt))

add_device_enclosing_example :
    add_device small_bus wide_ram
    ≡ (true, record small_bus { devices = small_bus.devices ++ wide_ram ∷ [] })
unfolding range
add_device_enclosing_example =
    add_device_enclosing small_bus wide_ram
      ((omega arith, omega arith), ((omega arith, omega arith), tt))

get_device_at_iff_example : (get_device_at small_bus 8192 ≡ some (1, uart small_uart)) ↔ (
    Stands small_bus.devices 0 1 (uart small_uart)
    × (in_range (range (uart small_uart)) 8192 ≡ true))
unfolding range
get_device_at_iff_example =
    get_device_at_iff small_bus 8192 1 (uart small_uart) ((inl (omega arith), tt), (tt, tt))

-- Two lines, "A" and "B", and what has no newline yet.
abbrev two_lines : List (List ℕ)
two_lines = (65 ∷ []) ∷ (66 ∷ []) ∷ []

write_all_lines_example :
    write_all small_uart (text_of two_lines ++ 67 ∷ [])
    ≡ record small_uart { tx_buffer = 67 ∷ []; stdout = transcript two_lines }
write_all_lines_example =
    write_all_lines two_lines small_uart (67 ∷ []) refl refl
      (((λ e. absurd (omega (arith, e))), tt), (((λ e. absurd (omega (arith, e))), tt), tt))
      ((λ e. absurd (omega (arith, e))), tt)
