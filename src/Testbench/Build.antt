-- ===== src/Testbench/Build.antt =====
-- The address map of the testbench.
use scarv_cpu.Base.{ℕ, ◌≡◌, ◌&&◌, arith, leb, ltb, ◌||◌}
use scarv_cpu.Device.Range.{new_range, in_range, in_range_span}
use scarv_cpu.Device.Ram.{new_ram}
use scarv_cpu.Device.Uart.{new_uart}
use scarv_cpu.Device.{range}
use scarv_cpu.Bus.{new_bus, add_device, any_clash, clashes}
use scarv_cpu.Bus.Map.{AllApart}
use scarv_cpu.Bus.Bytes.{plain_at, writable_at}
use scarv_cpu.Testbench.{build_bus}

-- In the bus that `build` sets up no address belongs to both devices; an address reaches a RAM with
-- room for a byte exactly when it is one of the 0x20000 addresses from 0x80000000 on; and the UART is
-- reached by the nine addresses from 0x40600000 on, one more than its range has.
pub build_bus_map :
    (next_id tx rx ctrl status addr : ℕ)
    → let bus = build_bus next_id tx rx ctrl status in
      AllApart bus.devices
      × (writable_at bus addr ≡ (leb 0x8000_0000 addr && ltb addr 0x8002_0000))
      × (plain_at bus addr ≡ (ltb addr 0x4060_0000 || ltb 0x4060_0008 addr))
unfolding build_bus add_device any_clash clashes new_ram new_uart new_range new_bus range in_range
    in_range_span
build_bus_map next_id tx rx ctrl status addr = (omega arith, ground arith, ground arith)
