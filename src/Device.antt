-- ===== src/Device.antt =====
-- flow/verilator/memory_device.hpp: the virtual functions by device, and the loops over a range.
pub mod Range
pub mod Ram
pub mod Uart
pub mod Access
use Range.{in_range}
use scarv_cpu.Base.{
  ℕ, zero, suc, ◌+◌, Bool, true, false, List, set, get_or, u64, ◌==◌, if◌then◌else◌,
}

-- A `memory_device *`: a constructor for each class that derives from it.
pub data Device : Type 0 where
  ram : Ram.Ram → Device
  uart : Uart.Uart → Device

unfoldable pub range : Device → Range.Range
range (ram r) = r.range
range (uart u) = u.range

unfoldable pub read_word : Device → ℕ → ℕ → Bool × ℕ × Device
read_word (ram r) addr dout =
    let (good, word, r') = Ram.read_word r addr dout in (good, word, ram r')
read_word (uart u) addr dout =
    let (good, word, u') = Uart.read_word u addr dout in (good, word, uart u')

unfoldable pub read_byte : Device → ℕ → ℕ × Device
read_byte (ram r) addr = let (b, r') = Ram.read_byte r addr in (b, ram r')
read_byte (uart u) addr = let (b, u') = Uart.read_byte u addr in (b, uart u')

unfoldable pub write_byte : Device → ℕ → ℕ → Bool × Device
write_byte (ram r) addr byte = let (good, r') = Ram.write_byte r addr byte in (good, ram r')
write_byte (uart u) addr byte = let (good, u') = Uart.write_byte u addr byte in (good, uart u')

-- The loop of `read_range` with `n` rounds left, at index `i`; `rdata` is the caller's array.
unfoldable pub read_from : Device → ℕ → ℕ → ℕ → List ℕ → Bool × List ℕ × Device
read_from d addr zero i rdata = (true, rdata, d)
read_from d addr (suc n) i rdata = elim (in_range (range d) (u64 (addr + i))) [
  | true ↦ let (b, d') = read_byte d (u64 (addr + i)) in read_from d' addr n (suc i) (set rdata i b)
  | false ↦ (false, rdata, d)
]

unfoldable pub read_range : Device → ℕ → ℕ → List ℕ → Bool × List ℕ × Device
read_range d addr size rdata = read_from d addr size 0 rdata

-- The loop of `write_range`: the result of `write_byte` is not used.
unfoldable pub write_from : Device → ℕ → ℕ → ℕ → List ℕ → List Bool → Bool × Device
write_from d addr zero i wdata strb = (true, d)
write_from d addr (suc n) i wdata strb = elim (in_range (range d) (u64 (addr + i))) [
  | true ↦
      let d' : Device =
        if get_or strb i false then (write_byte d (u64 (addr + i)) (get_or wdata i 0)).1 else d in
      write_from d' addr n (suc i) wdata strb
  | false ↦ (false, d)
]

unfoldable pub write_range : Device → ℕ → ℕ → List ℕ → List Bool → Bool × Device
write_range d addr size wdata strb = write_from d addr size 0 wdata strb
