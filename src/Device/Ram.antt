-- ===== src/Device/Ram.antt =====
-- flow/verilator/memory_device_ram.hpp and memory_device_ram.cpp: bytes in a `std::map`.
use scarv_cpu.Base.{
  ℕ, ◌+◌, ◌*◌, ◌^◌, ◌≡◌, Bool, true, false, ◌&&◌, bit_or, u64, ◌==◌, if◌then◌else◌, arith, [],
}
use scarv_cpu.OrdMap
use scarv_cpu.OrdMap.{OrdMap, value-put, value-index, index-value}
use scarv_cpu.Device.Range.{Range, new_range, in_range_span}

pub record Ram : Type 0 where
  pub range : Range
  pub memory : OrdMap

unfoldable pub new_ram : ℕ → ℕ → Ram
new_ram base size = record { range = new_range base size; memory = [] }

-- `read_word`: its result, what `*dout` holds after the call, and the RAM.
unfoldable pub read_word : Ram → ℕ → ℕ → Bool × ℕ × Ram
read_word ram addr dout =
    let (b3, m3) = OrdMap.index (u64 (addr + 3)) ram.memory in
    let (b2, m2) = OrdMap.index (u64 (addr + 2)) m3 in
    let (b1, m1) = OrdMap.index (u64 (addr + 1)) m2 in
    let (b0, m0) = OrdMap.index (u64 (addr + 0)) m1 in
    let word = bit_or (bit_or (bit_or (b3 * 2 ^ 24) (b2 * 2 ^ 16)) (b1 * 2 ^ 8)) b0 in
    if in_range_span ram.range addr 4
    then (true, word, record ram { memory = m0 })
    else (false, dout, ram)

unfoldable pub read_byte : Ram → ℕ → ℕ × Ram
read_byte ram addr = let (b, m) = OrdMap.index addr ram.memory in (b, record ram { memory = m })

unfoldable pub write_byte : Ram → ℕ → ℕ → Bool × Ram
write_byte ram addr byte =
    if in_range_span ram.range addr 1
    then (true, record ram { memory = OrdMap.put addr byte ram.memory })
    else (false, ram)

-- The byte that the RAM holds at an address.
unfoldable pub peek : Ram → ℕ → ℕ
peek ram addr = OrdMap.value addr ram.memory

pub read_byte_lem :
    (ram : Ram) (addr j : ℕ)
    → ((read_byte ram addr).0 ≡ peek ram addr)
      × ((read_byte ram addr).1.range ≡ ram.range)
      × (peek (read_byte ram addr).1 j ≡ peek ram j)
unfolding read_byte peek
read_byte_lem ram addr j =
    ground (arith, index-value addr ram.memory, value-index addr j ram.memory)

pub write_byte_lem :
    (ram : Ram) (addr byte j : ℕ)
    → ((write_byte ram addr byte).0 ≡ in_range_span ram.range addr 1)
      × ((write_byte ram addr byte).1.range ≡ ram.range)
      × (peek (write_byte ram addr byte).1 j
          ≡ (if in_range_span ram.range addr 1 && (addr == j) then byte else peek ram j))
unfolding write_byte peek
write_byte_lem ram addr byte j = ground (arith, value-put addr byte j ram.memory)
