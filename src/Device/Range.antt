-- ===== src/Device/Range.antt =====
-- The part of flow/verilator/memory_device.hpp and memory_device.cpp that no device overrides: the
-- span of addresses that a device answers to.
use scarv_cpu.Base.{ℕ, ◌+◌, ◌^◌, ◌≤◌, ◌<◌, ◌≡◌, Bool, true, ◌&&◌, arith, leb, u64}

-- `addr_base`, `addr_range` and `addr_top` of `memory_device`.
pub record Range : Type 0 where
  pub base : ℕ
  pub range : ℕ
  pub top : ℕ

-- The constructor of `memory_device`: the top is the sum in 64 bits.
unfoldable pub new_range : ℕ → ℕ → Range
new_range base range = record { base = base; range = range; top = u64 (base + range) }

-- `in_range(addr)`
unfoldable pub in_range : Range → ℕ → Bool
in_range r addr = leb r.base addr && leb addr r.top

-- `in_range(addr, size)`
unfoldable pub in_range_span : Range → ℕ → ℕ → Bool
in_range_span r addr size = leb r.base addr && leb (u64 (addr + size)) r.top

-- Where the sum does not wrap, a span in range has all its addresses in range, and the one behind
-- its end too.
pub in_range-of_span :
    (r : Range) (addr size i : ℕ)
    → addr + size < 2 ^ 64
    → in_range_span r addr size ≡ true
    → i ≤ size
    → in_range r (u64 (addr + i)) ≡ true
unfolding in_range in_range_span
in_range-of_span r addr size i small h hi = ground arith
