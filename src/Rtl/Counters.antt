-- ===== src/Rtl/Counters.antt =====
-- rtl/core/frv_counters.v: the counters of the core, and its timer behind memory mapped registers.
pub mod Timer
use scarv_cpu.Base.{
  ℕ, ◌+◌, ◌-◌, ◌*◌, ◌/◌, ◌%◌, ◌^◌, Bool, true, false, not, ◌&&◌, ◌||◌, bit_or, leb, ◌==◌,
  if◌then◌else◌,
}
use scarv_cpu.Rtl.{gate}

pub record Counters : Type 0 where
  pub timer_interrupt : Bool
  pub ctr_cycle : ℕ
  pub ctr_instret : ℕ
  pub mapped_mtime : ℕ
  pub mapped_mtimecmp : ℕ
  pub mmio_rdata : ℕ
  pub mmio_error : Bool

pub record Inputs : Type 0 where
  pub g_resetn : Bool
  pub instr_ret : Bool
  pub inhibit_cy : Bool
  pub inhibit_tm : Bool
  pub inhibit_ir : Bool
  pub mmio_en : Bool
  pub mmio_wen : Bool
  pub mmio_addr : ℕ
  pub mmio_wdata : ℕ

-- `MMIO_BASE_ADDR`, as the core passes it; its mask keeps all but the low twelve bits.
abbrev pub mmio_base_addr : ℕ
mmio_base_addr = 2 ^ 12

abbrev mmio_mtimecmp_reset : ℕ
mmio_mtimecmp_reset = 2 ^ 64 - 1

-- The four address tests, by the offset of the register from the base.
unfoldable pub addr_at : Inputs → ℕ → Bool
addr_at i offset = i.mmio_en && i.mmio_addr % 2 ^ 12 == (mmio_base_addr + offset) % 2 ^ 12

unfoldable pub n_timer_interrupt : Counters → Bool
n_timer_interrupt s = leb s.mapped_mtimecmp s.mapped_mtime

unfoldable pub next_mtime : Counters → Inputs → ℕ
unfolding addr_at
next_mtime s i =
    if not i.g_resetn
    then 0
    else if addr_at i 4 && i.mmio_wen
    then i.mmio_wdata * 2 ^ 32 + s.mapped_mtime % 2 ^ 32
    else if addr_at i 0 && i.mmio_wen
    then s.mapped_mtime / 2 ^ 32 * 2 ^ 32 + i.mmio_wdata
    else if not i.inhibit_tm
    then (s.mapped_mtime + 1) % 2 ^ 64
    else s.mapped_mtime

unfoldable pub next_mtimecmp : Counters → Inputs → ℕ
unfolding addr_at
next_mtimecmp s i =
    if not i.g_resetn
    then mmio_mtimecmp_reset
    else if addr_at i 12 && i.mmio_wen
    then i.mmio_wdata * 2 ^ 32 + s.mapped_mtimecmp % 2 ^ 32
    else if addr_at i 8 && i.mmio_wen
    then s.mapped_mtimecmp / 2 ^ 32 * 2 ^ 32 + i.mmio_wdata
    else s.mapped_mtimecmp

unfoldable pub n_mmio_rdata : Counters → Inputs → ℕ
unfolding addr_at
n_mmio_rdata s i =
    bit_or
      (bit_or
        (bit_or (gate (addr_at i 0) (s.mapped_mtime % 2 ^ 32))
          (gate (addr_at i 4) (s.mapped_mtime / 2 ^ 32)))
        (gate (addr_at i 8) (s.mapped_mtimecmp % 2 ^ 32)))
      (gate (addr_at i 12) (s.mapped_mtimecmp / 2 ^ 32))

unfoldable pub n_mmio_error : Inputs → Bool
unfolding addr_at
n_mmio_error i = i.mmio_en && not (addr_at i 0 || addr_at i 4 || addr_at i 8 || addr_at i 12)

unfoldable pub next_instret : Counters → Inputs → ℕ
next_instret s i =
    if not i.g_resetn
    then 0
    else if i.instr_ret && not i.inhibit_ir
    then (s.ctr_instret + 1) % 2 ^ 64
    else s.ctr_instret

unfoldable pub next_cycle : Counters → Inputs → ℕ
next_cycle s i =
    if not i.g_resetn
    then 0
    else if not i.inhibit_cy
    then (s.ctr_cycle + 1) % 2 ^ 64
    else s.ctr_cycle

unfoldable pub posedge_clk : Counters → Inputs → Counters
unfolding n_timer_interrupt next_mtime next_mtimecmp n_mmio_rdata n_mmio_error next_instret
    next_cycle
posedge_clk s i = record {
  timer_interrupt = i.g_resetn && n_timer_interrupt s;
  ctr_cycle = next_cycle s i;
  ctr_instret = next_instret s i;
  mapped_mtime = next_mtime s i;
  mapped_mtimecmp = next_mtimecmp s i;
  mmio_rdata = if not i.g_resetn then 0 else if i.mmio_en then n_mmio_rdata s i else s.mmio_rdata;
  mmio_error = i.g_resetn && (if i.mmio_en then n_mmio_error i else s.mmio_error);
}
