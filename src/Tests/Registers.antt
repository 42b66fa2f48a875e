-- ===== src/Tests/Registers.antt =====
-- Concrete runs of the timer and of the register file of the core.
use scarv_cpu.Base.{◌*◌, ◌+◌, ◌-◌, ◌^◌, ◌≡◌, refl, true, false, [], ◌∷◌, ◌++◌, arith}
use scarv_cpu.Rtl.Counters.{Counters, Inputs}
use scarv_cpu.Rtl.Gprs
use scarv_cpu.Rtl.Gprs.{Gprs, gprs}
use scarv_cpu.Rtl.Gprs.Writes.{gprs-posedge_clk}
use scarv_cpu.Rtl.Counters.Timer.{run, run-timer_interrupt}

abbrev late : Counters
late = record {
  timer_interrupt = false;
  ctr_cycle = 0;
  ctr_instret = 0;
  mapped_mtime = 2 ^ 32 - 3;
  mapped_mtimecmp = 2 ^ 64 - 1;
  mmio_rdata = 0;
  mmio_error = false;
}

abbrev idle : Inputs
idle = record {
  g_resetn = true;
  instr_ret = false;
  inhibit_cy = false;
  inhibit_tm = false;
  inhibit_ir = false;
  mmio_en = false;
  mmio_wen = false;
  mmio_addr = 0;
  mmio_wdata = 0;
}

-- The compare register is set to the time at which the upper half of the time becomes one.
abbrev set_low : Inputs
set_low = record idle { mmio_en = true; mmio_wen = true; mmio_addr = 4104; mmio_wdata = 0 }

abbrev set_high : Inputs
set_high = record idle { mmio_en = true; mmio_wen = true; mmio_addr = 4108; mmio_wdata = 1 }

run-timer_interrupt_example :
    (run late (set_low ∷ set_high ∷ (idle ∷ []) ++ idle ∷ [])).timer_interrupt ≡ true
run-timer_interrupt_example =
    run-timer_interrupt late set_low set_high (idle ∷ []) idle
      (record {
        ticks = record { no_reset = refl; counts = refl };
        enabled = refl;
        writes = refl;
        there = refl;
        word = omega arith;
      })
      (record {
        ticks = record { no_reset = refl; counts = refl };
        enabled = refl;
        writes = refl;
        there = refl;
        word = omega arith;
      })
      ((record { no_reset = refl; counts = refl }, refl), tt) refl (omega arith)

abbrev counted_gprs : Gprs
counted_gprs = record { gprs_even = λ n. 2 * n; gprs_odd = λ n. 2 * n + 1 }

-- A pair is written to the registers 10 and 11.
abbrev wide_write : Gprs.Inputs
wide_write = record { rd_wen = true; rd_wide = true; rd_addr = 10; rd_wdata = 77; rd_wdata_hi = 88 }

gprs-posedge_clk_example : gprs (Gprs.posedge_clk counted_gprs wide_write) 11 ≡ 88
gprs-posedge_clk_example = gprs-posedge_clk counted_gprs wide_write 11
