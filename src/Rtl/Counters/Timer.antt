-- ===== src/Rtl/Counters/Timer.antt =====
-- The timer: the time of 64 bits, the time to compare with, and the interrupt.
use scarv_cpu.Base.{
  ℕ, ◌+◌, ◌*◌, ◌%◌, ◌^◌, ◌<◌, ◌≡◌, ap, ap₂, ◌∙◌, true, false, ◌&&◌, List, [], ◌∷◌, ◌++◌, length,
  leb, arith,
}
use scarv_cpu.Rtl.Counters.{
  Counters, Inputs, addr_at, n_timer_interrupt, next_mtime, next_mtimecmp, posedge_clk,
}

abbrev pub run : Counters → List Inputs → Counters
run s [] = s
run s (i ∷ is) = run (posedge_clk s i) is

-- A cycle in which the time counts.
pub record Counts (i : Inputs) : Type 0 where
  pub no_reset : i.g_resetn ≡ true
  pub counts : i.inhibit_tm ≡ false

-- A store of a word to the register with the given offset.
pub record Writes (i : Inputs) (offset : ℕ) : Type 0 where
  pub ticks : Counts i
  pub enabled : i.mmio_en ≡ true
  pub writes : i.mmio_wen ≡ true
  pub there : i.mmio_addr % 2 ^ 12 ≡ offset
  pub word : i.mmio_wdata < 2 ^ 32

abbrev pub Quiet : List Inputs → Type 0
Quiet [] = Unit {0}
Quiet (i ∷ is) = (Counts i × (i.mmio_wen ≡ false)) × Quiet is

tick_step :
    (s : Counters) (i : Inputs)
    → Counts i
    → i.mmio_wen ≡ false
    → s.mapped_mtime + 1 < 2 ^ 64
    → ((posedge_clk s i).mapped_mtime ≡ s.mapped_mtime + 1)
      × ((posedge_clk s i).mapped_mtimecmp ≡ s.mapped_mtimecmp)
unfolding posedge_clk next_mtime next_mtimecmp
tick_step s i c w f = (ground (arith, c, w, f), ground (arith, c, w))

low_step :
    (s : Counters) (i : Inputs)
    → Writes i 8
    → s.mapped_mtime + 1 < 2 ^ 64
    → ((posedge_clk s i).mapped_mtime ≡ s.mapped_mtime + 1)
      × ((posedge_clk s i).mapped_mtimecmp % 2 ^ 32 ≡ i.mmio_wdata)
unfolding posedge_clk next_mtime next_mtimecmp addr_at
low_step s i w f = (ground (arith, w, w.ticks, f), ground (arith, w, w.ticks))

high_step :
    (s : Counters) (i : Inputs)
    → Writes i 12
    → s.mapped_mtime + 1 < 2 ^ 64
    → ((posedge_clk s i).mapped_mtime ≡ s.mapped_mtime + 1)
      × ((posedge_clk s i).mapped_mtimecmp ≡ i.mmio_wdata * 2 ^ 32 + s.mapped_mtimecmp % 2 ^ 32)
unfolding posedge_clk next_mtime next_mtimecmp addr_at
high_step s i w f = (ground (arith, w, w.ticks, f), ground (arith, w, w.ticks))

-- The interrupt line after some quiet cycles and one more.
later_interrupt :
    (s : Counters) (is : List Inputs) (i : Inputs)
    → Quiet is
    → i.g_resetn ≡ true
    → s.mapped_mtime + length is < 2 ^ 64
    → (run s (is ++ i ∷ [])).timer_interrupt ≡ leb s.mapped_mtimecmp (s.mapped_mtime + length is)
unfolding posedge_clk n_timer_interrupt
later_interrupt s [] i q r f =
    let here : s.mapped_mtime ≡ s.mapped_mtime + 0 = omega arith in
    ap (λ b. b && leb s.mapped_mtimecmp s.mapped_mtime) r ∙ ap (leb s.mapped_mtimecmp) here
later_interrupt s (j ∷ is) i q r f =
    let (time, same) = tick_step s j q.0.0 q.0.1 (omega (arith, f)) in
    later_interrupt (posedge_clk s j) is i q.1 r (omega (arith, f, time))
    ∙ ap₂ leb same (omega (arith, time))

-- Software sets the timer by two stores to the halves of the compare register, the low half first,
-- and stores nothing to the registers after that. Where the time counts in these cycles and does
-- not wrap, the interrupt is then raised exactly where the time of the cycle before had reached
-- the number of 64 bits that the two stores make, whatever the register held before them.
pub run-timer_interrupt :
    (s : Counters) (low high : Inputs) (is : List Inputs) (i : Inputs)
    → Writes low 8
    → Writes high 12
    → Quiet is
    → i.g_resetn ≡ true
    → s.mapped_mtime + 2 + length is < 2 ^ 64
    → (run s (low ∷ high ∷ is ++ i ∷ [])).timer_interrupt
      ≡ leb (high.mmio_wdata * 2 ^ 32 + low.mmio_wdata) (s.mapped_mtime + 2 + length is)
run-timer_interrupt s low high is i l h q r f =
    let (time1, low1) = low_step s low l (omega (arith, f)) in
    let (time2, both) = high_step (posedge_clk s low) high h (omega (arith, f, time1)) in
    later_interrupt (posedge_clk (posedge_clk s low) high) is i q r (omega (arith, f, time1, time2))
    ∙ ap₂ leb (both ∙ ap (λ (n : ℕ). high.mmio_wdata * 2 ^ 32 + n) low1)
        (omega (arith, time1, time2))
