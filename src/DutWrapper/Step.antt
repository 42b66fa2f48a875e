-- ===== src/DutWrapper/Step.antt =====
-- What one call of `dut_step_clk` does.
use mathlib.Core.List.{append-nil}
use scarv_cpu.Base.{
  ap₂, sym, ◌++◌, if◌then◌else◌, ℕ, zero, suc, ◌+◌, ◌≤◌, ◌≡◌, refl, ◌∙◌, ap, Bool, true, false, not,
  List, [], ◌∷◌, Bool-cases, inl, inr, arith, u64, ◌==◌, length, length-append,
}
use scarv_cpu.CRandom.{CRandom}
use scarv_cpu.DutWrapper.{
  Core, Wrapper, set_outputs, capture, posedge_gclk, Ports, TracePacket, tick, ticks, dut_step_clk,
}

length-capture :
    (p : Ports) (trace : List TracePacket) → length (capture p trace) ≤ length trace + 1
unfolding capture
length-capture p trace = elim (Bool-cases p.trs_valid) [
  | inl h ↦ rw h (
      omega (
        arith,
        length-append trace (record { program_counter = p.trs_pc; instr_word = p.trs_instr } ∷ []),
      ))
  | inr h ↦ rw h (omega arith)
]

-- The packet that the ports show, if they show one.
abbrev pub shown : Ports → List TracePacket
shown p =
    if p.trs_valid then record { program_counter = p.trs_pc; instr_word = p.trs_instr } ∷ [] else []

-- One packet at most.
few : (b : Bool) (p : Ports) → length (if b then [] else shown p) ≤ 1
few true p = omega arith
few false p = elim (Bool-cases p.trs_valid) [
  | inl valid ↦ rw valid (omega arith)
  | inr silent ↦ rw silent (omega arith)
]

capture-shown : (p : Ports) (trace : List TracePacket) → capture p trace ≡ trace ++ shown p
unfolding capture
capture-shown p trace = elim (Bool-cases p.trs_valid) [
  | inl h ↦ rw h refl
  | inr h ↦ rw h (sym (append-nil trace))
]

module _ (lib : CRandom) (core : Core) where
  -- What a round keeps that is not the one in the middle.
  record Quiet (w w' : Wrapper lib core) : Type 0 where
    clk : w'.ports.g_clk ≡ w.ports.g_clk
    resetn : w'.ports.g_resetn ≡ w.ports.g_resetn
    trace : w'.dut_trace ≡ w.dut_trace
    mem : w'.mem ≡ w.mem
    random : w'.random ≡ w.random

  tick-Quiet : (i : ℕ) (w : Wrapper lib core) → (i == 5) ≡ false → Quiet w (tick lib core i w)
  unfolding tick set_outputs
  tick-Quiet i w h =
      rw h record { clk = refl; resetn = refl; trace = refl; mem = refl; random = refl }

  tick_time : (i : ℕ) (w : Wrapper lib core) → (tick lib core i w).sim_time ≡ u64 (w.sim_time + 1)
  unfolding tick set_outputs posedge_gclk
  tick_time i w = ground arith

  Quiet-trans : {a b c : Wrapper lib core} → Quiet a b → Quiet b c → Quiet a c
  Quiet-trans q r = record {
    clk = r.clk ∙ q.clk;
    resetn = r.resetn ∙ q.resetn;
    trace = r.trace ∙ q.trace;
    mem = r.mem ∙ q.mem;
    random = r.random ∙ q.random;
  }

  middle_trace :
      (w : Wrapper lib core) → length (tick lib core 5 w).dut_trace ≤ length w.dut_trace + 1
  unfolding tick set_outputs posedge_gclk
  middle_trace w = elim (Bool-cases w.ports.g_clk) [
    | inl h ↦ rw h (omega arith)
    | inr h ↦ rw h (length-capture (record (w.ports) { g_clk = true }) w.dut_trace)
  ]

  -- The round in the middle: the clock changes, and on a rising edge the agents run and a packet may
  -- be captured.
  tick_middle :
      (w : Wrapper lib core)
      → let w' = tick lib core 5 w in
        (w'.ports.g_clk ≡ not w.ports.g_clk)
        × (w'.ports.g_resetn ≡ w.ports.g_resetn)
        × (length w'.dut_trace ≤ length w.dut_trace + 1)
        × (w.ports.g_clk ≡ true
            → (w'.dut_trace ≡ w.dut_trace) × (w'.mem ≡ w.mem) × (w'.random ≡ w.random))
  unfolding tick set_outputs posedge_gclk
  tick_middle w = (ground arith, ground arith, middle_trace w, λ h. rw h (refl, refl, refl))

  -- The rounds before the one in the middle, and those after it.
  early : Wrapper lib core → Wrapper lib core
  early w = ticks lib core 5 0 w

  early-Quiet : (w : Wrapper lib core) → Quiet w (early w)
  unfolding early ticks
  early-Quiet w =
      let w1 = tick lib core 0 w in
      let w2 = tick lib core 1 w1 in
      let w3 = tick lib core 2 w2 in
      let w4 = tick lib core 3 w3 in
      Quiet-trans (tick-Quiet 0 w refl) (
        Quiet-trans (tick-Quiet 1 w1 refl) (
          Quiet-trans (tick-Quiet 2 w2 refl)
            (Quiet-trans (tick-Quiet 3 w3 refl) (tick-Quiet 4 w4 refl))))

  late : Wrapper lib core → Wrapper lib core
  late w = ticks lib core 4 6 w

  late-Quiet : (w : Wrapper lib core) → Quiet w (late w)
  unfolding late ticks
  late-Quiet w =
      let w7 = tick lib core 6 w in
      let w8 = tick lib core 7 w7 in
      let w9 = tick lib core 8 w8 in
      Quiet-trans (tick-Quiet 6 w refl) (
        Quiet-trans (tick-Quiet 7 w7 refl)
          (Quiet-trans (tick-Quiet 8 w8 refl) (tick-Quiet 9 w9 refl)))

  ticks_time :
      (n i : ℕ) (w : Wrapper lib core)
      → (ticks lib core (suc n) i w).sim_time ≡ u64 (w.sim_time + suc n)
  unfolding ticks
  ticks_time zero i w = tick_time i w
  ticks_time (suc n) i w = omega (arith, ticks_time n (suc i) (tick lib core i w), tick_time i w)

  -- A call of `dut_step_clk` adds ten to the 64-bit time and inverts the clock once. It keeps the reset, and adds one
  -- packet at most to the trace.
  pub dut_step_clk_lem :
      (w : Wrapper lib core)
      → let w' = dut_step_clk lib core w in
        (w'.sim_time ≡ u64 (w.sim_time + 10))
        × (w'.ports.g_clk ≡ not w.ports.g_clk)
        × (w'.ports.g_resetn ≡ w.ports.g_resetn)
        × (length w'.dut_trace ≤ length w.dut_trace + 1)
  unfolding dut_step_clk early late ticks
  dut_step_clk_lem w =
      let before = early-Quiet w in
      let middle = tick_middle (early w) in
      let after = late-Quiet (tick lib core 5 (early w)) in
      (
        ticks_time 9 0 w,
        after.clk ∙ middle.0 ∙ ap not before.clk,
        after.resetn ∙ middle.1 ∙ before.resetn,
        omega (arith, middle.2, ap length after.trace, ap length before.trace),
      )

  -- Where the clock is high, a call of `dut_step_clk` is the falling half of a period: the trace, the memory and the
  -- random numbers stay as they are.
  dut_step_clk_falling :
      (w : Wrapper lib core)
      → w.ports.g_clk ≡ true
      → let w' = dut_step_clk lib core w in
        (w'.dut_trace ≡ w.dut_trace) × (w'.mem ≡ w.mem) × (w'.random ≡ w.random)
  unfolding dut_step_clk early late ticks
  dut_step_clk_falling w h =
      let before = early-Quiet w in
      let quiet = (tick_middle (early w)).3 (before.clk ∙ h) in
      let after = late-Quiet (tick lib core 5 (early w)) in
      (
        after.trace ∙ quiet.0 ∙ before.trace,
        after.mem ∙ quiet.1 ∙ before.mem,
        after.random ∙ quiet.2 ∙ before.random,
      )

  middle_shown :
      (w : Wrapper lib core)
      → (tick lib core 5 w).dut_trace ≡ w.dut_trace ++ (if w.ports.g_clk then [] else shown w.ports)
  unfolding tick set_outputs posedge_gclk
  middle_shown w = elim (Bool-cases w.ports.g_clk) [
    | inl h ↦ rw h (sym (append-nil w.dut_trace))
    | inr h ↦ rw h (capture-shown (record (w.ports) { g_clk = true }) w.dut_trace)
  ]

  -- The packets of a call: what the ports show halfway, where the clock then rises.
  pub packets_in : Wrapper lib core → List TracePacket
  unfolding early ticks
  packets_in w = if w.ports.g_clk then [] else shown (early w).ports

  pub length-packets_in : (w : Wrapper lib core) → length (packets_in w) ≤ 1
  unfolding packets_in
  length-packets_in w = few w.ports.g_clk (early w).ports

  pub dut_step_clk_trace :
      (w : Wrapper lib core) → (dut_step_clk lib core w).dut_trace ≡ w.dut_trace ++ packets_in w
  unfolding dut_step_clk early late ticks packets_in
  dut_step_clk_trace w =
      let before = early-Quiet w in
      let after = late-Quiet (tick lib core 5 (early w)) in
      after.trace
      ∙ middle_shown (early w)
      ∙ ap₂ (λ t b. t ++ (if b then [] else shown (early w).ports)) before.trace before.clk
