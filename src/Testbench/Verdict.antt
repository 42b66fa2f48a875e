-- ===== src/Testbench/Verdict.antt =====
-- The verdict of the main loop, from the packets of the trace.
use mathlib.Core.List.{append_assoc, append-nil}
use scarv_cpu.Base.{
  ℕ, zero, suc, ◌+◌, ◌*◌, ◌^◌, ◌≤◌, ◌<◌, ◌≡◌, refl, sym, ◌∙◌, ◌⊎◌, ap, ap₂, subst, Bool, true,
  false, not, ◌&&◌, List, [], ◌∷◌, ◌++◌, some, ltb, ◌==◌, if◌then◌else◌, Bool-cases, inl, inr,
  arith, length, length-append,
}
use scarv_cpu.CRandom.{CRandom}
use scarv_cpu.DutWrapper.{Core, TracePacket, dut_step_clk, dut_set_reset, dut_clear_reset}
use scarv_cpu.DutWrapper.Step.{packets_in, length-packets_in, dut_step_clk_trace}
use scarv_cpu.Testbench.{Testbench, check_trace, round, run_loop, reset_steps}
use scarv_cpu.Testbench.Run.{check_trace_lem, round_lem, run_loop_ends}

-- Whether a trace decides the test, and how: its first packet at one of the two addresses does. Where
-- there is none, the result is the old one.
unfoldable pub verdict : ℕ → ℕ → Bool → List TracePacket → Bool × Bool
verdict pass fail old [] = (false, old)
verdict pass fail old (p ∷ ps) =
    if p.program_counter == pass
    then (true, true)
    else if p.program_counter == fail
    then (true, false)
    else verdict pass fail old ps

verdict-append :
    (pass fail : ℕ) (old : Bool) (ps qs : List TracePacket)
    → verdict pass fail old (ps ++ qs) ≡ (
        let (decided, result) = verdict pass fail old ps in
        if decided then (true, result) else verdict pass fail result qs)
unfolding verdict
verdict-append pass fail old [] qs = refl
verdict-append pass fail old (p ∷ ps) qs =
    let rest = verdict-append pass fail old ps qs in
    elim (Bool-cases (p.program_counter == pass)) [
      | inl passes ↦ rw passes refl
      | inr neither ↦ elim (Bool-cases (p.program_counter == fail)) [
        | inl fails ↦ rw (neither, fails) refl
        | inr other ↦ rw (neither, other) rest
      ]
    ]

abbrev first_of : List TracePacket → List TracePacket
first_of [] = []
first_of (p ∷ ps) = p ∷ []

-- One packet that comes for one that goes leaves no more than there were.
first_of-backlog :
    (old new rest : List TracePacket)
    → length new ≤ 1
    → old ++ new ≡ first_of (old ++ new) ++ rest
    → length rest ≤ length old
first_of-backlog [] [] rest few e = omega (arith, ap length e)
first_of-backlog [] (q ∷ qs) rest few e = omega (arith, ap length e)
first_of-backlog (p ∷ ps) new rest few e = omega (arith, ap length e, length-append ps new)

module _ (lib : CRandom) (core : Core) where
  -- The packets that the core shows in a number of rounds.
  unfoldable pub packets : ℕ → Testbench lib core → List TracePacket
  packets zero tb = []
  packets (suc n) tb = packets_in lib core tb.dut ++ packets n (round lib core tb)

  abbrev state : Testbench lib core → Bool × Bool
  state tb = (tb.sim_finished, tb.sim_passed)

  check_trace-verdict :
      (tb : Testbench lib core) (trace : List TracePacket)
      → tb.sim_finished ≡ false
      → tb.dut.dut_trace ≡ trace
      → let tb' = check_trace lib core tb trace in
        (trace ≡ first_of trace ++ tb'.dut.dut_trace)
        × (state tb' ≡ verdict tb.pass_address tb.fail_address tb.sim_passed (first_of trace))
  unfolding check_trace verdict
  check_trace-verdict tb [] going same = (sym same, ap (λ f. (f, tb.sim_passed)) going)
  check_trace-verdict tb (p ∷ ps) going same =
      elim (Bool-cases (p.program_counter == tb.pass_address)) [
        | inl passes ↦ rw passes (refl, refl)
        | inr neither ↦ elim (Bool-cases (p.program_counter == tb.fail_address)) [
          | inl fails ↦ rw (neither, fails) (refl, refl)
          | inr other ↦ rw (neither, other) (refl, ap (λ f. (f, tb.sim_passed)) going)
        ]
      ]

  -- What a run has seen of the trace, and what it makes of it.
  record Judged (n : ℕ) (tb tb' : Testbench lib core) (seen : List TracePacket) : Type 0 where
    time : tb'.dut.sim_time ≡ tb.dut.sim_time + 10 * n
    order : tb.dut.dut_trace ++ packets n tb ≡ seen ++ tb'.dut.dut_trace
    backlog : length tb'.dut.dut_trace ≤ length tb.dut.dut_trace
    result : state tb' ≡ (
        if tb.sim_finished
        then (true, tb.sim_passed)
        else verdict tb.pass_address tb.fail_address tb.sim_passed seen)

  round-verdict :
      (tb : Testbench lib core)
      → tb.sim_finished ≡ false
      → let tb' = round lib core tb in
        let trace = tb.dut.dut_trace ++ packets_in lib core tb.dut in
        (trace ≡ first_of trace ++ tb'.dut.dut_trace)
        × (state tb' ≡ verdict tb.pass_address tb.fail_address tb.sim_passed (first_of trace))
        × (tb'.pass_address ≡ tb.pass_address)
        × (tb'.fail_address ≡ tb.fail_address)
  unfolding round
  round-verdict tb going =
      let d = dut_step_clk lib core tb.dut in
      let tb1 : Testbench lib core = record tb { dut = d } in
      let t = dut_step_clk_trace lib core tb.dut in
      let (order, result) = check_trace-verdict tb1 d.dut_trace going refl in
      let keeps = check_trace_lem lib core tb1 d.dut_trace in
      (
        sym t
            ∙ order
            ∙ ap (λ l. first_of l ++ (check_trace lib core tb1 d.dut_trace).dut.dut_trace) t,
        result ∙ ap (λ l. verdict tb.pass_address tb.fail_address tb.sim_passed (first_of l)) t,
        keeps.2,
        keeps.3,
      )

  Judged-stays : (tb : Testbench lib core) → Judged 0 tb tb []
  unfolding packets verdict
  Judged-stays tb = record {
    time = omega arith;
    order = append-nil tb.dut.dut_trace;
    backlog = omega arith;
    result = elim (Bool-cases tb.sim_finished) [
      | inl done ↦ rw done refl
      | inr going ↦ rw going refl
    ];
  }

  Judged-round :
      (n : ℕ) (tb tb' : Testbench lib core) (seen : List TracePacket)
      → tb.sim_finished ≡ false
      → (round lib core tb).dut.sim_time ≡ tb.dut.sim_time + 10
      → Judged n (round lib core tb) tb' seen
      → Judged (suc n) tb tb' (first_of (tb.dut.dut_trace ++ packets_in lib core tb.dut) ++ seen)
  unfolding packets
  Judged-round n tb tb' seen going time j =
      let tb1 = round lib core tb in
      let trace = tb.dut.dut_trace ++ packets_in lib core tb.dut in
      let (order, result, pass, fail) = round-verdict tb going in
      record {
        time = omega (arith, time, j.time);
        order =
            sym (append_assoc tb.dut.dut_trace (packets_in lib core tb.dut) (packets n tb1))
            ∙ ap (λ l. l ++ packets n tb1) order
            ∙ append_assoc (first_of trace) tb1.dut.dut_trace (packets n tb1)
            ∙ ap (λ l. first_of trace ++ l) j.order
            ∙ sym (append_assoc (first_of trace) seen tb'.dut.dut_trace);
        backlog = omega (
          arith,
          j.backlog,
          first_of-backlog tb.dut.dut_trace (packets_in lib core tb.dut) tb1.dut.dut_trace
              (length-packets_in lib core tb.dut) order,
        );
        result =
            j.result
            ∙ ap₂
                (λ p f.
                  if tb1.sim_finished
                  then (true, tb1.sim_passed)
                  else verdict p f tb1.sim_passed seen)
                pass fail
            ∙ ap
                (λ s. if s.0 then (true, s.1) else verdict tb.pass_address tb.fail_address s.1 seen)
                result
            ∙ sym
                (verdict-append tb.pass_address tb.fail_address tb.sim_passed (first_of trace) seen)
            ∙ rw going refl;
      }

  run_loop-Judged :
      (fuel : ℕ) (tb tb' : Testbench lib core)
      → run_loop lib core fuel tb ≡ some tb'
      → tb.max_sim_time + 10 < 2 ^ 64
      → (n : ℕ) × (seen : List TracePacket) × Judged n tb tb' seen
  unfolding run_loop packets verdict
  run_loop-Judged zero tb tb' e small = absurd (cc)
  run_loop-Judged (suc fuel) tb tb' e small =
      elim (Bool-cases (ltb tb.dut.sim_time tb.max_sim_time && not tb.sim_finished)) [
        | inl go ↦
            let going : tb.sim_finished ≡ false = ground (arith, go) in
            let lt : tb.dut.sim_time < tb.max_sim_time = ground (arith, go) in
            let step = round_lem lib core tb (omega arith) in
            let tb1 = round lib core tb in
            let (n, seen, j) =
              run_loop-Judged fuel tb1 tb' (rw (go, run_loop) at e) (omega (arith, step)) in
            (
              suc n,
              first_of (tb.dut.dut_trace ++ packets_in lib core tb.dut) ++ seen,
              Judged-round n tb tb' seen going step.1 j,
            )
        | inr stop ↦
            let same : tb ≡ tb' = cc (rw (stop, run_loop) at e) in
            (0, [], subst (λ t. Judged 0 tb t []) same (Judged-stays tb))
      ]

  -- The testbench behind the reset, where its loop starts.
  abbrev pub behind_reset : Testbench lib core → Testbench lib core
  behind_reset tb = record tb {
    dut = dut_clear_reset lib core (reset_steps lib core 5 (dut_set_reset lib core tb.dut));
  }

  -- From a testbench that is not finished, at a time less than ten past the limit, with fuel for the
  -- steps up to ten past the limit, and where the times do not wrap, the loop ends after a number of
  -- rounds, finished or with its time up. The packets it has taken off the trace are the first of
  -- those that waited at the start and those that the core has shown since, in order and none twice;
  -- the others still wait, and are no more than waited at the start: where none waited, all packets
  -- that the core has shown have been taken. The first of the packets taken that has the pass or the fail address decides whether the test is finished and
  -- passed; where there is none, it is not finished and the result is the old one.
  pub run_loop-verdict :
      (fuel : ℕ) (tb : Testbench lib core)
      → tb.sim_finished ≡ false
      → tb.max_sim_time + 10 < 2 ^ 64
      → tb.dut.sim_time < tb.max_sim_time + 10
      → tb.max_sim_time + 10 ≤ tb.dut.sim_time + 10 * fuel
      → (tb' : Testbench lib core) × (n : ℕ) × (seen : List TracePacket) × (run_loop lib core fuel
            tb
          ≡ some tb')
        × (tb'.dut.sim_time ≡ tb.dut.sim_time + 10 * n)
        × (tb.dut.dut_trace ++ packets n tb ≡ seen ++ tb'.dut.dut_trace)
        × (length tb'.dut.dut_trace ≤ length tb.dut.dut_trace)
        × ((tb'.sim_finished, tb'.sim_passed)
            ≡ verdict tb.pass_address tb.fail_address tb.sim_passed seen)
        × ((tb'.sim_finished ≡ true) ⊎ (tb.max_sim_time ≤ tb'.dut.sim_time))
  run_loop-verdict fuel tb going small before enough =
      let (tb', ends, why, limit) = run_loop_ends lib core fuel tb small before enough in
      let (n, seen, j) = run_loop-Judged fuel tb tb' ends small in
      (
        tb',
        n,
        seen,
        ends,
        j.time,
        j.order,
        j.backlog,
        j.result
            ∙ ap
                (λ f.
                  if f
                  then (true, tb.sim_passed)
                  else verdict tb.pass_address tb.fail_address tb.sim_passed seen)
                going,
        why,
      )
