-- ===== src/Main/Exits.antt =====
-- The simulator ends with an exit status.
use scarv_cpu.Base.{
  ℕ, ap, ◌+◌, ◌*◌, ◌^◌, ◌≤◌, ◌<◌, ◌≡◌, refl, ◌∙◌, Bool, true, false, not, ◌||◌, List, ◌++◌, length,
  ◌⊎◌, ap₂, Option, none, some, if◌then◌else◌, Bool-cases, Option-cases, eq_text, inl, inr, Text,
  arith,
}
use scarv_cpu.CRandom.{CRandom}
use scarv_cpu.Bus.{Bus}
use scarv_cpu.DutWrapper.{
  Core, Unset, TracePacket, new_wrapper, set_imem_max_stall, set_dmem_max_stall, dut_set_reset,
  dut_clear_reset,
}
use scarv_cpu.Testbench.{Testbench, build_bus, new_testbench, run_simulation}
use scarv_cpu.Testbench.Run.{reset_steps_time}
use scarv_cpu.Testbench.Verdict.{verdict, packets, behind_reset, run_loop-verdict}
use scarv_cpu.Loader.{load_srec_file}
use scarv_cpu.Signature.{dump_signature, verif_signature}
use scarv_cpu.Signature.Ends.{IsEnough, dump_signature_ends, verif_signature_ends}
use scarv_cpu.Arguments.{Settings, defaults, ok, process_arguments}
use scarv_cpu.Main.{
  exit_status, Says, exit_status-Says, Files, write_file, exited, verify, finish, configure,
  simulate, main,
}

abbrev pub is_there : Option Text → Bool
is_there none = false
is_there (some text) = true

-- The file that the signature is checked against is there, if it is asked for.
abbrev pub HasReference : Settings → Files → Type 0
HasReference g files = (not g.verif_signature || is_there (files g.sig_verif_path)) ≡ true

-- What the simulator needs to run to its end: a program, if one is to be loaded, that the parser
-- reads; the file that the signature is checked against; times that do not wrap, with a limit behind
-- the reset; a signature that ends 4 or more below 2 ^ 32; and fuel for the loops.
pub record CanRun (fuel : ℕ) (g : Settings) (files : Files) (bus mem : Bus) : Type 0 where
  pub loads : (if g.load_srec then load_srec_file bus (files g.srec_path) else some bus) ≡ some mem
  pub reference : HasReference g files
  pub small : g.max_sim_time + 10 < 2 ^ 64
  pub behind : 40 < g.max_sim_time
  pub fuel_steps : g.max_sim_time + 10 ≤ 50 + 10 * fuel
  pub fuel_words : IsEnough fuel g.sig_start g.sig_end

-- The signature is dumped if that is asked for: the files and the memory before and after.
pub data Dumps (fuel : ℕ) (g : Settings) (files : Files) (mem : Bus) : Files → Bus → Type 0 where
  not_asked : g.dump_signature ≡ false → Dumps fuel g files mem files mem
  dumped :
      {text : Text} {mem' : Bus}
      → g.dump_signature ≡ true
      → dump_signature fuel g.sig_start g.sig_end mem ≡ some (text, mem')
      → Dumps fuel g files mem (write_file files g.sig_dump_path text) mem'

-- The signature is checked if that is asked for: the verdict on the files and the memory.
pub data Checks (fuel : ℕ) (g : Settings) (files : Files) (mem : Bus) : Option Bool → Type 0 where
  not_asked : g.verif_signature ≡ false → Checks fuel g files mem none
  checked :
      {text : Text} {result : Bool} {mem' : Bus}
      → g.verif_signature ≡ true
      → files g.sig_verif_path ≡ some text
      → verif_signature fuel g.sig_start g.sig_end text mem true ≡ some (result, mem')
      → Checks fuel g files mem (some result)

module _ (lib : CRandom) (core : Core) where
  -- A file that is there is still there once another is written, or the same.
  write_file-HasReference :
      (g : Settings) (files : Files) (path text : Text)
      → HasReference g files
      → HasReference g (write_file files path text)
  write_file-HasReference g files path text h = elim (Bool-cases (eq_text g.sig_verif_path path)) [
    | inl same ↦ rw same (ground arith)
    | inr other ↦ rw other h
  ]

  verify_exits :
      (fuel : ℕ) (g : Settings) (files : Files) (tb : Testbench lib core)
      → HasReference g files
      → IsEnough fuel g.sig_start g.sig_end
      → (verif : Option Bool) × Checks fuel g files tb.dut.mem verif
        × (verify lib core fuel g files tb
            ≡ exited (exit_status tb.dut.sim_time g.max_sim_time tb.sim_passed verif))
  unfolding verify
  verify_exits fuel g files tb there h = elim (Bool-cases g.verif_signature) [
    | inl asked ↦ elim (Option-cases (files g.sig_verif_path)) [
      | inl missing ↦ absurd (ground (arith, there, asked, missing))
      | inr (text, found) ↦
          let (passed, bus', ends) =
            verif_signature_ends fuel g.sig_start g.sig_end text tb.dut.mem true h in
          (
            some passed,
            checked asked found ends,
            rw (asked, verify) (rw (found, verify) (rw (ends, verify) refl)),
          )
    ]
    | inr skip ↦ (none, not_asked skip, rw (skip, verify) refl)
  ]

  finish_dumped :
      (fuel : ℕ) (g : Settings) (files : Files) (tb : Testbench lib core) (text : Text) (mem : Bus)
      → g.dump_signature ≡ true
      → dump_signature fuel g.sig_start g.sig_end tb.dut.mem ≡ some (text, mem)
      → let d = tb.dut in
        let files' = write_file files g.sig_dump_path text in
        finish lib core fuel g files tb
        ≡ (verify lib core fuel g files' (record tb { dut = record d { mem = mem } }), files')
  unfolding finish verify
  finish_dumped fuel g files tb text mem asked ends = rw (asked, finish) (rw (ends, finish) refl)

  finish_undumped :
      (fuel : ℕ) (g : Settings) (files : Files) (tb : Testbench lib core)
      → g.dump_signature ≡ false
      → finish lib core fuel g files tb ≡ (verify lib core fuel g files tb, files)
  unfolding finish verify
  finish_undumped fuel g files tb skip = rw (skip, finish) refl

  finish_exits :
      (fuel : ℕ) (g : Settings) (files : Files) (tb : Testbench lib core)
      → HasReference g files
      → IsEnough fuel g.sig_start g.sig_end
      → (files' : Files) × (mem' : Bus) × (verif : Option Bool) × Dumps fuel g files tb.dut.mem
          files' mem'
        × Checks fuel g files' mem' verif
        × (finish lib core fuel g files tb
            ≡ (exited (exit_status tb.dut.sim_time g.max_sim_time tb.sim_passed verif), files'))
  finish_exits fuel g files tb there h = elim (Bool-cases g.dump_signature) [
    | inl asked ↦
        let (text, mem, ends) = dump_signature_ends fuel g.sig_start g.sig_end tb.dut.mem h in
        let files' = write_file files g.sig_dump_path text in
        let still = write_file-HasReference g files g.sig_dump_path text there in
        let d = tb.dut in
        let (verif, checks, exits) =
          verify_exits fuel g files' (record tb { dut = record d { mem = mem } }) still h in
        (
          files',
          mem,
          verif,
          dumped asked ends,
          checks,
          finish_dumped fuel g files tb text mem asked ends ∙ ap (λ e. (e, files')) exits,
        )
    | inr skip ↦
        let (verif, checks, exits) = verify_exits fuel g files tb there h in
        (
          files,
          tb.dut.mem,
          verif,
          not_asked skip,
          checks,
          finish_undumped fuel g files tb skip ∙ ap (λ e. (e, files)) exits,
        )
  ]

  configured :
      (g : Settings) (tb : Testbench lib core) (mem : Bus)
      → let tb1 = configure lib core g tb mem in
        (tb1.dut.sim_time ≡ tb.dut.sim_time)
        × (tb1.max_sim_time ≡ g.max_sim_time)
        × (tb1.pass_address ≡ g.pass_address)
        × (tb1.fail_address ≡ g.fail_address)
        × (tb1.sim_finished ≡ tb.sim_finished)
        × (tb1.sim_passed ≡ tb.sim_passed)
        × (tb1.dut.mem ≡ mem)
  unfolding configure set_imem_max_stall set_dmem_max_stall
  configured g tb mem = (refl, refl, refl, refl, refl, refl, refl)

  -- A simulation that has ended: the time, the packets of the trace that it has taken, in order and
  -- from the first on, and what they decide.
  pub record Ran (g : Settings) (start tb : Testbench lib core) (n : ℕ) (seen : List TracePacket)
      : Type 0 where
    time : tb.dut.sim_time ≡ 50 + 10 * n
    order : start.dut.dut_trace ++ packets lib core n start ≡ seen ++ tb.dut.dut_trace
    backlog : length tb.dut.dut_trace ≤ length start.dut.dut_trace
    result : (tb.sim_finished, tb.sim_passed) ≡ verdict g.pass_address g.fail_address false seen
    why : (tb.sim_finished ≡ true) ⊎ (g.max_sim_time ≤ tb.dut.sim_time)

  run_simulation-Ran :
      (fuel : ℕ) (g : Settings) (tb : Testbench lib core) (mem : Bus)
      → tb.dut.sim_time ≡ 0
      → tb.sim_finished ≡ false
      → tb.sim_passed ≡ false
      → g.max_sim_time + 10 < 2 ^ 64
      → 40 < g.max_sim_time
      → g.max_sim_time + 10 ≤ 50 + 10 * fuel
      → let tb1 = configure lib core g tb mem in
        (tb' : Testbench lib core) × (n : ℕ) × (seen : List TracePacket) × (run_simulation lib core
            fuel tb1
          ≡ some tb')
        × Ran g (behind_reset lib core tb1) tb' n seen
  unfolding run_simulation dut_set_reset dut_clear_reset
  run_simulation-Ran fuel g tb mem zero_time going failing small behind enough =
      let tb1 = configure lib core g tb mem in
      let (same, limit, pass, fail, finished, passed, _) = configured g tb mem in
      let start = behind_reset lib core tb1 in
      let time : start.dut.sim_time ≡ 50 = omega (
        arith,
        reset_steps_time lib core 5 (dut_set_reset lib core tb1.dut)
            (omega (arith, same, zero_time)),
        same,
        zero_time,
      ) in
      let (tb', n, seen, ends, later, order, backlog, result, why) =
        run_loop-verdict lib core fuel start (finished ∙ going) (omega (arith, limit, small))
          (omega (arith, limit, time, behind)) (omega (arith, limit, time, enough)) in
      (
        tb',
        n,
        seen,
        ends,
        record {
          time = omega (arith, later, time);
          order = order;
          backlog = backlog;
          result =
              result
              ∙ ap₂ (λ p f. verdict p f start.sim_passed seen) pass fail
              ∙ ap (λ b. verdict g.pass_address g.fail_address b seen) (passed ∙ failing);
          why = elim why [ inl x ↦ inl x | inr y ↦ inr (omega (arith, y, limit)) ];
        },
      )

  -- Where the arguments are read, a program that is to be loaded is one that the parser reads, the
  -- file that a signature is to be checked against is there, the time limit lies behind the reset
  -- and more than 10 below 2 ^ 64, the signature ends 4 or more below 2 ^ 32, and the fuel is enough
  -- for the steps up to ten past the limit and for the words of the signature: the simulator ends by
  -- itself, for any core and any random numbers. It starts with the loaded memory. Behind the reset,
  -- it takes the packets of the trace from the first on, in order and none twice, leaves no more than waited there, and the first that
  -- has the pass or the fail address of the settings decides whether the test has passed; it ends when
  -- one has, or when the time is up. Then it dumps the signature from the memory after the run, and
  -- then checks it against the files and the memory after the dump, if they are asked for. It leaves
  -- the files after the dump, and its exit status is 1 exactly when the time is up; where it is not, 3
  -- exactly when a signature that is checked disagrees; and where none disagrees, 0 exactly when the
  -- test has passed, and 2 exactly when it has not.
  pub main_exits :
      (fuel next_id tx rx ctrl status : ℕ) (u : Unset core) (random : lib.State) (files : Files)
      (args : List Text) (g : Settings) (mem : Bus)
      → process_arguments defaults args ≡ ok g
      → CanRun fuel g files (build_bus next_id tx rx ctrl status) mem
      → let tb0 = new_testbench lib core next_id tx rx ctrl status u random in
        let tb1 = configure lib core g tb0 mem in
        (tb : Testbench lib core) × (n : ℕ) × (seen : List TracePacket) × (files' : Files)
        × (mem' : Bus) × (verif : Option Bool) × (exit : ℕ) × (tb1.dut.mem ≡ mem)
        × (run_simulation lib core fuel tb1 ≡ some tb)
        × Ran g (behind_reset lib core tb1) tb n seen
        × Dumps fuel g files tb.dut.mem files' mem'
        × Checks fuel g files' mem' verif
        × Says exit tb.dut.sim_time g.max_sim_time tb.sim_passed verif
        × (main lib core fuel next_id tx rx ctrl status u random files args ≡ (exited exit, files'))
  unfolding main simulate new_testbench new_wrapper
  main_exits fuel next_id tx rx ctrl status u random files args g mem read v =
      let tb0 = new_testbench lib core next_id tx rx ctrl status u random in
      let (tb, n, seen, ends, ran) =
        run_simulation-Ran fuel g tb0 mem refl refl refl v.small v.behind v.fuel_steps in
      let (files', mem', verif, dumps, checks, exits) =
        finish_exits fuel g files tb v.reference v.fuel_words in
      (
        tb,
        n,
        seen,
        files',
        mem',
        verif,
        exit_status tb.dut.sim_time g.max_sim_time tb.sim_passed verif,
        (configured g tb0 mem).6,
        ends,
        ran,
        dumps,
        checks,
        exit_status-Says tb.dut.sim_time g.max_sim_time tb.sim_passed verif,
        rw (read, main) (rw (v.loads, simulate) (rw (ends, simulate) exits)),
      )
