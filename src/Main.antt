-- ===== src/Main.antt =====
-- `main` of flow/verilator/main.cpp: the simulator from its arguments to its exit status.
pub mod Exits
pub mod Sound
use scarv_cpu.CRandom.{CRandom}
use scarv_cpu.Bus.{Bus}
use scarv_cpu.DutWrapper.{Core, Unset, set_imem_max_stall, set_dmem_max_stall}
use scarv_cpu.Testbench.{Testbench, new_testbench, run_simulation}
use scarv_cpu.Loader.{load_srec_file}
use scarv_cpu.Signature.{dump_signature, verif_signature}
use scarv_cpu.Arguments.{Settings, defaults, ok, threw, helped, process_arguments}
use scarv_cpu.Base.{
  List, Text, eq_text, [], ℕ, ◌≤◌, ◌<◌, ◌≡◌, ◌≢◌, ◌↔◌, Bool, true, false, not, ◌&&◌, arith, leb,
  if◌then◌else◌, Option, none, some,
}

-- `tb.sim_passed &= verif_result` where a signature is checked, and the chain of tests behind it.
-- `verif` is the result of `verif_signature_file`, or `none` where no signature is checked.
unfoldable pub exit_status : ℕ → ℕ → Bool → Option Bool → ℕ
exit_status sim_time max_sim_time sim_passed verif =
    let verif_result : Bool = elim verif [ none ↦ true | some result ↦ result ] in
    let passed : Bool = elim verif [ none ↦ sim_passed | some result ↦ sim_passed && result ] in
    if leb max_sim_time sim_time then 1 else if passed then 0 else if not verif_result then 3 else 2

-- What the exit status says of the time, its limit, the result of the test and the check of the
-- signature.
abbrev pub Says : ℕ → ℕ → ℕ → Bool → Option Bool → Type 0
Says status sim_time max_sim_time passed verif =
    ((status ≡ 0) ↔ ((sim_time < max_sim_time) × (passed ≡ true) × (verif ≢ some false)))
    × ((status ≡ 1) ↔ (max_sim_time ≤ sim_time))
    × ((status ≡ 2) ↔ ((sim_time < max_sim_time) × (passed ≡ false) × (verif ≢ some false)))
    × ((status ≡ 3) ↔ ((sim_time < max_sim_time) × (verif ≡ some false)))

-- The exit status is 1 exactly when the time is up. Where it is not, it is 3 exactly when a signature
-- that is checked disagrees, and where none disagrees, 0 or 2 as the test has passed or not.
pub exit_status-Says :
    (sim_time max_sim_time : ℕ) (passed : Bool) (verif : Option Bool)
    → Says (exit_status sim_time max_sim_time passed verif) sim_time max_sim_time passed verif
unfolding exit_status
exit_status-Says sim_time max_sim_time passed none = (
  (ground arith, ground arith),
  (ground arith, ground arith),
  (ground arith, ground arith),
  (ground arith, ground arith),
)
exit_status-Says sim_time max_sim_time passed (some result) = (
  (ground arith, ground arith),
  (ground arith, ground arith),
  (ground arith, ground arith),
  (ground arith, ground arith),
)

-- The files, by path.
abbrev pub Files : Type 0
Files = Text → Option Text

abbrev pub write_file : Files → Text → Text → Files
write_file files path text p = if eq_text p path then some text else files p

-- How the program ends: it returns a status, an exception ends it, or it does what C++ does not
-- define. `out_of_fuel` has no counterpart in the program.
pub data Exit : Type 0 where
  exited : ℕ → Exit
  terminated : Exit
  undefined : Exit
  out_of_fuel : Exit

module _ (lib : CRandom) (core : Core) where
  -- The signature is checked, if that is asked for. A file that cannot be opened is read all the
  -- same.
  unfoldable pub verify : ℕ → Settings → Files → Testbench lib core → Exit
  verify fuel g files tb =
      let status = exit_status tb.dut.sim_time g.max_sim_time tb.sim_passed in
      elim g.verif_signature [
        | false ↦ exited (status none)
        | true ↦ elim (files g.sig_verif_path) [
          | none ↦ undefined
          | some text ↦ elim (verif_signature fuel g.sig_start g.sig_end text tb.dut.mem true) [
            | none ↦ out_of_fuel
            | some (result, mem) ↦ exited (status (some result))
          ]
        ]
      ]

  -- The signature is dumped, if that is asked for, and then checked.
  unfoldable pub finish : ℕ → Settings → Files → Testbench lib core → Exit × Files
  finish fuel g files tb = elim g.dump_signature [
    | false ↦ (verify fuel g files tb, files)
    | true ↦ elim (dump_signature fuel g.sig_start g.sig_end tb.dut.mem) [
      | none ↦ (out_of_fuel, files)
      | some (text, mem) ↦
          let files' = write_file files g.sig_dump_path text in
          let d = tb.dut in
          (verify fuel g files' (record tb { dut = record d { mem = mem } }), files')
    ]
  ]

  -- The testbench that `main` runs, on a memory that may have been loaded.
  unfoldable pub configure : Settings → Testbench lib core → Bus → Testbench lib core
  configure g tb mem =
      let d = tb.dut in
      let imem_set = set_imem_max_stall lib core g.max_stall_imem (record d { mem = mem }) in
      record tb {
        dut = set_dmem_max_stall lib core g.max_stall_dmem imem_set;
        pass_address = g.pass_address;
        fail_address = g.fail_address;
        max_sim_time = g.max_sim_time;
      }

  unfoldable pub simulate : ℕ → Settings → Files → Testbench lib core → Exit × Files
  simulate fuel g files tb =
      let loaded : Option Bus =
        if g.load_srec then load_srec_file tb.dut.mem (files g.srec_path) else some tb.dut.mem in
      elim loaded [
        | none ↦ (undefined, files)
        | some mem ↦ elim (run_simulation lib core fuel (configure g tb mem)) [
          | none ↦ (out_of_fuel, files)
          | some tb' ↦ finish fuel g files tb'
        ]
      ]

  -- `main`, with what the constructors leave unset: the registers of the UART and `u`.
  unfoldable pub main :
      ℕ → ℕ → ℕ → ℕ → ℕ → ℕ → Unset core → lib.State → Files → List Text → Exit × Files
  main fuel next_id tx rx ctrl status u random files args = elim (process_arguments defaults args) [
    | ok g ↦ simulate fuel g files (new_testbench lib core next_id tx rx ctrl status u random)
    | threw ↦ (terminated, files)
    | helped ↦ (exited 0, files)
  ]
