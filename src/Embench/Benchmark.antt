-- ===== src/Embench/Benchmark.antt =====
-- `main` of flow/embench/main.c: a benchmark between its messages.
use scarv_cpu.Base.{
  ◌∙◌, ap₂, [], ◌∷◌, ℕ, ◌+◌, ◌-◌, ◌%◌, ◌^◌, ◌≡◌, ap, sym, subst, ◌≢◌, ◌↔◌, refl, true, List, ◌++◌,
  ◌==◌, if◌then◌else◌, Text, codes, lacks, ◌<◌, arith,
}
use scarv_cpu.Embench.{putstr, putchar}
use scarv_cpu.Arguments.Written
use scarv_cpu.Arguments.Written.{Digits, IsNumber, value, written}
use scarv_cpu.Embench.Console.{putstr_whole}

-- What the program is linked with: the benchmark, the counters of the core, and the text that
-- `sprintf` writes with "%lu" for a number of 32 bits, which is what an unsigned long is on the core.
pub record Board : Type 1 where
  pub State : Type 0
  pub initialise_benchmark : State → State
  pub benchmark : State → ℕ × State
  pub verify_benchmark : ℕ → State → ℕ × State
  pub rdinstret : State → ℕ × State
  pub rdcycle : State → ℕ × State
  pub decimal : ℕ → Text

lacks_zero-written : (ds : List ℕ) → lacks 0 (written ds) ≡ true
lacks_zero-written [] = refl
lacks_zero-written (d ∷ ds) = ground (arith, lacks_zero-written ds)

module _ (board : Board) where
  open board use {
    State, initialise_benchmark, benchmark, verify_benchmark, rdinstret, rdcycle, decimal,
  }

  -- A line with a count. "%lu" takes the low half of a count of 64 bits.
  count_line : Text → ℕ → List ℕ
  count_line name count = putstr name ++ putstr (decimal (count % 2 ^ 32)) ++ putchar 10

  -- The part between the two reads of the counters: the result, and the counts.
  measure : State → ℕ × ℕ × ℕ × State
  measure s0 =
      let (i_start, s1) = rdinstret s0 in
      let (c_start, s2) = rdcycle s1 in
      let (result, s3) = benchmark s2 in
      let (i_end, s4) = rdinstret s3 in
      let (c_end, s5) = rdcycle s4 in
      (result, (i_end + (2 ^ 64 - i_start)) % 2 ^ 64, (c_end + (2 ^ 64 - c_start)) % 2 ^ 64, s5)

  -- The messages around the benchmark and its verification, from what was measured.
  conclude : ℕ × ℕ × ℕ × State → ℕ × List ℕ × State
  unfolding count_line
  conclude (result, count_instrs, count_cycles, s1) =
      let (correct, s2) = verify_benchmark result s1 in
      (
        if correct == 0 then 1 else 0,
        putstr (codes "Initialise Bechmark...\n")
            ++ putstr (codes "Run Bechmark...\n")
            ++ count_line (codes "Cycles: ") count_cycles
            ++ count_line (codes "Instrs: ") count_instrs
            ++ putstr (codes "Verify Bechmark...\n")
            ++ putstr (codes "--- Finished --- \n"),
        s2,
      )

  -- The exit status, what is stored to the console, and the state.
  unfoldable pub run_benchmark : State → ℕ × List ℕ × State
  unfolding measure conclude
  run_benchmark s = conclude (measure (initialise_benchmark s))

  -- What the console shows in the end.
  abbrev pub report : Text → Text → Text
  report cycles instrs =
      codes "Initialise Bechmark...\n"
      ++ codes "Run Bechmark...\n"
      ++ (codes "Cycles: " ++ cycles ++ codes "\n")
      ++ (codes "Instrs: " ++ instrs ++ codes "\n")
      ++ codes "Verify Bechmark...\n"
      ++ codes "--- Finished --- \n"

  -- A text is a number in decimal digits.
  record Reads (n : ℕ) (text : Text) : Type 0 where
    digits : Digits
    is_number : IsNumber 10 digits
    number : value 10 digits ≡ n
    same : text ≡ Written.decimal digits

  count_line-whole :
      (name : Text) (count : ℕ)
      → lacks 0 name ≡ true
      → Reads (count % 2 ^ 32) (decimal (count % 2 ^ 32))
      → count_line name count ≡ name ++ decimal (count % 2 ^ 32) ++ codes "\n"
  unfolding count_line
  count_line-whole name count n d =
      let text = decimal (count % 2 ^ 32) in
      let zero : lacks 0 text ≡ true =
        ap (lacks 0) d.same ∙ lacks_zero-written (d.digits.first ∷ d.digits.rest) in
      rw (putstr_whole name n, putstr_whole text zero) refl

  -- The counts between two readings of a counter of 64 bits.
  elapsed :
      (start n : ℕ)
      → start < 2 ^ 64
      → n < 2 ^ 64
      → ((start + n) % 2 ^ 64 + (2 ^ 64 - start)) % 2 ^ 64 ≡ n
  elapsed start n h k = omega arith

  -- The readings of the two counters of 64 bits around the benchmark, and what it gives: the
  -- instructions and cycles that pass are below 2 ^ 64, and a counter may wrap once.
  pub record Runs (s : State) (result instrs cycles : ℕ) (s' : State) : Type 0 where
    pub i_start : ℕ
    pub c_start : ℕ
    pub s1 : State
    pub s2 : State
    pub s3 : State
    pub s4 : State
    pub reads_i : rdinstret (initialise_benchmark s) ≡ (i_start, s1)
    pub reads_c : rdcycle s1 ≡ (c_start, s2)
    pub runs : benchmark s2 ≡ (result, s3)
    pub rereads_i : rdinstret s3 ≡ ((i_start + instrs) % 2 ^ 64, s4)
    pub rereads_c : rdcycle s4 ≡ ((c_start + cycles) % 2 ^ 64, s')
    pub i_fits : i_start < 2 ^ 64
    pub c_fits : c_start < 2 ^ 64
    pub instrs_fit : instrs < 2 ^ 64
    pub cycles_fit : cycles < 2 ^ 64

  measure-Runs :
      (s s' : State) (result instrs cycles : ℕ)
      → Runs s result instrs cycles s'
      → measure (initialise_benchmark s) ≡ (result, instrs, cycles, s')
  unfolding measure
  measure-Runs s s' result instrs cycles v =
      rw (v.reads_i, measure)
        (rw (v.reads_c) (
          rw (v.runs) (
            rw (v.rereads_i) (
              rw (v.rereads_c) (
                rw
                  (
                    elapsed v.i_start instrs v.i_fits v.instrs_fit,
                    elapsed v.c_start cycles v.c_fits v.cycles_fit,
                  )
                  refl)))))

  conclude-report :
      (result instrs cycles : ℕ) (s' : State)
      → Reads (cycles % 2 ^ 32) (decimal (cycles % 2 ^ 32))
      → Reads (instrs % 2 ^ 32) (decimal (instrs % 2 ^ 32))
      → let (status, console, s'') = conclude (result, instrs, cycles, s') in
        (console ≡ report (decimal (cycles % 2 ^ 32)) (decimal (instrs % 2 ^ 32)))
        × ((status ≡ 0) ↔ ((verify_benchmark result s').0 ≢ 0))
  unfolding conclude
  conclude-report result instrs cycles s' c i =
      let one = count_line-whole (codes "Cycles: ") cycles refl c in
      let two = count_line-whole (codes "Instrs: ") instrs refl i in
      let initialise = putstr_whole (codes "Initialise Bechmark...\n") refl in
      let runs = putstr_whole (codes "Run Bechmark...\n") refl in
      let verify = putstr_whole (codes "Verify Bechmark...\n") refl in
      let finished = putstr_whole (codes "--- Finished --- \n") refl in
      (rw (initialise, runs, one, two, verify, finished) refl, ground arith)

  -- Where `sprintf` writes a number of 32 bits in decimal digits: the console shows the messages in
  -- order, with two numbers in decimal digits, which are the low 32 bits of the cycles and of the
  -- instructions that passed while the benchmark ran, also where a counter wraps; and the exit status
  -- is 0 exactly when the result of the benchmark is verified.
  pub run_benchmark-report :
      (s s' : State) (result instrs cycles : ℕ)
      → ((n : ℕ)
          → n < 2 ^ 32
          → (d : Digits) × IsNumber 10 d × (value 10 d ≡ n) × (decimal n ≡ Written.decimal d))
      → Runs s result instrs cycles s'
      → let (status, console, s'') = run_benchmark s in
        (c : Digits) × (i : Digits) × IsNumber 10 c
        × IsNumber 10 i
        × (value 10 c ≡ cycles % 2 ^ 32)
        × (value 10 i ≡ instrs % 2 ^ 32)
        × (console ≡ report (Written.decimal c) (Written.decimal i))
        × ((status ≡ 0) ↔ ((verify_benchmark result s').0 ≢ 0))
  unfolding run_benchmark
  run_benchmark-report s s' result instrs cycles text v =
      let same : run_benchmark s ≡ conclude (result, instrs, cycles, s') =
        ap conclude (measure-Runs s s' result instrs cycles v) in
      let (c, c_ok, c_value, c_text) = text (cycles % 2 ^ 32) (omega arith) in
      let (i, i_ok, i_value, i_text) = text (instrs % 2 ^ 32) (omega arith) in
      let (shows, exits) =
        conclude-report result instrs cycles s'
          record { digits = c; is_number = c_ok; number = c_value; same = c_text }
          record { digits = i; is_number = i_ok; number = i_value; same = i_text } in
      (
        c,
        i,
        c_ok,
        i_ok,
        c_value,
        i_value,
        ap (λ r. r.1) same ∙ shows ∙ ap₂ report c_text i_text,
        subst (λ r. (r.0 ≡ 0) ↔ ((verify_benchmark result s').0 ≢ 0)) (sym same) exits,
      )
