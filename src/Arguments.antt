-- ===== src/Arguments.antt =====
-- `process_arguments` of flow/verilator/main.cpp, with the globals that it sets.
pub mod Number
pub mod Written
pub mod Meaning
use scarv_cpu.Base.{
  ℕ, ◌*◌, ◌^◌, ◌%◌, Bool, true, false, ◌||◌, List, [], ◌∷◌, Option, none, some, u32, u64,
  if◌then◌else◌, Text, codes, contains, substr, eq_text, is_empty,
}
use scarv_cpu.Arguments.Number.{stoul, stoul_any}

-- The globals. A file path is its bytes.
pub record Settings : Type 0 where
  pub pass_address : ℕ
  pub fail_address : ℕ
  pub quiet : Bool
  pub dump_waves : Bool
  pub vcd_wavefile_path : Text
  pub dump_signature : Bool
  pub sig_dump_path : Text
  pub sig_start : ℕ
  pub sig_end : ℕ
  pub reg_addr : ℕ
  pub verif_signature : Bool
  pub sig_verif_path : Text
  pub max_sim_time : ℕ
  pub load_srec : Bool
  pub srec_path : Text
  pub max_stall_imem : ℕ
  pub max_stall_dmem : ℕ

unfoldable pub defaults : Settings
defaults = record {
  pass_address = 0;
  fail_address = 0xFFFF_FFFF;
  quiet = false;
  dump_waves = false;
  vcd_wavefile_path = codes "waves.vcd";
  dump_signature = false;
  sig_dump_path = codes "signature.sig";
  sig_start = 0;
  sig_end = 0;
  reg_addr = 0;
  verif_signature = false;
  sig_verif_path = [];
  max_sim_time = 10000;
  load_srec = false;
  srec_path = [];
  max_stall_imem = 5;
  max_stall_dmem = 5;
}

-- An exception that nothing catches ends the program, and so does the help text, with status 0.
pub data Outcome {ℓ} (A : Type ℓ) : Type ℓ where
  ok : A → Outcome A
  threw : Outcome A
  helped : Outcome A

abbrev pub bind {ℓ κ} : {A : Type ℓ} {B : Type κ} → Outcome A → (A → Outcome B) → Outcome B
bind (ok a) f = f a
bind threw f = threw
bind helped f = helped

abbrev or_threw {ℓ κ} : {A : Type ℓ} {B : Type κ} → Option A → (A → B) → Outcome B
or_threw none f = threw
or_threw (some a) f = ok (f a)

-- `s.substr(n)` with a number read from it.
abbrev with_number : (Text → Option ℕ) → Text → ℕ → (ℕ → Settings) → Outcome Settings
with_number read s n f = elim (substr s n) [ none ↦ threw | some t ↦ or_threw (read t) f ]

-- The body of the loop.
unfoldable pub process_argument : Settings → Text → Outcome Settings
process_argument g s =
    if contains (codes "+IMEM=") s
    then or_threw (substr s 6) (λ p. record g { srec_path = p; load_srec = true })
    else if contains (codes "+WAVES=") s
    then or_threw (substr s 7) (λ p. record g {
      vcd_wavefile_path = p;
      dump_waves = if is_empty p then g.dump_waves else true;
    })
    else if contains (codes "+TIMEOUT=") s
    then with_number stoul s 9 (λ n. record g { max_sim_time = u64 (n * 10) })
    else if contains (codes "+IMEM_MAX_STALL=") s
    then with_number stoul s 16 (λ n. record g { max_stall_imem = u32 n })
    else if contains (codes "+DMEM_MAX_STALL=") s
    then with_number stoul s 16 (λ n. record g { max_stall_dmem = u32 n })
    else if contains (codes "+PASS_ADDR=") s
    then with_number stoul_any s 11 (λ n. record g { pass_address = u32 n })
    else if contains (codes "+FAIL_ADDR=") s
    then with_number stoul_any s 11 (λ n. record g { fail_address = u32 n })
    else if contains (codes "+SIG_START=") s
    then with_number stoul_any s 11 (λ n. record g { sig_start = u32 n })
    else if contains (codes "+SIG_END=") s
    then with_number stoul_any s 9 (λ n. record g { sig_end = u32 n })
    else if contains (codes "+REG_ADDR=") s
    then with_number stoul_any s 10 (λ n. record g { reg_addr = u32 n })
    else if contains (codes "+SIG_PATH=") s
    then or_threw (substr s 10) (λ p. record g {
      sig_dump_path = p;
      dump_signature = if is_empty p then g.dump_signature else true;
    })
    else if contains (codes "+SIG_VERIF=") s
    then or_threw (substr s 11) (λ p. record g {
      sig_verif_path = p;
      verif_signature = if is_empty p then g.verif_signature else true;
    })
    else if eq_text s (codes "+q")
    then ok (record g { quiet = true })
    else if eq_text s (codes "--help") || eq_text s (codes "-h")
    then helped
    else ok g

unfoldable pub process_arguments : Settings → List Text → Outcome Settings
process_arguments g [] = ok g
process_arguments g (s ∷ args) = bind (process_argument g s) λ g'. process_arguments g' args
