-- ===== src/Arguments/Meaning.antt =====
-- What well-formed arguments mean.
use scarv_cpu.Base.{
  ◌*◌, ◌≡◌, refl, true, not, ◌||◌, List, [], ◌∷◌, ◌++◌, map, u32, u64, Text, codes, is_empty, lacks,
  arith,
}
use scarv_cpu.Arguments.{Settings, ok, process_argument, process_arguments}
use scarv_cpu.Arguments.Written.{
  Digits, value, IsNumber, decimal, hexadecimal, stoul-decimal, stoul_any-hexadecimal,
  lacks-NoNames, decimal-NoNames, hexadecimal-NoNames,
}

pub data Argument : Type 0 where
  imem waves sig_path sig_verif : Text → Argument
  timeout imem_max_stall dmem_max_stall : Digits → Argument
  pass_addr fail_addr sig_start sig_end reg_addr : Digits → Argument
  quiet : Argument

unfoldable pub text : Argument → Text
text (imem p) = codes "+IMEM=" ++ p
text (waves p) = codes "+WAVES=" ++ p
text (sig_path p) = codes "+SIG_PATH=" ++ p
text (sig_verif p) = codes "+SIG_VERIF=" ++ p
text (timeout d) = codes "+TIMEOUT=" ++ decimal d
text (imem_max_stall d) = codes "+IMEM_MAX_STALL=" ++ decimal d
text (dmem_max_stall d) = codes "+DMEM_MAX_STALL=" ++ decimal d
text (pass_addr d) = codes "+PASS_ADDR=" ++ hexadecimal d
text (fail_addr d) = codes "+FAIL_ADDR=" ++ hexadecimal d
text (sig_start d) = codes "+SIG_START=" ++ hexadecimal d
text (sig_end d) = codes "+SIG_END=" ++ hexadecimal d
text (reg_addr d) = codes "+REG_ADDR=" ++ hexadecimal d
text quiet = codes "+q"

-- The setting that an argument asks for.
unfoldable pub apply : Settings → Argument → Settings
apply g (imem p) = record g { srec_path = p; load_srec = true }
apply g (waves p) = record g {
  vcd_wavefile_path = p;
  dump_waves = g.dump_waves || not (is_empty p);
}
apply g (sig_path p) = record g {
  sig_dump_path = p;
  dump_signature = g.dump_signature || not (is_empty p);
}
apply g (sig_verif p) = record g {
  sig_verif_path = p;
  verif_signature = g.verif_signature || not (is_empty p);
}
apply g (timeout d) = record g { max_sim_time = u64 (value 10 d * 10) }
apply g (imem_max_stall d) = record g { max_stall_imem = u32 (value 10 d) }
apply g (dmem_max_stall d) = record g { max_stall_dmem = u32 (value 10 d) }
apply g (pass_addr d) = record g { pass_address = u32 (value 16 d) }
apply g (fail_addr d) = record g { fail_address = u32 (value 16 d) }
apply g (sig_start d) = record g { sig_start = u32 (value 16 d) }
apply g (sig_end d) = record g { sig_end = u32 (value 16 d) }
apply g (reg_addr d) = record g { reg_addr = u32 (value 16 d) }
apply g quiet = record g { quiet = true }

-- A path has no plus sign, and a number is one.
abbrev pub IsPlain : Argument → Type 0
IsPlain (imem p) = lacks b'+' p ≡ true
IsPlain (waves p) = lacks b'+' p ≡ true
IsPlain (sig_path p) = lacks b'+' p ≡ true
IsPlain (sig_verif p) = lacks b'+' p ≡ true
IsPlain (timeout d) = IsNumber 10 d
IsPlain (imem_max_stall d) = IsNumber 10 d
IsPlain (dmem_max_stall d) = IsNumber 10 d
IsPlain (pass_addr d) = IsNumber 16 d
IsPlain (fail_addr d) = IsNumber 16 d
IsPlain (sig_start d) = IsNumber 16 d
IsPlain (sig_end d) = IsNumber 16 d
IsPlain (reg_addr d) = IsNumber 16 d
IsPlain quiet = Unit {0}

process_argument-text :
    (g : Settings) (a : Argument) → IsPlain a → process_argument g (text a) ≡ ok (apply g a)
unfolding process_argument text apply
process_argument-text g (imem p) v = refl
process_argument-text g (waves p) v = ground (arith, lacks-NoNames p v)
process_argument-text g (sig_path p) v = ground (arith, lacks-NoNames p v)
process_argument-text g (sig_verif p) v = ground (arith, lacks-NoNames p v)
process_argument-text g (timeout d) v =
    let n = decimal-NoNames d v in simp (n.imem, n.waves, stoul-decimal d v)
process_argument-text g (imem_max_stall d) v =
    let n = decimal-NoNames d v in simp (n.imem, n.waves, n.timeout, stoul-decimal d v)
process_argument-text g (dmem_max_stall d) v =
    let n = decimal-NoNames d v in
    simp (n.imem, n.waves, n.timeout, n.imem_stall, stoul-decimal d v)
process_argument-text g (pass_addr d) v =
    let n = hexadecimal-NoNames d v in
    simp (n.imem, n.waves, n.timeout, n.imem_stall, n.dmem_stall, stoul_any-hexadecimal d v)
process_argument-text g (fail_addr d) v =
    let n = hexadecimal-NoNames d v in
    simp (n.imem, n.waves, n.timeout, n.imem_stall, n.dmem_stall, n.pass, stoul_any-hexadecimal d v)
process_argument-text g (sig_start d) v =
    let n = hexadecimal-NoNames d v in
    simp (
      n.imem,
      n.waves,
      n.timeout,
      n.imem_stall,
      n.dmem_stall,
      n.pass,
      n.fail,
      stoul_any-hexadecimal d v,
    )
process_argument-text g (sig_end d) v =
    let n = hexadecimal-NoNames d v in
    simp (
      n.imem,
      n.waves,
      n.timeout,
      n.imem_stall,
      n.dmem_stall,
      n.pass,
      n.fail,
      n.start,
      stoul_any-hexadecimal d v,
    )
process_argument-text g (reg_addr d) v =
    let n = hexadecimal-NoNames d v in
    simp (
      n.imem,
      n.waves,
      n.timeout,
      n.imem_stall,
      n.dmem_stall,
      n.pass,
      n.fail,
      n.start,
      n.end,
      stoul_any-hexadecimal d v,
    )
process_argument-text g quiet v = refl

unfoldable pub apply_all : Settings → List Argument → Settings
apply_all g [] = g
apply_all g (a ∷ args) = apply_all (apply g a) args

abbrev pub AllPlain : List Argument → Type 0
AllPlain [] = Unit {0}
AllPlain (a ∷ args) = IsPlain a × AllPlain args

-- Arguments that are written out, each path without a plus sign and each number with the digits of
-- its base and below 2 ^ 64, are all read, without an exception; and the settings are those that the
-- arguments ask for, one after another.
pub process_arguments-text :
    (args : List Argument) (g : Settings)
    → AllPlain args
    → process_arguments g (map text args) ≡ ok (apply_all g args)
unfolding process_arguments apply_all
process_arguments-text [] g v = refl
process_arguments-text (a ∷ args) g v =
    rw (process_argument-text g a v.0) (process_arguments-text args (apply g a) v.1)
