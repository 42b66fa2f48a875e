-- ===== src/Tests/Files.antt =====
-- The theorems on files and on the memory they are loaded to, at concrete values.
use scarv_cpu.Base.{ℕ, ◌+◌, ◌*◌, ◌<◌, ◌≡◌, ◌↔◌, refl, Bool, true, List, [], ◌∷◌, some, arith}
use scarv_cpu.OrdMap.{OrdMap, find, value}
use scarv_cpu.Device.Range.{in_range, in_range_span}
use scarv_cpu.Device.Ram.{peek}
use scarv_cpu.Device.{ram, range}
use scarv_cpu.Bus.{Bus}
use scarv_cpu.Bus.Bytes.{peek_at}
use scarv_cpu.Srec.{record_size, dump_readmemh}
use scarv_cpu.Srec.Parse.{hex_digit, record_size-hex_digit_iff}
use scarv_cpu.Srec.Readmemh.{load, load-dump_readmemh}
use scarv_cpu.Loader.{load_srec_file}
use scarv_cpu.Loader.Program.{load_srec_file-file_text}
use scarv_cpu.Srec.Files.{Record, blank, other, bytes_at, file_text, byte_at, line}
use scarv_cpu.Loader.Loaded.{byte_or}
use scarv_cpu.Signature.{dump_signature, verif_signature}
use scarv_cpu.Signature.RoundTrip.{AgreeIn, verif_signature-dump_signature}
use scarv_cpu.Tests.{small_ram, small_bus}

record_size-hex_digit_iff_example :
    (record_size (hex_digit 0) (hex_digit 9) ≡ 16 * 0 + 9) ↔ ((0 < 10) × (9 < 10))
record_size-hex_digit_iff_example = record_size-hex_digit_iff 0 9 (omega arith) (omega arith)

-- Two entries next to each other and one apart.
abbrev three_bytes : OrdMap
three_bytes = (4096, 1) ∷ (4097, 2) ∷ (4100, 3) ∷ []

load-dump_readmemh_example :
    ((dump_readmemh true 4 three_bytes).0 ≡ true)
    × (load 0 [] (dump_readmemh true 4 three_bytes).1 ≡ three_bytes)
    × (dump_readmemh true 1 three_bytes ≡ dump_readmemh true 4 three_bytes)
load-dump_readmemh_example = load-dump_readmemh three_bytes true 4 1 (
  (λ e. absurd (omega (arith, e))),
  omega arith,
  (omega arith, omega arith, (omega arith, omega arith, tt)),
)

-- A memory that holds one byte that is not zero.
abbrev other_bus : Bus
other_bus = record {
  devices = ram (record small_ram { memory = (4097, 171) ∷ [] }) ∷ [];
  next_id = 0;
}

-- A header, a line that is empty, and two records that share an address.
abbrev small_file : List Record
small_file =
    other 83 48 48 51 (48 ∷ [])
    ∷ blank
    ∷ bytes_at 4096 (1 ∷ 2 ∷ []) (55 ∷ 55 ∷ [])
    ∷ bytes_at 4097 (9 ∷ []) []
    ∷ []

load_srec_file-file_text_example :
    (bus' : Bus) × (load_srec_file small_bus (some (file_text small_file)) ≡ some bus')
    × ((x : ℕ) → peek_at bus' x ≡ byte_or (byte_at small_file x) (peek_at small_bus x))
unfolding in_range in_range_span range line
load_srec_file-file_text_example =
    load_srec_file-file_text small_bus small_file
      (
        refl,
        refl,
        (
          refl,
          tt,
          (
            refl,
            (omega arith, (omega arith, (omega arith, tt)), (omega arith, omega arith)),
            (refl, (omega arith, (omega arith, tt), (omega arith, omega arith)), tt),
          ),
        ),
      )
      ((refl, refl, (refl, refl, tt)), ((refl, refl, tt), tt))

verif_signature-dump_signature_example :
    (text : List ℕ) × (ref' : Bus) × (passed : Bool) × (dut' : Bus) × (dump_signature 2 4096 4100
        other_bus
      ≡ some (text, ref'))
    × (verif_signature 2 4096 4100 text small_bus true ≡ some (passed, dut'))
    × ((passed ≡ true) ↔ AgreeIn small_bus other_bus 1 4096)
unfolding in_range range peek value find
verif_signature-dump_signature_example =
    verif_signature-dump_signature 1 2 4096 4100 other_bus small_bus (omega arith)
      (omega arith, omega arith) (omega arith)
      (record { at0 = refl; at1 = refl; at2 = refl; at3 = refl }, tt)
      (record { at0 = refl; at1 = refl; at2 = refl; at3 = refl }, tt)
      (omega arith, omega arith, omega arith, omega arith, tt)
