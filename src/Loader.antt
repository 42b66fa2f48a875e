-- ===== src/Loader.antt =====
-- `load_srec_file` of flow/verilator/main.cpp: the contents of an S-record file written to the bus,
-- byte by byte, in the order of their addresses. The result of `write_byte` is not used.
pub mod Loaded
pub mod Program
use scarv_cpu.Base.{ℕ, List, [], ◌∷◌, Option, none, some}
use scarv_cpu.OrdMap.{OrdMap}
use scarv_cpu.Bus.{Bus}
use scarv_cpu.Bus
use scarv_cpu.Srec.{srec_file}

unfoldable pub write_entries : Bus → OrdMap → Bus
write_entries bus [] = bus
write_entries bus ((k, v) ∷ m) = write_entries (Bus.write_byte bus k v).1 m

unfoldable pub load_srec_file : Bus → Option (List ℕ) → Option Bus
load_srec_file bus file = elim (srec_file file) [
  | none ↦ none
  | some m ↦ some (write_entries bus m)
]
