-- ===== src/Srec.antt =====
-- flow/verilator/srec.hpp and srec.cpp: the parser of S-record files, and their dump for $readmemh.
-- A file is its bytes, or `none` if it cannot be opened. `none` as the result of the parser stands
-- for an access outside a line, which C++ does not define.
pub mod Parse
pub mod Readmemh
pub mod Files
use scarv_cpu.Base.{
  ℕ, zero, suc, ◌+◌, ◌-◌, ◌*◌, ◌/◌, ◌%◌, ◌^◌, Bool, true, false, not, List, [], ◌∷◌, ◌++◌, Option,
  none, some, ◌>>=◌, bit_or, leb, ltb, ◌==◌, u64, if◌then◌else◌,
}
use scarv_cpu.OrdMap.{OrdMap, put}

unfoldable pub hctoi : ℕ → ℕ
hctoi hc =
    if leb 97 hc
    then (hc + 256 - 87) % 256
    else if leb 65 hc
    then (hc + 256 - 55) % 256
    else (hc + 256 - 48) % 256

-- `std::getline`, until the end of the file; the first argument is the line read so far.
lines_from : List ℕ → List ℕ → List (List ℕ)
lines_from [] [] = []
lines_from (c ∷ line) [] = (c ∷ line) ∷ []
lines_from line (c ∷ rest) = elim (c == 10) [
  | true ↦ line ∷ lines_from [] rest
  | false ↦ lines_from (line ++ c ∷ []) rest
]

unfoldable pub get_lines : List ℕ → List (List ℕ)
unfolding lines_from
get_lines bytes = lines_from [] bytes

-- `line[i]`: the element behind the last is zero, and there is none further on.
unfoldable pub char_at : List ℕ → ℕ → Option ℕ
char_at [] zero = some 0
char_at [] (suc i) = none
char_at (c ∷ line) zero = some c
char_at (c ∷ line) (suc i) = char_at line i

-- `(line[2] & 0xf) << 4 | (line[3] & 0xf)`
unfoldable pub record_size : ℕ → ℕ → ℕ
record_size c2 c3 = bit_or (c2 % 16 * 2 ^ 4) (c3 % 16)

-- An `int` below 2 ^ 32 that becomes an `unsigned long`: the sign is extended.
sign_extend : ℕ → ℕ
sign_extend x = if ltb x (2 ^ 31) then x else x + (2 ^ 64 - 2 ^ 32)

-- `rec_addr |= (hctoi(c) & 0x0F) << k`
or_digit : ℕ → ℕ → ℕ → ℕ
unfolding sign_extend
or_digit addr c k = bit_or addr (sign_extend (hctoi c % 16 * 2 ^ k))

unfoldable pub record_address : ℕ → ℕ → ℕ → ℕ → ℕ → ℕ → ℕ → ℕ → ℕ
unfolding or_digit
record_address c4 c5 c6 c7 c8 c9 c10 c11 =
    let a28 = or_digit 0 c4 28 in
    let a24 = or_digit a28 c5 24 in
    let a20 = or_digit a24 c6 20 in
    let a16 = or_digit a20 c7 16 in
    let a12 = or_digit a16 c8 12 in
    let a8 = or_digit a12 c9 8 in
    let a4 = or_digit a8 c10 4 in let a0 = or_digit a4 c11 0 in a0 % 2 ^ 32

read_address : List ℕ → Option ℕ
read_address line = do
  c4 ← char_at line 4
  c5 ← char_at line 5
  c6 ← char_at line 6
  c7 ← char_at line 7
  c8 ← char_at line 8
  c9 ← char_at line 9
  c10 ← char_at line 10
  c11 ← char_at line 11
  some (record_address c4 c5 c6 c7 c8 c9 c10 c11)

-- `(high_nibble & 0x0F) << 4 | (low_nibble & 0x0F)`
unfoldable pub data_byte : ℕ → ℕ → ℕ
data_byte high low = bit_or (hctoi high % 16 * 2 ^ 4) (hctoi low % 16)

-- The loop over the data bytes with `n` rounds left, at index `i`.
unfoldable pub read_data : List ℕ → ℕ → ℕ → ℕ → OrdMap → Option OrdMap
read_data line zero i addr m = some m
read_data line (suc n) i addr m = do
  high ← char_at line (12 + 2 * i)
  low ← char_at line (13 + 2 * i)
  read_data line n (suc i) addr (put (u64 (addr + i)) (data_byte high low) m)

-- One round of the loop over the lines. Only records of type 3 have an effect.
unfoldable pub read_line : List ℕ → OrdMap → Option OrdMap
unfolding read_address
read_line [] m = some m
read_line (c0 ∷ rest) m = do
  let line = c0 ∷ rest
  c1 ← char_at line 1
  c2 ← char_at line 2
  c3 ← char_at line 3
  let data_bytes = (record_size c2 c3 + 256 - 5) % 256
  elim (c1 % 16 == 3) [
    | true ↦ read_address line >>= λ addr. read_data line data_bytes 0 addr m
    | false ↦ some m
  ]

read_lines : List (List ℕ) → OrdMap → Option OrdMap
read_lines [] m = some m
read_lines (line ∷ lines) m = read_line line m >>= λ m'. read_lines lines m'

-- The constructor of `srec_file`.
unfoldable pub srec_file : Option (List ℕ) → Option OrdMap
unfolding read_lines
srec_file none = some []
srec_file (some bytes) = read_lines (get_lines bytes) []

-- A line that `dump_readmemh` writes: `@` with an address, or a byte.
pub data Line : Type 0 where
  address : ℕ → Line
  byte : ℕ → Line

-- The loop of `dump_readmemh`, with `prev_address`; the base address is zero.
unfoldable pub dump_from : ℕ → OrdMap → List Line
dump_from prev [] = []
dump_from prev ((offset, v) ∷ m) =
    if not (u64 (prev + 1) == u64 (0 + offset))
    then address (u64 (0 + offset) % 2 ^ 16) ∷ byte v ∷ dump_from (u64 (0 + offset)) m
    else byte v ∷ dump_from (u64 (0 + offset)) m

-- Whether the file could be opened, and the size of a memory word, which the code does not use: the
-- result, and the lines written.
unfoldable pub dump_readmemh : Bool → ℕ → OrdMap → Bool × List Line
dump_readmemh is_open word_size m =
    if not is_open then (false, []) else (true, address 0 ∷ dump_from 0 m)
