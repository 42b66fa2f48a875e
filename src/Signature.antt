-- ===== src/Signature.antt =====
-- `dump_signature_file`, `a2h` and `verif_signature_file` of flow/verilator/main.cpp: the memory from
-- SIG_START up to SIG_END as text, and the check of such a text against the memory. The two loops
-- take fuel, one for each round; `none` means that it ran out.
pub mod Dump
pub mod RoundTrip
pub mod Ends
use scarv_cpu.Base.{
  ℕ, zero, suc, ◌+◌, ◌-◌, ◌*◌, ◌/◌, ◌%◌, Bool, true, false, ◌&&◌, List, [], ◌∷◌, ◌++◌, Option, none,
  some, bit_or, ltb, ◌==◌, u32, if◌then◌else◌,
}
use scarv_cpu.Bus.{Bus}
use scarv_cpu.Bus

-- A digit of `%02x`.
abbrev pub hex_digit : ℕ → ℕ
hex_digit v = if ltb v 10 then 48 + v else 87 + v

-- `fprintf(fh,"%02x", b)`
abbrev pub hex_byte : ℕ → List ℕ
hex_byte b = hex_digit (b / 16) ∷ hex_digit (b % 16) ∷ []

-- The four reads of a word, the byte at the highest address first.
unfoldable pub read_word : Bus → ℕ → ℕ × ℕ × ℕ × ℕ × Bus
read_word bus i =
    let (b3, bus3) = Bus.read_byte bus (u32 (i + 3)) in
    let (b2, bus2) = Bus.read_byte bus3 (u32 (i + 2)) in
    let (b1, bus1) = Bus.read_byte bus2 (u32 (i + 1)) in
    let (b0, bus0) = Bus.read_byte bus1 (u32 (i + 0)) in (b3, b2, b1, b0, bus0)

abbrev pub word_line : ℕ → ℕ → ℕ → ℕ → List ℕ → List ℕ
word_line b3 b2 b1 b0 rest =
    hex_digit (b3 / 16)
    ∷ hex_digit (b3 % 16)
    ∷ hex_digit (b2 / 16)
    ∷ hex_digit (b2 % 16)
    ∷ hex_digit (b1 / 16)
    ∷ hex_digit (b1 % 16)
    ∷ hex_digit (b0 / 16)
    ∷ hex_digit (b0 % 16)
    ∷ 10
    ∷ rest

-- The loop of `dump_signature_file`: the text that is written from here on.
unfoldable pub dump_signature : ℕ → ℕ → ℕ → Bus → Option (List ℕ × Bus)
dump_signature zero i end bus = none
dump_signature (suc fuel) i end bus = elim (ltb i end) [
  | true ↦
      let (b3, b2, b1, b0, bus') = read_word bus i in
      elim (dump_signature fuel (u32 (i + 4)) end bus') [
        | none ↦ none
        | some (text, bus'') ↦ some (word_line b3 b2 b1 b0 text, bus'')
      ]
  | false ↦ some ([], bus)
]

-- The lowest byte of the `int` that the function gives.
unfoldable pub a2h : ℕ → ℕ
a2h c = if ltb c 58 && ltb 47 c then c - 48 else if ltb c 103 && ltb 96 c then c - 87 else c

-- `getc`: the end of the file reads as the byte of -1.
unfoldable pub getc : List ℕ → ℕ × List ℕ
getc [] = (255, [])
getc (c ∷ text) = (c, text)

-- `(a2h(getc(fh)) << 4) | a2h(getc(fh))` as a byte, the left call first.
unfoldable pub get_byte : List ℕ → ℕ × List ℕ
unfolding getc a2h
get_byte text =
    let (high, text1) = getc text in
    let (low, text0) = getc text1 in (bit_or (a2h high * 16 % 256) (a2h low), text0)

-- The loop of `verif_signature_file`, with `result` so far.
unfoldable pub verif_signature : ℕ → ℕ → ℕ → List ℕ → Bus → Bool → Option (Bool × Bus)
verif_signature zero i end text bus result = none
verif_signature (suc fuel) i end text bus result = elim (ltb i end) [
  | true ↦
      let (d3, d2, d1, d0, bus') = read_word bus i in
      let (s3, text3) = get_byte text in
      let (s2, text2) = get_byte text3 in
      let (s1, text1) = get_byte text2 in
      let (s0, text0) = get_byte text1 in
      let (c, rest) = getc text0 in
      verif_signature fuel (u32 (i + 4)) end rest bus'
        (result && (d0 == s0) && (d1 == s1) && (d2 == s2) && (d3 == s3))
  | false ↦ some (result, bus)
]
