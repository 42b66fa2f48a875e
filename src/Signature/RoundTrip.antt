-- ===== src/Signature/RoundTrip.antt =====
-- The text of a signature is checked against a memory by its bytes.
use scarv_cpu.Base.{
  ℕ, zero, suc, ◌+◌, ◌-◌, ◌*◌, ◌/◌, ◌%◌, ◌^◌, ◌≤◌, ◌<◌, ◌≡◌, ◌↔◌, refl, ◌∙◌, ap, Bool, true, false,
  ◌&&◌, List, ◌∷◌, some, arith, ltb, lt→ltb, ◌==◌, u32, bit_or_high,
}
use scarv_cpu.Bus.{Bus}
use scarv_cpu.Bus.Bytes.{peek_at}
use scarv_cpu.Signature.{
  hex_digit, word_line, read_word, dump_signature, getc, get_byte, verif_signature,
}
use scarv_cpu.Signature.Dump.{
  SameBytes, read_word_plain, Rounds, AllPlain, HoldsBytes, text_of, same_words, dump_signature_lem,
  a2h-hex_digit,
}

get_byte-hex_digit :
    (b : ℕ) (text : List ℕ)
    → b < 256
    → get_byte (hex_digit (b / 16) ∷ hex_digit (b % 16) ∷ text) ≡ (b, text)
unfolding get_byte
get_byte-hex_digit b text h =
    let high : b / 16 * 16 % 256 ≡ b / 16 * 2 ^ 4 = omega arith in
    rw (a2h-hex_digit (b / 16) (omega arith), a2h-hex_digit (b % 16) (omega arith), high)
      (ap (λ t. (t, text)) (bit_or_high 4 (b / 16) (b % 16) (omega arith) ∙ omega arith))

verif_signature_step :
    (fuel i j end d3 d2 d1 d0 s3 s2 s1 s0 : ℕ) (bus bus1 : Bus) (text : List ℕ) (result : Bool)
    → ltb i end ≡ true
    → u32 (i + 4) ≡ j
    → read_word bus i ≡ (d3, d2, d1, d0, bus1)
    → (s3 < 256) × (s2 < 256) × (s1 < 256) × (s0 < 256)
    → verif_signature (suc fuel) i end (word_line s3 s2 s1 s0 text) bus result
      ≡ verif_signature fuel j end text bus1
          (result && (d0 == s0) && (d1 == s1) && (d2 == s2) && (d3 == s3))
unfolding verif_signature getc
verif_signature_step fuel i j end d3 d2 d1 d0 s3 s2 s1 s0 bus bus1 text result go next word v =
    rw (go, verif_signature)
      (rw (word, next)
        (rw (get_byte-hex_digit s3 _ v.0) (
          rw (get_byte-hex_digit s2 _ v.1)
            (rw (get_byte-hex_digit s1 _ v.2) (rw (get_byte-hex_digit s0 _ v.3))))))

verif_signature_from :
    (n fuel i end : ℕ) (ref bus0 bus : Bus) (result : Bool)
    → SameBytes bus0 bus
    → n < fuel
    → Rounds n i end
    → end ≤ 2 ^ 32 - 4
    → AllPlain bus0 n i
    → HoldsBytes ref n i
    → (bus' : Bus) × (verif_signature fuel i end (text_of ref n i) bus result
        ≡ some (same_words bus0 ref n i result, bus'))
      × SameBytes bus0 bus'
unfolding verif_signature getc
verif_signature_from n zero i end ref bus0 bus result s h r small p v = absurd (omega arith)
verif_signature_from zero (suc fuel) i end ref bus0 bus result s h r small p v =
    let stop : ltb i end ≡ false = ground arith in (bus, rw (stop, verif_signature), s)
verif_signature_from (suc n) (suc fuel) i end ref bus0 bus result s h r small p v =
    let go : ltb i end ≡ true = lt→ltb i end r.0 in
    let next : u32 (i + 4) ≡ i + 4 = omega arith in
    let (bus1, word, s1) = read_word_plain bus0 bus i s (omega arith) p.0 in
    let (bus2, rest, s2) =
      verif_signature_from n fuel (i + 4) end ref bus0 bus1
        (result
          && (peek_at bus0 i == peek_at ref i)
          && (peek_at bus0 (i + 1) == peek_at ref (i + 1))
          && (peek_at bus0 (i + 2) == peek_at ref (i + 2))
          && (peek_at bus0 (i + 3) == peek_at ref (i + 3)))
        s1 (omega arith) r.1 small p.1 v.4 in
    (
      bus2,
      verif_signature_step fuel i (i + 4) end _ _ _ _ _ _ _ _ bus bus1 (text_of ref n (i + 4))
            result go next word (v.3, v.2, v.1, v.0)
          ∙ rest,
      s2,
    )

-- The bytes of two memories agree in `n` words.
abbrev pub AgreeIn : Bus → Bus → ℕ → ℕ → Type 0
AgreeIn dut ref zero i = Unit {0}
AgreeIn dut ref (suc n) i =
    (peek_at dut i ≡ peek_at ref i)
    × (peek_at dut (i + 1) ≡ peek_at ref (i + 1))
    × (peek_at dut (i + 2) ≡ peek_at ref (i + 2))
    × (peek_at dut (i + 3) ≡ peek_at ref (i + 3))
    × AgreeIn dut ref n (i + 4)

same_words-false : (dut ref : Bus) (n i : ℕ) → same_words dut ref n i false ≡ false
same_words-false dut ref zero i = refl
same_words-false dut ref (suc n) i = same_words-false dut ref n (i + 4)

same_words-AgreeIn :
    (dut ref : Bus) (n i : ℕ) → (same_words dut ref n i true ≡ true) ↔ AgreeIn dut ref n i
same_words-AgreeIn dut ref zero i = ((λ _. tt), (λ _. refl))
same_words-AgreeIn dut ref (suc n) i =
    let more = same_words-AgreeIn dut ref n (i + 4) in
    let wrong = same_words-false dut ref n (i + 4) in
    ((λ h. ground (arith, more, wrong)), (λ a. ground (arith, more, a)))

-- The text that the dump writes of one memory, checked against another: for a stretch
-- of `n` words that ends 4 or more below 2 ^ 32, with fuel above `n`, and where
-- the four addresses of each word reach a RAM or nothing and the words of the first hold bytes, the
-- check ends, and it passes exactly when the two memories agree in all bytes of the words.
pub verif_signature-dump_signature :
    (n fuel start end : ℕ) (ref dut : Bus)
    → n < fuel
    → Rounds n start end
    → end ≤ 2 ^ 32 - 4
    → AllPlain ref n start
    → AllPlain dut n start
    → HoldsBytes ref n start
    → (text : List ℕ) × (ref' : Bus) × (passed : Bool) × (dut' : Bus) × (dump_signature fuel start
          end ref
        ≡ some (text, ref'))
      × (verif_signature fuel start end text dut true ≡ some (passed, dut'))
      × ((passed ≡ true) ↔ AgreeIn dut ref n start)
verif_signature-dump_signature n fuel start end ref dut h r small p q v =
    let (ref', dumped, same) = dump_signature_lem n fuel start end ref h r small p in
    let none_yet : SameBytes dut dut = record { plain = λ x. refl; bytes = λ x. refl } in
    let (dut', checked, same') =
      verif_signature_from n fuel start end ref dut dut true none_yet h r small q v in
    (
      text_of ref n start,
      ref',
      same_words dut ref n start true,
      dut',
      dumped,
      checked,
      same_words-AgreeIn dut ref n start,
    )
