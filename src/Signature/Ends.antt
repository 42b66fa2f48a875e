-- ===== src/Signature/Ends.antt =====
-- The loops over the signature end, whatever the memory and the file hold.
use scarv_cpu.Base.{
  ℕ, zero, suc, ◌+◌, ◌-◌, ◌*◌, ◌^◌, ◌≤◌, ◌<◌, ◌≡◌, refl, Bool, ◌&&◌, [], some, u32, ltb, ◌==◌,
  Bool-cases, inl, inr, Text, arith,
}
use scarv_cpu.Bus.{Bus}
use scarv_cpu.Signature.{read_word, word_line, getc, get_byte, dump_signature, verif_signature}

-- Fuel for the words that are left, and one more, is enough.
abbrev pub IsEnough : ℕ → ℕ → ℕ → Type 0
IsEnough fuel i end = (end + 4 ≤ i + 4 * fuel) × (end ≤ 2 ^ 32 - 4) × (0 < fuel)

pub dump_signature_ends :
    (fuel i end : ℕ) (bus : Bus)
    → IsEnough fuel i end
    → (text : Text) × (bus' : Bus) × (dump_signature fuel i end bus ≡ some (text, bus'))
unfolding dump_signature
dump_signature_ends zero i end bus h = absurd (omega (arith, h.2))
dump_signature_ends (suc fuel) i end bus h = elim (Bool-cases (ltb i end)) [
  | inl go ↦
      let (b3, b2, b1, b0, bus1) = read_word bus i in
      let (text, bus2, rest) =
        dump_signature_ends fuel (u32 (i + 4)) end bus1 (ground (arith, h, go)) in
      (word_line b3 b2 b1 b0 text, bus2, rw (go, dump_signature) (rw rest refl))
  | inr stop ↦ ([], bus, rw (stop, dump_signature) refl)
]

pub verif_signature_ends :
    (fuel i end : ℕ) (text : Text) (bus : Bus) (result : Bool)
    → IsEnough fuel i end
    → (passed : Bool) × (bus' : Bus) × (verif_signature fuel i end text bus result
        ≡ some (passed, bus'))
unfolding verif_signature
verif_signature_ends zero i end text bus result h = absurd (omega (arith, h.2))
verif_signature_ends (suc fuel) i end text bus result h = elim (Bool-cases (ltb i end)) [
  | inl go ↦
      let (d3, d2, d1, d0, bus1) = read_word bus i in
      let (s3, text3) = get_byte text in
      let (s2, text2) = get_byte text3 in
      let (s1, text1) = get_byte text2 in
      let (s0, text0) = get_byte text1 in
      let (passed, bus', rest) =
        verif_signature_ends fuel (u32 (i + 4)) end (getc text0).1 bus1
          (result && (d0 == s0) && (d1 == s1) && (d2 == s2) && (d3 == s3))
          (ground (arith, h, go)) in
      (passed, bus', rw (go, verif_signature) rest)
  | inr stop ↦ (result, bus, rw (stop, verif_signature) refl)
]
