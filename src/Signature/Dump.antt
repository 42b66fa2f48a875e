-- ===== src/Signature/Dump.antt =====
-- What `dump_signature` reads and writes.
use scarv_cpu.Base.{
  ℕ, zero, suc, ◌+◌, ◌-◌, ◌^◌, ◌≤◌, ◌<◌, ◌≡◌, refl, ◌∙◌, Bool, true, false, ◌&&◌, List, [], some,
  arith, ltb, lt→ltb, ◌==◌, u32,
}
use scarv_cpu.Bus.{Bus}
use scarv_cpu.Bus
use scarv_cpu.Bus.Bytes.{peek_at, plain_at, read_byte_plain}
use scarv_cpu.Signature.{hex_digit, word_line, read_word, dump_signature, a2h}

-- Two states of a bus that no read can tell apart.
pub record SameBytes (bus bus' : Bus) : Type 0 where
  pub plain : (x : ℕ) → plain_at bus' x ≡ plain_at bus x
  pub bytes : (x : ℕ) → peek_at bus' x ≡ peek_at bus x

SameBytes-trans : {a b c : Bus} → SameBytes a b → SameBytes b c → SameBytes a c
SameBytes-trans s t = record {
  plain = λ x. t.plain x ∙ s.plain x;
  bytes = λ x. t.bytes x ∙ s.bytes x;
}

read_one :
    (bus0 bus : Bus) (x : ℕ)
    → SameBytes bus0 bus
    → plain_at bus0 x ≡ true
    → ((Bus.read_byte bus x).0 ≡ peek_at bus0 x) × SameBytes bus0 (Bus.read_byte bus x).1
read_one bus0 bus x s h =
    let r = read_byte_plain bus x (s.plain x ∙ h) in
    (r.0 ∙ s.bytes x, SameBytes-trans s record { plain = r.1; bytes = r.3 })

-- The four addresses of a word reach a RAM or nothing, and hold bytes.
pub record PlainWord (bus : Bus) (i : ℕ) : Type 0 where
  pub at0 : plain_at bus i ≡ true
  pub at1 : plain_at bus (i + 1) ≡ true
  pub at2 : plain_at bus (i + 2) ≡ true
  pub at3 : plain_at bus (i + 3) ≡ true

pub read_word_plain :
    (bus0 bus : Bus) (i : ℕ)
    → SameBytes bus0 bus
    → i + 3 < 2 ^ 32
    → PlainWord bus0 i
    → (bus' : Bus) × (read_word bus i
        ≡ (peek_at bus0 (i + 3), peek_at bus0 (i + 2), peek_at bus0 (i + 1), peek_at bus0 i, bus'))
      × SameBytes bus0 bus'
unfolding read_word
read_word_plain bus0 bus i start small v =
    let n3 : u32 (i + 3) ≡ i + 3 = omega arith in
    let n2 : u32 (i + 2) ≡ i + 2 = omega arith in
    let n1 : u32 (i + 1) ≡ i + 1 = omega arith in
    let n0 : u32 (i + 0) ≡ i = omega arith in
    let r3 = read_one bus0 bus (i + 3) start v.at3 in
    let b3 = (Bus.read_byte bus (i + 3)).1 in
    let r2 = read_one bus0 b3 (i + 2) r3.1 v.at2 in
    let b2 = (Bus.read_byte b3 (i + 2)).1 in
    let r1 = read_one bus0 b2 (i + 1) r2.1 v.at1 in
    let b1 = (Bus.read_byte b2 (i + 1)).1 in
    let r0 = read_one bus0 b1 i r1.1 v.at0 in
    rw (n3, n2, n1, n0)
      (
        (Bus.read_byte b1 i).1,
        (λ k. (r3.0 k, r2.0 k, r1.0 k, r0.0 k, (Bus.read_byte b1 i).1)),
        r0.1,
      )

-- The words from an address up to the end: `n` rounds of the loops.
abbrev pub Rounds : ℕ → ℕ → ℕ → Type 0
Rounds zero i end = end ≤ i
Rounds (suc n) i end = (i < end) × Rounds n (i + 4) end

-- The four addresses of each of `n` words reach a RAM or nothing.
abbrev pub AllPlain : Bus → ℕ → ℕ → Type 0
AllPlain bus zero i = Unit {0}
AllPlain bus (suc n) i = PlainWord bus i × AllPlain bus n (i + 4)

-- Each of the four bytes of `n` words is a byte.
abbrev pub HoldsBytes : Bus → ℕ → ℕ → Type 0
HoldsBytes bus zero i = Unit {0}
HoldsBytes bus (suc n) i =
    (peek_at bus i < 256)
    × (peek_at bus (i + 1) < 256)
    × (peek_at bus (i + 2) < 256)
    × (peek_at bus (i + 3) < 256)
    × HoldsBytes bus n (i + 4)

-- The text of `n` words, and whether two memories have the same bytes in them.
abbrev pub text_of : Bus → ℕ → ℕ → List ℕ
text_of bus zero i = []
text_of bus (suc n) i =
    word_line (peek_at bus (i + 3)) (peek_at bus (i + 2)) (peek_at bus (i + 1)) (peek_at bus i)
      (text_of bus n (i + 4))

abbrev pub same_words : Bus → Bus → ℕ → ℕ → Bool → Bool
same_words dut ref zero i result = result
same_words dut ref (suc n) i result = same_words dut ref n (i + 4) (
    result
    && (peek_at dut i == peek_at ref i)
    && (peek_at dut (i + 1) == peek_at ref (i + 1))
    && (peek_at dut (i + 2) == peek_at ref (i + 2))
    && (peek_at dut (i + 3) == peek_at ref (i + 3)))

dump_signature_step :
    (fuel i j end b3 b2 b1 b0 : ℕ) (bus bus1 bus2 : Bus) (text : List ℕ)
    → ltb i end ≡ true
    → u32 (i + 4) ≡ j
    → read_word bus i ≡ (b3, b2, b1, b0, bus1)
    → dump_signature fuel j end bus1 ≡ some (text, bus2)
    → dump_signature (suc fuel) i end bus ≡ some (word_line b3 b2 b1 b0 text, bus2)
unfolding dump_signature
dump_signature_step fuel i j end b3 b2 b1 b0 bus bus1 bus2 text go next word rest =
    rw (go, dump_signature) (rw (word, next) (rw rest (rw word)))

dump_signature_from :
    (n fuel i end : ℕ) (bus0 bus : Bus)
    → SameBytes bus0 bus
    → n < fuel
    → Rounds n i end
    → end ≤ 2 ^ 32 - 4
    → AllPlain bus0 n i
    → (bus' : Bus) × (dump_signature fuel i end bus ≡ some (text_of bus0 n i, bus'))
      × SameBytes bus0 bus'
unfolding dump_signature
dump_signature_from n zero i end bus0 bus s h r small p = absurd (omega arith)
dump_signature_from zero (suc fuel) i end bus0 bus s h r small p =
    let stop : ltb i end ≡ false = ground arith in (bus, rw (stop, dump_signature), s)
dump_signature_from (suc n) (suc fuel) i end bus0 bus s h r small p =
    let go : ltb i end ≡ true = lt→ltb i end r.0 in
    let next : u32 (i + 4) ≡ i + 4 = omega arith in
    let (bus1, word, s1) = read_word_plain bus0 bus i s (omega arith) p.0 in
    let (bus2, rest, s2) =
      dump_signature_from n fuel (i + 4) end bus0 bus1 s1 (omega arith) r.1 small p.1 in
    (bus2, dump_signature_step fuel i (i + 4) end _ _ _ _ bus bus1 bus2 _ go next word rest, s2)

-- For a stretch of `n` words that ends 4 or more below 2 ^ 32, with fuel above `n`, and where the
-- four addresses of each word reach a RAM or nothing, the dump ends and its text is that of the bytes held there; no later read can tell that it took place.
pub dump_signature_lem :
    (n fuel start end : ℕ) (bus : Bus)
    → n < fuel
    → Rounds n start end
    → end ≤ 2 ^ 32 - 4
    → AllPlain bus n start
    → (bus' : Bus) × (dump_signature fuel start end bus ≡ some (text_of bus n start, bus'))
      × SameBytes bus bus'
dump_signature_lem n fuel start end bus h r small p =
    dump_signature_from n fuel start end bus bus record { plain = λ x. refl; bytes = λ x. refl } h r
      small p

pub a2h-hex_digit : (v : ℕ) → v < 16 → a2h (hex_digit v) ≡ v
unfolding a2h
a2h-hex_digit v h = ground arith
