-- ===== src/Srec/Parse.antt =====
-- What the parser reads from a data record.
use mathlib.Core.List.{append_assoc}
use scarv_cpu.Base.{
  AllBytes, ℕ, zero, suc, ◌+◌, ◌-◌, ◌*◌, ◌/◌, ◌%◌, ◌^◌, ◌<◌, ◌≡◌, ◌↔◌, refl, sym, ◌∙◌, ap, List, [],
  ◌∷◌, ◌++◌, some, length, length-append, arith, ltb, lt→ltb, bit_or_high, bit_or_low,
  if◌then◌else◌, u64,
}
use scarv_cpu.OrdMap.{OrdMap, put}
use scarv_cpu.Srec.{
  hctoi, or_digit, char_at, record_size, record_address, data_byte, read_data, read_line,
}

-- The upper-case hexadecimal digit of a number below 16.
abbrev pub hex_digit : ℕ → ℕ
hex_digit v = if ltb v 10 then 48 + v else 55 + v

hctoi-hex_digit : (v : ℕ) → v < 16 → hctoi (hex_digit v) % 16 ≡ v
unfolding hctoi
hctoi-hex_digit v h = ground arith

-- The size of a record is read correctly from its two digits exactly when neither is a letter.
pub record_size-hex_digit_iff :
    (a b : ℕ)
    → a < 16
    → b < 16
    → (record_size (hex_digit a) (hex_digit b) ≡ 16 * a + b) ↔ ((a < 10) × (b < 10))
unfolding record_size
record_size-hex_digit_iff a b ha hb =
    ground (arith, bit_or_high 4 (hex_digit a % 16) (hex_digit b % 16))

or_digit_first :
    (v : ℕ)
    → v < 16
    → or_digit 0 (hex_digit v) 28 ≡ (if ltb v 8 then v else v + 68719476720) * 2 ^ 28
unfolding or_digit
or_digit_first v h =
    rw (hctoi-hex_digit v h) (ground (arith, bit_or_low 28 v 0, bit_or_low 28 (v + 68719476720) 0))

-- A digit is added below the digits that were read.
or_digit_next :
    (k q v : ℕ)
    → v < 16
    → v * 2 ^ k < 2 ^ 31
    → v * 2 ^ k < 2 ^ (k + 4)
    → q * 2 ^ (k + 4) + v * 2 ^ k ≡ (16 * q + v) * 2 ^ k
    → or_digit (q * 2 ^ (k + 4)) (hex_digit v) k ≡ (16 * q + v) * 2 ^ k
unfolding or_digit
or_digit_next k q v h small fits sum =
    rw (hctoi-hex_digit v h, lt→ltb _ _ small) (bit_or_high (k + 4) q (v * 2 ^ k) fits ∙ sum)

-- An address of eight digits is read as the number that they write.
record_address-digits :
    (a b c d e f g h : ℕ)
    → (a < 16) × (b < 16) × (c < 16) × (d < 16) × (e < 16) × (f < 16) × (g < 16) × (h < 16)
    → record_address
        (hex_digit a)
        (hex_digit b)
        (hex_digit c)
        (hex_digit d)
        (hex_digit e)
        (hex_digit f)
        (hex_digit g)
        (hex_digit h)
      ≡ 16 * (16 * (16 * (16 * (16 * (16 * (16 * a + b) + c) + d) + e) + f) + g) + h
unfolding record_address
record_address-digits a b c d e f g h v =
    let q0 = if ltb a 8 then a else a + 68719476720 in
    let q1 = 16 * q0 + b in
    let q2 = 16 * q1 + c in
    let q3 = 16 * q2 + d in
    let q4 = 16 * q3 + e in
    let q5 = 16 * q4 + f in
    let q6 = 16 * q5 + g in
    rw (or_digit_first a v.0) (
      rw (or_digit_next 24 q0 b v.1 (omega arith) (omega arith) (omega arith)) (
        rw (or_digit_next 20 q1 c v.2 (omega arith) (omega arith) (omega arith)) (
          rw (or_digit_next 16 q2 d v.3 (omega arith) (omega arith) (omega arith)) (
            rw (or_digit_next 12 q3 e v.4 (omega arith) (omega arith) (omega arith)) (
              rw (or_digit_next 8 q4 f v.5 (omega arith) (omega arith) (omega arith)) (
                rw (or_digit_next 4 q5 g v.6 (omega arith) (omega arith) (omega arith)) (
                  rw (or_digit_next 0 q6 h v.7 (omega arith) (omega arith) (omega arith))
                    (ground arith))))))))

-- The text of a data record: its type, the count of its bytes behind the count itself, the address,
-- the bytes, and what follows (the checksum and the end of the line).
abbrev pub hex_byte : ℕ → List ℕ
hex_byte b = hex_digit (b / 16) ∷ hex_digit (b % 16) ∷ []

abbrev hex_bytes : List ℕ → List ℕ
hex_bytes [] = []
hex_bytes (b ∷ bs) = hex_digit (b / 16) ∷ hex_digit (b % 16) ∷ hex_bytes bs

abbrev pub data_record : ℕ → List ℕ → List ℕ → List ℕ
data_record addr bytes rest =
    b'S'
    ∷ b'3'
    ∷ hex_digit ((length bytes + 5) / 16)
    ∷ hex_digit ((length bytes + 5) % 16)
    ∷ hex_digit (addr / 2 ^ 28)
    ∷ hex_digit (addr / 2 ^ 24 % 16)
    ∷ hex_digit (addr / 2 ^ 20 % 16)
    ∷ hex_digit (addr / 2 ^ 16 % 16)
    ∷ hex_digit (addr / 2 ^ 12 % 16)
    ∷ hex_digit (addr / 2 ^ 8 % 16)
    ∷ hex_digit (addr / 2 ^ 4 % 16)
    ∷ hex_digit (addr % 16)
    ∷ (hex_bytes bytes ++ rest)

-- The bytes put into a map from an address on.
abbrev pub put_all : ℕ → List ℕ → OrdMap → OrdMap
put_all addr [] m = m
put_all addr (b ∷ bs) m = put_all (suc addr) bs (put addr b m)

char_at-append :
    (xs ys : List ℕ) (i k : ℕ) → k ≡ length xs + i → char_at (xs ++ ys) k ≡ char_at ys i
unfolding char_at
char_at-append [] ys i k e = ap (char_at ys) (e ∙ omega arith)
char_at-append (x ∷ xs) ys i zero e = absurd (omega arith)
char_at-append (x ∷ xs) ys i (suc k) e = char_at-append xs ys i k (omega arith)

-- Two characters behind a prefix.
char_at_first : (xs ys : List ℕ) (c d k : ℕ) → length xs ≡ k → char_at (xs ++ c ∷ d ∷ ys) k ≡ some c
unfolding char_at
char_at_first xs ys c d k e = char_at-append xs (c ∷ d ∷ ys) 0 k (omega arith)

char_at_second :
    (xs ys : List ℕ) (c d k : ℕ) → suc (length xs) ≡ k → char_at (xs ++ c ∷ d ∷ ys) k ≡ some d
unfolding char_at
char_at_second xs ys c d k e = char_at-append xs (c ∷ d ∷ ys) 1 k (omega arith)

data_byte-hex_byte : (b : ℕ) → b < 256 → data_byte (hex_digit (b / 16)) (hex_digit (b % 16)) ≡ b
unfolding data_byte
data_byte-hex_byte b h =
    rw (hctoi-hex_digit (b / 16) (omega arith), hctoi-hex_digit (b % 16) (omega arith))
      (bit_or_high 4 (b / 16) (b % 16) (omega arith) ∙ omega arith)

-- The loop, at a line whose digits from its index on are those of the bytes.
read_data-hex_bytes :
    (pre bytes rest : List ℕ) (i addr : ℕ) (m : OrdMap)
    → length pre ≡ 12 + 2 * i
    → addr + i + length bytes < 2 ^ 64
    → AllBytes bytes
    → read_data (pre ++ (hex_bytes bytes ++ rest)) (length bytes) i addr m
      ≡ some (put_all (addr + i) bytes m)
unfolding read_data
read_data-hex_bytes pre [] rest i addr m e small v = refl
read_data-hex_bytes pre (b ∷ bs) rest i addr m e small v =
    let high = hex_digit (b / 16) in
    let low = hex_digit (b % 16) in
    let tail = hex_bytes bs ++ rest in
    let m' = put (addr + i) b m in
    let line : pre ++ (high ∷ low ∷ tail) ≡ (pre ++ (high ∷ low ∷ [])) ++ tail =
      sym (append_assoc pre (high ∷ low ∷ []) tail) in
    let wrap : u64 (addr + i) ≡ addr + i = omega arith in
    let next : addr + suc i ≡ suc (addr + i) = omega arith in
    rw
      (
        char_at_first pre tail high low (12 + 2 * i) (omega arith),
        char_at_second pre tail high low (13 + 2 * i) (omega arith),
      )
      (rw (wrap, data_byte-hex_byte b v.0)
        (ap (λ l. read_data l (length bs) (suc i) addr m') line
          ∙ read_data-hex_bytes (pre ++ high ∷ low ∷ []) bs rest (suc i) addr m'
              (omega (arith, length-append pre (high ∷ low ∷ []))) (omega arith) v.1
          ∙ ap (λ a. some (put_all a bs m')) next))

record_size-data_record :
    (n : ℕ)
    → (n / 16 < 10) × (n % 16 < 10)
    → record_size (hex_digit (n / 16)) (hex_digit (n % 16)) ≡ n
record_size-data_record n h =
    (record_size-hex_digit_iff (n / 16) (n % 16) (omega arith) (omega arith)).1 h ∙ omega arith

record_address-data_record :
    (addr : ℕ)
    → addr < 2 ^ 32
    → record_address
        (hex_digit (addr / 2 ^ 28))
        (hex_digit (addr / 2 ^ 24 % 16))
        (hex_digit (addr / 2 ^ 20 % 16))
        (hex_digit (addr / 2 ^ 16 % 16))
        (hex_digit (addr / 2 ^ 12 % 16))
        (hex_digit (addr / 2 ^ 8 % 16))
        (hex_digit (addr / 2 ^ 4 % 16))
        (hex_digit (addr % 16))
      ≡ addr
record_address-data_record addr h =
    record_address-digits _ _ _ _ _ _ _ _ (omega arith) ∙ omega arith

-- A data record with a 32-bit address and at most 148 bytes, whose count is written without letters,
-- is read back: each byte
-- is put at its address, in order, and what follows the bytes is ignored.
pub read_line-data_record :
    (addr : ℕ) (bytes rest : List ℕ) (m : OrdMap)
    → addr < 2 ^ 32
    → AllBytes bytes
    → ((length bytes + 5) / 16 < 10) × ((length bytes + 5) % 16 < 10)
    → read_line (data_record addr bytes rest) m ≡ some (put_all addr bytes m)
unfolding read_line char_at
read_line-data_record addr bytes rest m small v plain =
    rw (record_size-data_record (length bytes + 5) plain, record_address-data_record addr small)
      (rw count (
        read_data-hex_bytes head bytes rest 0 addr m (omega arith) (omega arith) v
        ∙ ap (λ a. some (put_all a bytes m)) (omega arith)))
  where
    n : ℕ
    n = length bytes + 5

    head : List ℕ
    head =
        b'S'
        ∷ b'3'
        ∷ hex_digit (n / 16)
        ∷ hex_digit (n % 16)
        ∷ hex_digit (addr / 2 ^ 28)
        ∷ hex_digit (addr / 2 ^ 24 % 16)
        ∷ hex_digit (addr / 2 ^ 20 % 16)
        ∷ hex_digit (addr / 2 ^ 16 % 16)
        ∷ hex_digit (addr / 2 ^ 12 % 16)
        ∷ hex_digit (addr / 2 ^ 8 % 16)
        ∷ hex_digit (addr / 2 ^ 4 % 16)
        ∷ hex_digit (addr % 16)
        ∷ []

    count : (length bytes + 5 + 256 - 5) % 256 ≡ length bytes
    count = omega arith
