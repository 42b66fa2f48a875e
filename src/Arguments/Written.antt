-- ===== src/Arguments/Written.antt =====
-- How numbers are written in the arguments, and that they are read back.
use scarv_cpu.Base.{
  ℕ, ◌+◌, ◌*◌, ◌^◌, ◌<◌, ◌≡◌, refl, ap, ◌∙◌, lt→ltb, true, false, List, [], ◌∷◌, some, ltb,
  if◌then◌else◌, Text, codes, contains, lacks, contains-lacks, arith,
}
use scarv_cpu.Arguments.Number.{
  digit_value, digits_from, number, prefixed, stoul, stoul_any, stoul_bare, stoul_any_bare,
}

-- A number as it is written: its digits, first to last, none of which is missing.
pub record Digits : Type 0 where
  pub first : ℕ
  pub rest : List ℕ

abbrev pub value_from : ℕ → ℕ → List ℕ → ℕ
value_from base n [] = n
value_from base n (d ∷ ds) = value_from base (base * n + d) ds

abbrev pub value : ℕ → Digits → ℕ
value base d = value_from base d.first d.rest

abbrev pub AllBelow : ℕ → List ℕ → Type 0
AllBelow base [] = Unit {0}
AllBelow base (d ∷ ds) = (d < base) × AllBelow base ds

-- Digits of a base, whose number fits in 64 bits.
pub record IsNumber (base : ℕ) (d : Digits) : Type 0 where
  pub first_below : d.first < base
  pub rest_below : AllBelow base d.rest
  pub fits : value base d < 2 ^ 64

abbrev pub digit : ℕ → ℕ
digit v = if ltb v 10 then 48 + v else 87 + v

abbrev pub written : List ℕ → Text
written [] = []
written (d ∷ ds) = digit d ∷ written ds

abbrev pub decimal : Digits → Text
decimal d = digit d.first ∷ written d.rest

abbrev pub hexadecimal : Digits → Text
hexadecimal d = b'0' ∷ b'x' ∷ digit d.first ∷ written d.rest

digit_value-digit : (v : ℕ) → v < 16 → digit_value (digit v) ≡ v
digit_value-digit v h = ground arith

digits_from-written :
    (base n : ℕ) (ds : List ℕ)
    → base < 17
    → AllBelow base ds
    → digits_from base n (written ds) ≡ value_from base n ds
unfolding digits_from
digits_from-written base n [] small h = refl
digits_from-written base n (d ∷ ds) small h =
    let v = digit_value-digit d (omega (arith, h.0)) in
    let go : ltb (digit_value (digit d)) base ≡ true = ground (arith, v, h.0) in
    rw go (rw v (digits_from-written base (base * n + d) ds small h.1))

number-decimal :
    (base : ℕ) (d : Digits)
    → base < 17
    → IsNumber base d
    → number base (decimal d) ≡ some (value base d)
unfolding number
number-decimal base d small v =
    let one = digit_value-digit d.first (omega (arith, v.first_below)) in
    let go : ltb (digit_value (digit d.first)) base ≡ true = ground (arith, one, v.first_below) in
    let zero : base * 0 + d.first ≡ d.first = omega arith in
    let whole : digits_from base 0 (decimal d) ≡ value base d =
      digits_from-written base 0 (d.first ∷ d.rest) small (v.first_below, v.rest_below)
      ∙ ap (λ n. value_from base n d.rest) zero in
    rw (whole, go, lt→ltb _ _ v.fits) refl

-- A digit is no sign and no space.
pub stoul-decimal : (d : Digits) → IsNumber 10 d → stoul (decimal d) ≡ some (value 10 d)
stoul-decimal d v =
    stoul_bare (decimal d) (ground (arith, v.first_below)) ∙ number-decimal 10 d (omega arith) v

digit_is_digit : (v : ℕ) → v < 16 → ltb (digit_value (digit v)) 16 ≡ true
digit_is_digit v h = ground (arith, digit_value-digit v h)

pub stoul_any-hexadecimal :
    (d : Digits) → IsNumber 16 d → stoul_any (hexadecimal d) ≡ some (value 16 d)
unfolding prefixed
stoul_any-hexadecimal d v =
    stoul_any_bare (hexadecimal d) refl
    ∙ rw (digit_is_digit d.first v.first_below) (number-decimal 16 d (omega arith) v)

-- None of the names that the arguments are told apart by is in a text without a plus sign.
pub record NoNames (s : Text) : Type 0 where
  pub imem : contains (codes "+IMEM=") s ≡ false
  pub waves : contains (codes "+WAVES=") s ≡ false
  pub timeout : contains (codes "+TIMEOUT=") s ≡ false
  pub imem_stall : contains (codes "+IMEM_MAX_STALL=") s ≡ false
  pub dmem_stall : contains (codes "+DMEM_MAX_STALL=") s ≡ false
  pub pass : contains (codes "+PASS_ADDR=") s ≡ false
  pub fail : contains (codes "+FAIL_ADDR=") s ≡ false
  pub start : contains (codes "+SIG_START=") s ≡ false
  pub end : contains (codes "+SIG_END=") s ≡ false
  pub reg : contains (codes "+REG_ADDR=") s ≡ false
  pub path : contains (codes "+SIG_PATH=") s ≡ false

pub lacks-NoNames : (s : Text) → lacks b'+' s ≡ true → NoNames s
lacks-NoNames s h =
    let no : (q : Text) → contains (b'+' ∷ q) s ≡ false = λ q. contains-lacks b'+' q s h in
    record {
      imem = no (codes "IMEM=");
      waves = no (codes "WAVES=");
      timeout = no (codes "TIMEOUT=");
      imem_stall = no (codes "IMEM_MAX_STALL=");
      dmem_stall = no (codes "DMEM_MAX_STALL=");
      pass = no (codes "PASS_ADDR=");
      fail = no (codes "FAIL_ADDR=");
      start = no (codes "SIG_START=");
      end = no (codes "SIG_END=");
      reg = no (codes "REG_ADDR=");
      path = no (codes "SIG_PATH=");
    }

lacks-written :
    (base : ℕ) (ds : List ℕ) → base < 17 → AllBelow base ds → lacks b'+' (written ds) ≡ true
lacks-written base [] small h = refl
lacks-written base (d ∷ ds) small h = ground (arith, h.0, lacks-written base ds small h.1)

pub decimal-NoNames : (d : Digits) → IsNumber 10 d → NoNames (decimal d)
decimal-NoNames d v =
    lacks-NoNames (decimal d)
      (lacks-written 10 (d.first ∷ d.rest) (omega arith) (v.first_below, v.rest_below))

pub hexadecimal-NoNames : (d : Digits) → IsNumber 16 d → NoNames (hexadecimal d)
hexadecimal-NoNames d v =
    lacks-NoNames (hexadecimal d)
      (lacks-written 16 (d.first ∷ d.rest) (omega arith) (v.first_below, v.rest_below))
