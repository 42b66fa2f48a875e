-- ===== src/Arguments/Number.antt =====
-- `std::stoul` on the bytes of a text, with base 10, or with base 0, where a prefix tells the base.
-- `none` means that it throws: there is no digit, or the number does not fit in 64 bits.
use scarv_cpu.Base.{
  ℕ, ◌+◌, ◌-◌, ◌*◌, ◌^◌, ◌%◌, Bool, true, false, not, ◌&&◌, ◌||◌, [], ◌∷◌, Option, none, some, leb,
  ltb, ◌==◌, if◌then◌else◌, Text, ◌≡◌, refl, arith,
}

abbrev is_space : ℕ → Bool
is_space c = leb 9 c && leb c 13 || c == 32

skip_space : Text → Text
skip_space [] = []
skip_space (c ∷ cs) = if is_space c then skip_space cs else c ∷ cs

-- The value of a digit; 36 for a byte that is none.
abbrev pub digit_value : ℕ → ℕ
digit_value c =
    if leb 48 c && leb c 57
    then c - 48
    else if leb 97 c && leb c 122
    then c - 87
    else if leb 65 c && leb c 90
    then c - 55
    else 36

-- The number at the front of a text, after the digits read so far.
unfoldable pub digits_from : ℕ → ℕ → Text → ℕ
digits_from base n [] = n
digits_from base n (c ∷ cs) =
    if ltb (digit_value c) base then digits_from base (base * n + digit_value c) cs else n

abbrev has_digit : ℕ → Text → Bool
has_digit base [] = false
has_digit base (c ∷ cs) = ltb (digit_value c) base

unfoldable pub number : ℕ → Text → Option ℕ
number base s =
    if has_digit base s && ltb (digits_from base 0 s) (2 ^ 64)
    then some (digits_from base 0 s)
    else none

-- Base 0: `0x` before a hexadecimal digit means 16, another `0` means 8.
unfoldable pub prefixed : Text → Option ℕ
prefixed (c ∷ x ∷ rest) =
    if c == b'0' && (x == b'x' || x == b'X') && has_digit 16 rest
    then number 16 rest
    else if c == b'0'
    then number 8 (c ∷ x ∷ rest)
    else number 10 (c ∷ x ∷ rest)
prefixed s = number 10 s

-- A minus sign negates the number in 64 bits.
negated : Option ℕ → Option ℕ
negated none = none
negated (some n) = some ((2 ^ 64 - n) % 2 ^ 64)

signed : (Text → Option ℕ) → Text → Option ℕ
unfolding negated
signed f [] = f []
signed f (c ∷ cs) = if c == b'-' then negated (f cs) else if c == b'+' then f cs else f (c ∷ cs)

unfoldable pub stoul : Text → Option ℕ
unfolding signed skip_space
stoul s = signed (number 10) (skip_space s)

unfoldable pub stoul_any : Text → Option ℕ
unfolding signed skip_space
stoul_any s = signed prefixed (skip_space s)

-- A text that starts with neither a space nor a sign.
abbrev pub is_bare : Text → Bool
is_bare [] = true
is_bare (c ∷ cs) = not (is_space c) && not (c == b'-') && not (c == b'+')

pub stoul_bare : (s : Text) → is_bare s ≡ true → stoul s ≡ number 10 s
unfolding stoul
stoul_bare [] h = refl
stoul_bare (c ∷ cs) h = ground (arith, h)

pub stoul_any_bare : (s : Text) → is_bare s ≡ true → stoul_any s ≡ prefixed s
unfolding stoul_any
stoul_any_bare [] h = refl
stoul_any_bare (c ∷ cs) h = ground (arith, h)
