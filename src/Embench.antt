-- ===== src/Embench.antt =====
-- flow/embench/embench.c: text on the console. What a function stores to the register UART[0] is a
-- list of words, in order. A string is its bytes up to the terminating zero, which is left out; a
-- `char` has no sign on the target.
pub mod Hex
pub mod Console
pub mod Benchmark
use scarv_cpu.Base.{
  ℕ, zero, suc, ◌+◌, ◌*◌, ◌/◌, ◌%◌, ◌^◌, Bool, true, false, ◌||◌, List, [], ◌∷◌, ◌++◌, ltb, ◌==◌,
  if◌then◌else◌, Text,
}

-- `lut[b]` of a number below 16.
abbrev pub lut : ℕ → ℕ
lut b = if ltb b 10 then 48 + b else 55 + b

abbrev pub putchar : ℕ → List ℕ
putchar c = c ∷ []

-- The loop of `__putstr` from a character on that is not tested: each round tests the next.
put_from : ℕ → Text → List ℕ
put_from c [] = c ∷ []
put_from c (d ∷ ds) = c ∷ (if d == 0 then [] else put_from d ds)

unfoldable pub putstr : Text → List ℕ
unfolding put_from
putstr [] = []
putstr (c ∷ cs) = if c == 0 then [] else put_from c cs

-- Half a byte of a number: `(w >> k) & 0xF`.
abbrev pub nibble : ℕ → ℕ → ℕ
nibble w k = w / 2 ^ k % 16

-- The loops of `__puthex64` and `__puthex32`, with `n` bytes left.
unfoldable pub puthex_from : ℕ → ℕ → List ℕ
puthex_from zero w = []
puthex_from (suc i) w =
    putchar (lut (nibble w (8 * i + 4))) ++ putchar (lut (nibble w (8 * i))) ++ puthex_from i w

unfoldable pub puthex64 : ℕ → List ℕ
puthex64 w = puthex_from 8 w

unfoldable pub puthex32 : ℕ → List ℕ
puthex32 w = puthex_from 4 w

unfoldable pub puthex8 : ℕ → List ℕ
puthex8 w = putchar (lut (nibble w 4)) ++ putchar (lut (nibble w 0))

-- The loop of `__puthex64_nlz`, with `nz_seen`.
unfoldable pub puthex_nlz_from : ℕ → Bool → ℕ → List ℕ
puthex_nlz_from zero seen w = []
puthex_nlz_from (suc i) seen w =
    let b_1 = nibble w (8 * i + 4) in
    let b_0 = nibble w (8 * i) in
    let seen1 = ltb 0 b_1 || seen in
    let seen0 = ltb 0 b_0 || seen1 in
    (if seen1 then putchar (lut b_1) else [])
    ++ (if seen0 then putchar (lut b_0) else [])
    ++ puthex_nlz_from i seen0 w

unfoldable pub puthex64_nlz : ℕ → List ℕ
puthex64_nlz w = puthex_nlz_from 8 false w
