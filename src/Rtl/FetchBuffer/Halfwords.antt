-- ===== src/Rtl/FetchBuffer/Halfwords.antt =====
-- The bits of the fetch buffer as a list of halfwords.

use scarv_cpu.Base.{
  ℕ, zero, suc, ◌+◌, ◌*◌, ◌/◌, ◌%◌, ◌^◌, ◌≤◌, ◌<◌, ◌≡◌, ap, ◌∙◌, List, [], ◌∷◌, ◌++◌, bit_or,
  bit_or_high, length, drop, zero-bit_or, pow_add, arith,
}

-- The halfwords that a buffer holds, the first in the lowest bits.
abbrev pub value : List ℕ → ℕ
value [] = 0
value (h ∷ q) = h + 2 ^ 16 * value q

abbrev pub AllHalf : List ℕ → Type 0
AllHalf [] = Unit {0}
AllHalf (h ∷ q) = (h < 2 ^ 16) × AllHalf q

pow_16 : (n : ℕ) → 2 ^ (16 * suc n) ≡ 2 ^ 16 * 2 ^ (16 * n)
pow_16 n = ap (λ (t : ℕ). 2 ^ t) (omega arith) ∙ pow_add 16 (16 * n)

pow_16-suc : (v n : ℕ) → v * 2 ^ (16 * suc n) ≡ 2 ^ 16 * (v * 2 ^ (16 * n))
pow_16-suc v n = omega (arith, ap (λ (t : ℕ). v * t) (pow_16 n))

pub value-append : (p q : List ℕ) → value (p ++ q) ≡ value p + value q * 2 ^ (16 * length p)
value-append [] q = omega arith
value-append (h ∷ p) q = omega (arith, value-append p q, pow_16-suc (value q) (length p))

pub drop-AllHalf : (n : ℕ) (q : List ℕ) → AllHalf q → AllHalf (drop n q)
drop-AllHalf zero q h = h
drop-AllHalf (suc n) [] h = h
drop-AllHalf (suc n) (x ∷ q) h = drop-AllHalf n q h.1

pub append-AllHalf : (p q : List ℕ) → AllHalf p → AllHalf q → AllHalf (p ++ q)
append-AllHalf [] q h k = k
append-AllHalf (x ∷ p) q h k = (h.0, append-AllHalf p q h.1 k)

-- A shift by `n` halfwords drops as many from the queue.
pub value-drop :
    (n : ℕ) (q : List ℕ) → n ≤ 2 → AllHalf q → value q / 2 ^ (16 * n) ≡ value (drop n q)
value-drop zero q l h = omega arith
value-drop (suc zero) [] l h = omega arith
value-drop (suc zero) (x ∷ q) l h = omega (arith, h.0)
value-drop (suc (suc zero)) [] l h = omega arith
value-drop (suc (suc zero)) (x ∷ []) l h = omega (arith, h.0)
value-drop (suc (suc zero)) (x ∷ y ∷ q) l h = omega (arith, h.0, h.1.0)
value-drop (suc (suc (suc n))) q l h = absurd (omega arith)

no_wrap : (d : ℕ) → d < 2 ^ 64 → d % 2 ^ 64 ≡ d
no_wrap d h = omega arith

-- A word that is inserted after at most two halfwords does not overlap them and fits.
insert-value :
    (r : List ℕ) (d : ℕ)
    → AllHalf r
    → length r ≤ 2
    → d < 2 ^ 32
    → bit_or (d * 2 ^ (16 * length r) % 2 ^ 64) (value r) ≡ value r + d * 2 ^ (16 * length r)
insert-value [] d h l b = omega (
  arith,
  bit_or_high 0 d 0 (omega arith),
  ap (λ (t : ℕ). bit_or t 0) (no_wrap (d * 1) (omega (arith, b))),
)
insert-value (x ∷ []) d h l b = omega (
  arith,
  bit_or_high 16 d (x + 0) (omega (arith, h.0)),
  ap (λ (t : ℕ). bit_or t (x + 0)) (no_wrap (d * 65536) (omega (arith, b))),
)
insert-value (x ∷ y ∷ []) d h l b = omega (
  arith,
  bit_or_high 32 d (x + 65536 * (y + 0)) (omega (arith, h.0, h.1.0)),
  ap (λ (t : ℕ). bit_or t (x + 65536 * (y + 0))) (no_wrap (d * 4294967296) (omega (arith, b))),
)
insert-value (x ∷ y ∷ z ∷ r) d h l b = absurd (omega arith)

-- The inserted halfwords, beside those that stay.
pub or_pushed :
    (r p : List ℕ)
    → AllHalf r
    → value p < 2 ^ 32
    → (0 < length p → length r ≤ 2)
    → bit_or (value p * 2 ^ (16 * length r) % 2 ^ 64) (value r) ≡ value (r ++ p)
or_pushed r [] h b f =
    let nothing : 0 * 2 ^ (16 * length r) % 2 ^ 64 ≡ 0 = omega arith in
    ap (λ (t : ℕ). bit_or t (value r)) nothing
    ∙ omega (arith, zero-bit_or (value r), value-append r [])
or_pushed r (x ∷ p) h b f =
    omega (arith, insert-value r (value (x ∷ p)) h (f (omega arith)) b, value-append r (x ∷ p))
