-- ===== src/Embench/Hex.antt =====
-- The hexadecimal digits of `puthex64`, `puthex32`, `puthex8` and `puthex64_nlz`.
use native.Mathlib.Nat.{div-div-eq-div-mul, pow-suc}
use scarv_cpu.Base.{
  ℕ, zero, suc, ◌+◌, ◌-◌, ◌*◌, ◌/◌, ◌^◌, ◌<◌, ◌≡◌, refl, sym, ◌∙◌, ap, true, false, List, [], ◌∷◌,
  ltb, ◌==◌, if◌then◌else◌, length, arith,
}
use scarv_cpu.Embench.{
  lut, nibble, puthex_from, puthex64, puthex32, puthex8, puthex_nlz_from, puthex64_nlz,
}

-- The number that digits stand for, after those read so far.
abbrev pub hex_value : ℕ → List ℕ → ℕ
hex_value n [] = n
hex_value n (c ∷ cs) = hex_value (16 * n + (if ltb c 58 then c - 48 else c - 55)) cs

lut_value : (b : ℕ) → b < 16 → (if ltb (lut b) 58 then lut b - 48 else lut b - 55) ≡ b
lut_value b h = ground arith

pow_four : (k : ℕ) → 2 ^ (k + 4) ≡ 2 ^ k * 16
pow_four k =
    let place : k + 4 ≡ suc (suc (suc (suc k))) = omega arith in
    ap (λ e. 2 ^ e) place
    ∙ omega (
      arith,
      pow-suc 2 k,
      pow-suc 2 (suc k),
      pow-suc 2 (suc (suc k)),
      pow-suc 2 (suc (suc (suc k))),
    )

-- A nibble is the lowest digit of what is left of the number from its place on.
nibble_step : (w k : ℕ) → 16 * (w / 2 ^ (k + 4)) + nibble w k ≡ w / 2 ^ k
nibble_step w k =
    let split : w / 2 ^ k / 16 ≡ w / 2 ^ (k + 4) =
      div-div-eq-div-mul w (2 ^ k) 16 ∙ ap (λ d. w / d) (sym (pow_four k)) in
    omega (arith, split)

puthex_from_value : (n w : ℕ) → hex_value (w / 2 ^ (8 * n)) (puthex_from n w) ≡ w
unfolding puthex_from
puthex_from_value zero w = omega arith
puthex_from_value (suc i) w =
    let high = lut_value (nibble w (8 * i + 4)) (omega arith) in
    let low = lut_value (nibble w (8 * i)) (omega arith) in
    let place : 8 * suc i ≡ 8 * i + 4 + 4 = omega arith in
    let first : 16 * (w / 2 ^ (8 * suc i)) + nibble w (8 * i + 4) ≡ w / 2 ^ (8 * i + 4) =
      ap (λ e. 16 * (w / 2 ^ e) + nibble w (8 * i + 4)) place ∙ nibble_step w (8 * i + 4) in
    rw (high, low, first, nibble_step w (8 * i)) (puthex_from_value i w)

length-puthex_from : (n w : ℕ) → length (puthex_from n w) ≡ 2 * n
unfolding puthex_from
length-puthex_from zero w = refl
length-puthex_from (suc i) w = omega (arith, length-puthex_from i w)

puthex_from_whole : (n w : ℕ) → w / 2 ^ (8 * n) ≡ 0 → hex_value 0 (puthex_from n w) ≡ w
puthex_from_whole n w h = ap (λ k. hex_value k (puthex_from n w)) (sym h) ∙ puthex_from_value n w

-- A number of 64, 32 or 8 bits is printed by `puthex64`, `puthex32` and `puthex8` with 16, 8 and 2
-- digits, and the digits stand for the number.
pub puthex_digits :
    (w64 w32 w8 : ℕ)
    → w64 < 2 ^ 64
    → w32 < 2 ^ 32
    → w8 < 2 ^ 8
    → ((hex_value 0 (puthex64 w64) ≡ w64) × (length (puthex64 w64) ≡ 16))
      × ((hex_value 0 (puthex32 w32) ≡ w32) × (length (puthex32 w32) ≡ 8))
      × ((hex_value 0 (puthex8 w8) ≡ w8) × (length (puthex8 w8) ≡ 2))
unfolding puthex64 puthex32 puthex8
puthex_digits w64 w32 w8 h64 h32 h8 =
    let high = lut_value (nibble w8 4) (omega arith) in
    let low = lut_value (nibble w8 0) (omega arith) in
    (
      (puthex_from_whole 8 w64 (omega arith), length-puthex_from 8 w64),
      (puthex_from_whole 4 w32 (omega arith), length-puthex_from 4 w32),
      (rw (high, low) (omega arith), refl),
    )

-- The digits from the first that is not zero on.
abbrev pub drop_zeros : List ℕ → List ℕ
drop_zeros [] = []
drop_zeros (c ∷ cs) = if c == b'0' then drop_zeros cs else c ∷ cs

nlz_seen : (n w : ℕ) → puthex_nlz_from n true w ≡ puthex_from n w
unfolding puthex_from puthex_nlz_from
nlz_seen zero w = refl
nlz_seen (suc i) w = ground (arith, nlz_seen i w)

nlz_unseen : (n w : ℕ) → puthex_nlz_from n false w ≡ drop_zeros (puthex_from n w)
unfolding puthex_from puthex_nlz_from
nlz_unseen zero w = refl
nlz_unseen (suc i) w = ground (arith, nlz_unseen i w, nlz_seen i w)

-- `puthex64_nlz` prints what `puthex64` prints, from the first digit on that is not zero; of zero it
-- prints nothing.
pub puthex64_nlz_drops : (w : ℕ) → puthex64_nlz w ≡ drop_zeros (puthex64 w)
unfolding puthex64 puthex64_nlz
puthex64_nlz_drops w = nlz_unseen 8 w
