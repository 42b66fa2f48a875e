-- ===== src/Txn/Word.antt =====
-- What the word of a transaction is.
use scarv_cpu.Base.{ℕ, zero, suc, ◌^◌, ◌+◌, ◌*◌, ◌<◌, ◌≡◌, List, [], ◌∷◌, get_or, arith, bit_or_low}
use scarv_cpu.Txn.{Txn, data_word_from, data_word}

abbrev IsByte : ℕ → Type 0
IsByte b = b < 256

-- The bytes from index 0 on, little-endian.
abbrev little_endian : List ℕ → ℕ
little_endian [] = 0
little_endian (b ∷ bs) = b + 256 * little_endian bs

-- A transaction of four bytes, each below 256, reads as their little-endian word.
data_word-little_endian :
    (t : Txn) (b0 b1 b2 b3 : ℕ)
    → t.size ≡ 4
    → t.bytes ≡ b0 ∷ b1 ∷ b2 ∷ b3 ∷ []
    → IsByte b0
    → IsByte b1
    → IsByte b2
    → IsByte b3
    → data_word t ≡ little_endian (b0 ∷ b1 ∷ b2 ∷ b3 ∷ [])
unfolding data_word
data_word-little_endian t b0 b1 b2 b3 hs hb h0 h1 h2 h3 = ground (
  arith,
  bit_or_low 0 b0 0 (omega arith),
  bit_or_low 8 b1 b0,
  bit_or_low 16 b2 (b0 + b1 * 256),
  bit_or_low 24 b3 (b0 + b1 * 256 + b2 * 65536),
)

-- The same by the indices of the bytes.
pub data_word-get_or :
    (t : Txn)
    → t.size ≡ 4
    → ((k : ℕ) → k < 4 → get_or t.bytes k 0 < 256)
    → data_word t
      ≡ get_or t.bytes 0 0
        + 2 ^ 8 * get_or t.bytes 1 0
        + 2 ^ 16 * get_or t.bytes 2 0
        + 2 ^ 24 * get_or t.bytes 3 0
unfolding data_word
data_word-get_or t hs hb =
    let b0 = get_or t.bytes 0 0 in
    let b1 = get_or t.bytes 1 0 in
    let b2 = get_or t.bytes 2 0 in
    let b3 = get_or t.bytes 3 0 in
    ground (
      arith,
      hs,
      hb 0 (omega arith),
      hb 1 (omega arith),
      hb 2 (omega arith),
      hb 3 (omega arith),
      bit_or_low 0 b0 0 (omega arith),
      bit_or_low 8 b1 b0,
      bit_or_low 16 b2 (b0 + b1 * 256),
      bit_or_low 24 b3 (b0 + b1 * 256 + b2 * 65536),
    )

data_word_from_fits : (t : Txn) (n i tr : ℕ) → tr < 2 ^ 32 → data_word_from t n i tr < 2 ^ 32
unfolding data_word_from
data_word_from_fits t zero i tr h = h
data_word_from_fits t (suc n) i tr h = data_word_from_fits t n (suc i) _ (ground (arith, h))

-- A word has 32 bits, whatever the bytes are.
pub data_word_fits : (t : Txn) → data_word t < 2 ^ 32
unfolding data_word
data_word_fits t = data_word_from_fits t 4 0 0 (omega arith)
