-- ===== src/Rtl/Fetch/Responses.antt =====
-- What an answer of the memory puts into the buffer.

use scarv_cpu.Base.{
  ℕ, zero, suc, ◌+◌, ◌-◌, ◌*◌, ◌/◌, ◌%◌, ◌^◌, ◌≤◌, ◌<◌, ◌≡◌, refl, ap, ap₂, ◌∙◌, Bool, true, false,
  not, ◌&&◌, List, [], ◌∷◌, ◌++◌, ltb, if◌then◌else◌, length, drop, arith,
}
use scarv_cpu.Rtl.FetchBuffer.Queue.{pushed, IsLegal}
use scarv_cpu.Rtl.Fetch.{
  Fetch, Inputs, rsp_recv, f_ready, f_4byte, f_2byte, drop_response, buffer_inputs,
}
use scarv_cpu.Rtl.Fetch.Spec.{odd, half, halves, IsServed}
use scarv_cpu.Rtl.Fetch.Requests.{kept}

-- The halfwords that an answer brings.
abbrev pub brought : ℕ → Bool → ℕ → List ℕ
brought zero misaligned word = []
brought (suc k) true word = (word / 2 ^ 16) ∷ []
brought (suc k) false word = (word % 2 ^ 16) ∷ (word / 2 ^ 16) ∷ []

pub pushed-buffer_inputs :
    (s : Fetch) (i : Inputs)
    → pushed (buffer_inputs s i)
      ≡ brought (kept (rsp_recv s i) s.ignore_rsps) s.fetch_misaligned i.imem_rdata
unfolding buffer_inputs f_4byte f_2byte drop_response
pushed-buffer_inputs s i = by_flags (rsp_recv s i) s.fetch_misaligned s.ignore_rsps i.imem_rdata
  where
    by_flags :
        (r m : Bool) (g w : ℕ)
        → (if r && m && not (ltb 0 g)
            then w / 2 ^ 16 ∷ []
            else if r && not m && not (ltb 0 g)
            then (w % 2 ^ 16) ∷ (w / 2 ^ 16) ∷ []
            else [])
          ≡ brought (kept r g) m w
    by_flags false m g w = refl
    by_flags true true zero w = ground arith
    by_flags true true (suc g) w = ground arith
    by_flags true false zero w = ground arith
    by_flags true false (suc g) w = ground arith

module _ (imem : ℕ → ℕ) where
  pub buffer_inputs-IsLegal :
      (s : Fetch) (i : Inputs) (p : List ℕ)
      → IsServed imem s i p
      → IsLegal s.i_core_fetch_buffer (buffer_inputs s i)
  unfolding buffer_inputs f_4byte f_2byte rsp_recv f_ready
  buffer_inputs-IsLegal s i p v = record {
    ready = λ h. ground (arith, h);
    one_way = ground arith;
    word = v.word;
  }

  pub halves-append : (n j k : ℕ) → halves imem n (j + k) ≡ halves imem n j ++ halves imem (n + j) k
  halves-append n zero k = ap₂ (halves imem) (omega arith) (omega arith)
  halves-append n (suc j) k =
      let more : suc j + k ≡ suc (j + k) = omega arith in
      let behind : suc n + j ≡ n + suc j = omega arith in
      ap (halves imem n) more
      ∙ ap (λ hs. half imem n ∷ hs) (halves-append (suc n) j k)
      ∙ ap (λ (m : ℕ). half imem n ∷ (halves imem (suc n) j ++ halves imem m k)) behind

  pub drop-halves : (j n k : ℕ) → drop j (halves imem n k) ≡ halves imem (n + j) (k - j)
  drop-halves zero n k = ap₂ (halves imem) (omega arith) (omega arith)
  drop-halves (suc j) n zero =
      let none : 0 ≡ 0 - suc j = omega arith in ap (halves imem (n + suc j)) none
  drop-halves (suc j) n (suc k) =
      drop-halves j (suc n) k ∙ ap₂ (halves imem) (omega arith) (omega arith)

  -- The answer to the oldest request that counts brings the next halfwords of the memory.
  pub brought-halves :
      (n w k : ℕ)
      → (0 < k → w ≡ imem (4 * (n / 2) % 2 ^ 32))
      → brought k (odd n) w ≡ halves imem n (length (brought k (odd n) w))
  brought-halves n w zero h = refl
  brought-halves n w (suc k) h = ground (arith, h)

-- Where the next answer goes: to the next word, at its start.
pub length-brought : (n w k : ℕ) → k ≤ 1 → (n + length (brought k (odd n) w)) / 2 ≡ n / 2 + k
length-brought n w zero h = omega arith
length-brought n w (suc zero) h = ground arith
length-brought n w (suc (suc k)) h = absurd (omega arith)
