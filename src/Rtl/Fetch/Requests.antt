-- ===== src/Rtl/Fetch/Requests.antt =====
-- The requests of the fetch stage that wait for an answer.
use mathlib.Core.List.{append-nil}
use scarv_cpu.Base.{
  ℕ, zero, suc, ◌+◌, ◌-◌, ◌*◌, ◌%◌, ◌^◌, ◌≤◌, ◌<◌, ◌≡◌, refl, sym, ap, ap₂, ◌∙◌, Bool, true, false,
  List, [], ◌∷◌, ◌++◌, if◌then◌else◌, length, length-append, length-drop, get_or, drop, drop-append,
  arith,
}
use scarv_cpu.Rtl.{bit}
use scarv_cpu.Rtl.Fetch.{Fetch, Inputs, rsp_recv, n_reqs_outstanding, progress_imem_addr}
use scarv_cpu.Rtl.Fetch.Spec.{words, accepted, next_pending, IsServed}

-- One where the cycle has an answer that is not ignored.
abbrev pub kept : Bool → ℕ → ℕ
kept false ignore = 0
kept true zero = 1
kept true (suc ignore) = 0

words-snoc : (n k : ℕ) → words n k ++ (4 * (n + k) % 2 ^ 32) ∷ [] ≡ words n (suc k)
words-snoc n zero = ap (λ (a : ℕ). a ∷ []) (omega arith)
words-snoc n (suc k) =
    let place : n + suc k ≡ suc n + k = omega arith in
    ap (λ (m : ℕ). 4 * n % 2 ^ 32 ∷ (words (suc n) k ++ (4 * m % 2 ^ 32) ∷ [])) place
    ∙ ap (λ ws. 4 * n % 2 ^ 32 ∷ ws) (words-snoc (suc n) k)

place :
    {A : Type 0} (f : ℕ → A) (g : ℕ → ℕ → A) {a b m n j k : ℕ}
    → a ≡ b
    → m ≡ n
    → j ≡ k
    → f a ≡ g m j
    → f b ≡ g n k
place f g p q r h = sym (ap f p) ∙ h ∙ ap₂ g q r

-- The requests whose answers count are consecutive words, and stay so.
pub live-next :
    (p g : List ℕ) (ignore n : ℕ) (rsp : Bool)
    → (rsp ≡ true → 0 < length p)
    → ignore ≤ length p
    → drop ignore p ≡ words n (length p - ignore)
    → drop (ignore - bit rsp) ((if rsp then drop 1 p else p) ++ g)
      ≡ words (n + kept rsp ignore) (length p - ignore - kept rsp ignore) ++ g
live-next p g ignore n false a l h =
    place (λ j. drop j (p ++ g)) (λ m k. words m k ++ g) (omega arith) (omega arith) (omega arith)
      (drop-append ignore p g l ∙ ap (λ w. w ++ g) h)
live-next [] g ignore n true a l h = absurd (omega (arith, a refl))
live-next (x ∷ p) g zero n true a l h =
    let first : suc n ≡ n + 1 = omega arith in
    let rest : length p ≡ suc (length p) - 0 - 1 = omega arith in
    let all : suc (length p) - 0 ≡ suc (length p) = omega arith in
    ap (λ w. drop 1 w ++ g) (h ∙ ap (words n) all) ∙ ap₂ (λ m k. words m k ++ g) first rest
live-next (x ∷ p) g (suc ignore) n true a l h =
    place (λ j. drop j (p ++ g)) (λ m k. words m k ++ g) (omega arith) (omega arith) (omega arith)
      (drop-append ignore p g (omega arith) ∙ ap (λ w. w ++ g) h)

module _ (imem : ℕ → ℕ) where
  pub answered :
      (s : Fetch) (i : Inputs) (p : List ℕ)
      → IsServed imem s i p
      → rsp_recv s i ≡ true
      → 0 < length p × (i.imem_rdata ≡ imem (get_or p 0 0))
  unfolding rsp_recv
  answered s i p v h =
      let received : i.imem_recv ≡ true = ground (arith, h) in (v.asked received, v.answer received)

  -- The counter of requests counts those that wait, without wrapping.
  pub n_reqs_outstanding-length :
      (s : Fetch) (i : Inputs) (p : List ℕ)
      → s.reqs_outstanding ≡ length p
      → length p ≤ 7
      → IsServed imem s i p
      → (n_reqs_outstanding s i ≡ length (next_pending s i p)) × (length (next_pending s i p) ≤ 7)
  unfolding n_reqs_outstanding progress_imem_addr
  n_reqs_outstanding-length s i p c f v = ground (
    arith,
    c,
    f,
    v.patient,
    v.asked,
    answered s i p v,
    length-append (if rsp_recv s i then drop 1 p else p) (accepted s i),
    length-drop 1 p,
  )

words-if :
    (granted : Bool) (n k a : ℕ)
    → a ≡ 4 * (n + k) % 2 ^ 32
    → words n k ++ (if granted then a ∷ [] else [])
      ≡ words n (k + length (if granted then a ∷ [] else []))
words-if true n k a h =
    ap (λ (b : ℕ). words n k ++ b ∷ []) h
    ∙ words-snoc n k
    ∙ (let one : suc k ≡ k + 1 = omega arith in ap (words n) one)
words-if false n k a h =
    let none : k ≡ k + 0 = omega arith in append-nil (words n k) ∙ ap (words n) none

-- The word that is asked for follows the ones that wait.
pub words-accepted :
    (s : Fetch) (i : Inputs) (n k : ℕ)
    → s.imem_addr ≡ 4 * (n + k) % 2 ^ 32
    → words n k ++ accepted s i ≡ words n (k + length (accepted s i))
words-accepted s i n k h = words-if (progress_imem_addr s i) n k s.imem_addr h
