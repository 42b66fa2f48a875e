-- ===== src/Rtl/Fetch/Registers.antt =====
-- The registers of the fetch stage after a cycle, with a jump and without one.
use scarv_cpu.Base.{
  ℕ, zero, suc, ◌+◌, ◌-◌, ◌*◌, ◌/◌, ◌%◌, ◌^◌, ◌≤◌, ◌<◌, ◌≡◌, refl, Bool, true, false, not, List,
  ◌==◌, if◌then◌else◌, length, length-append, length-drop, get_or, drop, ltb, ap, ap₂, ◌∙◌, ◌&&◌,
  arith,
}
use scarv_cpu.Rtl.{bit}
use scarv_cpu.Rtl.Fetch.{
  Fetch, Inputs, rsp_recv, f_2byte, drop_response, cf_change, n_fetch_misaligned,
  n_reqs_outstanding, n_ignore_rsps, n_imem_addr, next_imem_addr, next_ignore_rsps,
}
use scarv_cpu.Rtl.Fetch.Spec.{words, odd, accepted, next_pending}
use scarv_cpu.Rtl.Fetch.Requests.{kept}
use scarv_cpu.Rtl.Fetch.Responses.{brought}

pub next_ignore_rsps-jump :
    (s : Fetch) (i : Inputs)
    → i.g_resetn ≡ true
    → cf_change s i ≡ true
    → next_ignore_rsps s i ≡ n_reqs_outstanding s i
unfolding next_ignore_rsps
next_ignore_rsps-jump s i r c = rw (r, c)

pub next_imem_addr-jump :
    (s : Fetch) (i : Inputs)
    → i.g_resetn ≡ true
    → cf_change s i ≡ true
    → next_imem_addr s i ≡ i.cf_target / 4 * 4
unfolding next_imem_addr
next_imem_addr-jump s i r c = rw (r, c)

pub n_fetch_misaligned-jump :
    (s : Fetch) (i : Inputs) → cf_change s i ≡ true → n_fetch_misaligned s i ≡ odd (i.cf_target / 2)
unfolding n_fetch_misaligned
n_fetch_misaligned-jump s i c = rw c

pub next_ignore_rsps-straight :
    (s : Fetch) (i : Inputs)
    → i.g_resetn ≡ true
    → cf_change s i ≡ false
    → s.ignore_rsps ≤ 7
    → next_ignore_rsps s i ≡ s.ignore_rsps - bit (rsp_recv s i)
unfolding next_ignore_rsps n_ignore_rsps
next_ignore_rsps-straight s i r c l = ground (arith, r, c, l)

pub next_imem_addr-straight :
    (s : Fetch) (i : Inputs)
    → i.g_resetn ≡ true
    → cf_change s i ≡ false
    → s.imem_addr < 2 ^ 32
    → next_imem_addr s i ≡ (s.imem_addr + 4 * length (accepted s i)) % 2 ^ 32
unfolding next_imem_addr n_imem_addr
next_imem_addr-straight s i r c l = ground (arith, r, c, l)

pub length-next_pending :
    (s : Fetch) (i : Inputs) (p : List ℕ)
    → length (next_pending s i p) ≡ length p - bit (rsp_recv s i) + length (accepted s i)
length-next_pending s i p =
    ground
      (arith, length-append (if rsp_recv s i then drop 1 p else p) (accepted s i), length-drop 1 p)

-- How many of the requests that wait count.
pub kept-count :
    (rsp : Bool) (ignore n a : ℕ)
    → ignore ≤ n
    → (rsp ≡ true → 0 < n)
    → n - bit rsp + a - (ignore - bit rsp) ≡ n - ignore - kept rsp ignore + a
kept-count false ignore n a l h = omega arith
kept-count true zero n a l h = omega (arith, h refl)
kept-count true (suc ignore) n a l h = omega arith

pub kept_le :
    (rsp : Bool) (ignore n : ℕ)
    → (rsp ≡ true → 0 < n)
    → ignore ≤ n
    → kept rsp ignore ≤ 1 × (kept rsp ignore ≤ n - ignore)
kept_le false ignore n h l = (omega arith, omega arith)
kept_le true zero n h l = (omega arith, omega (arith, h refl))
kept_le true (suc ignore) n h l = (omega arith, omega arith)

pub kept-positive : (rsp : Bool) (ignore : ℕ) → 0 < kept rsp ignore → (rsp ≡ true) × (ignore ≡ 0)
kept-positive false ignore h = absurd (omega arith)
kept-positive true zero h = (refl, refl)
kept-positive true (suc ignore) h = absurd (omega arith)

pub get_or-words : (p : List ℕ) (n k : ℕ) → p ≡ words n k → 0 < k → get_or p 0 0 ≡ 4 * n % 2 ^ 32
get_or-words p n zero h l = absurd (omega arith)
get_or-words p n (suc k) h l = ap (λ r. get_or r 0 0) h

-- An answer that brings halfwords leaves the stage at the start of a word.
brought-odd :
    (rsp : Bool) (ignore n w : ℕ)
    → (odd n && not (rsp && odd n && not (ltb 0 ignore)))
      ≡ odd (n + length (brought (kept rsp ignore) (odd n) w))
brought-odd false ignore n w = ground arith
brought-odd true zero n w = ground arith
brought-odd true (suc ignore) n w = ground arith

pub n_fetch_misaligned-straight :
    (s : Fetch) (i : Inputs) (n : ℕ)
    → cf_change s i ≡ false
    → s.fetch_misaligned ≡ odd n
    → n_fetch_misaligned s i
      ≡ odd (n + length (brought (kept (rsp_recv s i) s.ignore_rsps) (odd n) i.imem_rdata))
unfolding n_fetch_misaligned f_2byte drop_response
n_fetch_misaligned-straight s i n c a =
    ap₂
      (λ g m.
        if g
        then i.cf_target / 2 % 2 == 1
        else m && not (rsp_recv s i && m && not (ltb 0 s.ignore_rsps)))
      c a
    ∙ brought-odd (rsp_recv s i) s.ignore_rsps n i.imem_rdata
