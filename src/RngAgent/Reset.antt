-- ===== src/RngAgent/Reset.antt =====
-- The reset of the agent, and how far its stalls get while it lasts.
use scarv_cpu.Base.{ℕ, ◌+◌, ◌-◌, ◌^◌, ◌≤◌, ◌<◌, ◌≡◌, refl, ◌∙◌, false, inl, [], arith}
use scarv_cpu.CRandom.{CRandom}
use scarv_cpu.RngAgent.{
  RngAgent, RngPins, set_reset, clear_reset, handle_request, handle_response, draw_ready,
  draw_valid, next_response, posedge_clk,
}
use scarv_cpu.RngAgent.Invariant.{Inv}

-- An agent that has answered nothing yet and shows no response, with limits that a reset of `n` edges
-- does not reach.
pub record IsStartable (n : ℕ) (a : RngAgent) : Type 0 where
  pub fits : (a.max_req_stall < 2 ^ 32 - 1) × (a.max_rsp_stall < 2 ^ 32 - 1)
  pub long : (n ≤ a.max_req_stall) × (n ≤ a.max_rsp_stall)
  pub empty : a.rsp_q ≡ []
  pub silent : a.n_rsp_valid ≡ false

pub set_reset-Inv :
    (n : ℕ) (a : RngAgent) (p q : RngPins)
    → IsStartable n a
    → q.rsp_valid ≡ false
    → Inv (set_reset a p).0 q
unfolding set_reset
set_reset-Inv n a p q v silent = record {
  fits = v.fits;
  req_low = λ _. omega arith;
  req_bound = omega arith;
  rsp_low = λ _. omega arith;
  rsp_bound = omega arith;
  shown = λ h. absurd (cc);
  known = inl refl;
  all_known = rw (v.empty) tt;
}

-- The stalls after at most `n` rising edges; the limits stay.
pub record Grown (n : ℕ) (a a' : RngAgent) : Type 0 where
  pub req_limit : a'.max_req_stall ≡ a.max_req_stall
  pub rsp_limit : a'.max_rsp_stall ≡ a.max_rsp_stall
  pub req : a'.req_stall_len ≤ a.req_stall_len + n
  pub rsp : a'.rsp_stall_len ≤ a.rsp_stall_len + n

pub Grown-refl : (a : RngAgent) → Grown 0 a a
Grown-refl a = record { req_limit = refl; rsp_limit = refl; req = omega arith; rsp = omega arith }

pub Grown-trans : {m n : ℕ} {a b c : RngAgent} → Grown m a b → Grown n b c → Grown (m + n) a c
Grown-trans g h = record {
  req_limit = h.req_limit ∙ g.req_limit;
  rsp_limit = h.rsp_limit ∙ g.rsp_limit;
  req = omega (arith, g.req, h.req);
  rsp = omega (arith, g.rsp, h.rsp);
}

module _ (lib : CRandom) where
  handle_request-Grown :
      (a : RngAgent) (p : RngPins) (s : lib.State)
      → let a' = (handle_request lib a p s).0 in
        (a'.max_req_stall ≡ a.max_req_stall)
        × (a'.max_rsp_stall ≡ a.max_rsp_stall)
        × (a'.req_stall_len ≤ a.req_stall_len + 1)
        × (a'.rsp_stall_len ≡ a.rsp_stall_len)
  unfolding handle_request
  handle_request-Grown a p s = ground arith

  handle_response-Grown :
      (a : RngAgent) (p : RngPins)
      → let a' = handle_response a p in
        (a'.max_req_stall ≡ a.max_req_stall)
        × (a'.max_rsp_stall ≡ a.max_rsp_stall)
        × (a'.req_stall_len ≡ a.req_stall_len)
        × (a'.rsp_stall_len ≤ a.rsp_stall_len + 1)
  unfolding handle_response
  handle_response-Grown a p = ground arith

  pub posedge_clk-Grown :
      (a : RngAgent) (p : RngPins) (s : lib.State) → Grown 1 a (posedge_clk lib a p s).0
  unfolding posedge_clk draw_ready draw_valid next_response
  posedge_clk-Grown a p s =
      let (a1, s1) = handle_request lib a p s in
      let g = handle_request-Grown a p s in
      let h = handle_response-Grown a1 p in
      record {
        req_limit = ground (arith, g, h);
        rsp_limit = ground (arith, g, h);
        req = ground (arith, g, h);
        rsp = ground (arith, g, h);
      }

  -- At the end of the reset the invariant holds on, where no stall has passed its limit.
  pub clear_reset-Inv :
      (a : RngAgent) (p : RngPins) (s : lib.State)
      → Inv a p
      → (a.req_stall_len ≤ a.max_req_stall) × (a.rsp_stall_len ≤ a.max_rsp_stall)
      → Inv a (clear_reset lib p s).0
  unfolding clear_reset
  clear_reset-Inv a p s v low = record {
    fits = v.fits;
    req_low = λ _. low.0;
    req_bound = v.req_bound;
    rsp_low = λ _. low.1;
    rsp_bound = v.rsp_bound;
    shown = λ h. absurd (cc);
    known = v.known;
    all_known = v.all_known;
  }
