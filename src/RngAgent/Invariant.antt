-- ===== src/RngAgent/Invariant.antt =====
-- What holds of the agent between two cycles.
use scarv_cpu.Base.{
  ℕ, ◌+◌, ◌-◌, ◌^◌, ◌≤◌, ◌<◌, ◌≡◌, ◌⊎◌, refl, true, false, not, ◌&&◌, List, [], ◌∷◌, ◌++◌, arith,
}
use scarv_cpu.CRandom.{CRandom, rand_chance}
use scarv_cpu.RngAgent.{
  RngAgent, RngPins, RngTxn, rng_status_noinit, rng_status_init_healthy, rng_status_init_unhealthy,
  some_queue, tail, handle_request, handle_response, draw_ready, draw_valid, next_response,
  posedge_clk, drive_signals,
}
use scarv_cpu.RngAgent.Cycle.{World, CoreOutputs, core_drives, cycle}

abbrev IsStatus : ℕ → Type 0
IsStatus s =
    (s ≡ rng_status_noinit) ⊎ (s ≡ rng_status_init_unhealthy) ⊎ (s ≡ rng_status_init_healthy)

abbrev AllStatus : List RngTxn → Type 0
AllStatus [] = Unit {0}
AllStatus (t ∷ q) = IsStatus t.status × AllStatus q

-- The first of the queue has the data and status on the response channel.
abbrev pub Shows : List RngTxn → ℕ → ℕ → Type 0
Shows [] word status = ⊥
Shows (t ∷ q) word status = (word ≡ t.word) × (status ≡ t.status)

pub record Inv (a : RngAgent) (p : RngPins) : Type 0 where
  pub fits : (a.max_req_stall < 2 ^ 32 - 1) × (a.max_rsp_stall < 2 ^ 32 - 1)
  pub req_low : p.req_ready ≡ false → a.req_stall_len ≤ a.max_req_stall
  pub req_bound : a.req_stall_len ≤ a.max_req_stall + 1
  pub rsp_low : p.rsp_valid ≡ false → a.rsp_stall_len ≤ a.max_rsp_stall
  pub rsp_bound : a.rsp_stall_len ≤ a.max_rsp_stall + 1
  pub shown : p.rsp_valid ≡ true → Shows a.rsp_q p.rsp_data p.rsp_status
  pub known : IsStatus a.status
  pub all_known : AllStatus a.rsp_q

AllStatus-snoc :
    (q : List RngTxn) (t : RngTxn) → AllStatus q → IsStatus t.status → AllStatus (q ++ t ∷ [])
AllStatus-snoc [] t h k = (k, tt)
AllStatus-snoc (u ∷ q) t h k = (h.0, AllStatus-snoc q t h.1 k)

Shows-snoc :
    (q : List RngTxn) (t : RngTxn) (word status : ℕ)
    → Shows q word status
    → Shows (q ++ t ∷ []) word status
Shows-snoc [] t word status h = absurd h
Shows-snoc (u ∷ q) t word status h = h

-- Each part of a rising edge keeps what the later parts need.
pub record Requested (a a1 : RngAgent) (p : RngPins) : Type 0 where
  req_limit : a1.max_req_stall ≡ a.max_req_stall
  rsp_limit : a1.max_rsp_stall ≡ a.max_rsp_stall
  req_bound : a1.req_stall_len ≤ a.max_req_stall + 1
  rsp_same : a1.rsp_stall_len ≡ a.rsp_stall_len
  pub shown : p.rsp_valid ≡ true → Shows a1.rsp_q p.rsp_data p.rsp_status
  known : IsStatus a1.status
  all_known : AllStatus a1.rsp_q

module _ (lib : CRandom) where
  pub handle_request-Requested :
      (a : RngAgent) (p : RngPins) (s : lib.State)
      → Inv a p
      → Requested a (handle_request lib a p s).0 p
  unfolding handle_request
  handle_request-Requested a p s v =
      let t : RngTxn = record {
        word = (lib.rand (rand_chance lib 9 10 s).1).0;
        status = a.status;
      } in
      record {
        req_limit = ground arith;
        rsp_limit = ground arith;
        req_bound = ground (arith, v.fits.0);
        rsp_same = ground arith;
        shown = λ h.
            ground (arith, Shows-snoc a.rsp_q t p.rsp_data p.rsp_status (v.shown h), v.shown h);
        known = ground (arith, v.known);
        all_known = ground (arith, AllStatus-snoc a.rsp_q t v.all_known v.known);
      }

Shows-ne : (q : List RngTxn) (word status : ℕ) → Shows q word status → some_queue q ≡ true
Shows-ne [] word status h = absurd h
Shows-ne (t ∷ q) word status h = refl

AllStatus-tail : (q : List RngTxn) → AllStatus q → AllStatus (tail q)
AllStatus-tail [] h = tt
AllStatus-tail (t ∷ q) h = h.1

record Responded (a a2 : RngAgent) (p : RngPins) : Type 0 where
  req_limit : a2.max_req_stall ≡ a.max_req_stall
  rsp_limit : a2.max_rsp_stall ≡ a.max_rsp_stall
  req_bound : a2.req_stall_len ≤ a.max_req_stall + 1
  rsp_bound : a2.rsp_stall_len ≤ a.max_rsp_stall + 1
  rsp_low : some_queue a2.rsp_q ≡ false → a2.rsp_stall_len ≤ a.max_rsp_stall
  waits : p.rsp_valid && not p.rsp_ready ≡ true → some_queue a2.rsp_q ≡ true
  known : IsStatus a2.status
  all_known : AllStatus a2.rsp_q

handle_response-Responded :
    (a a1 : RngAgent) (p : RngPins)
    → Inv a p
    → Requested a a1 p
    → Responded a (handle_response a1 p) p
unfolding handle_response
handle_response-Responded a a1 p v r = record {
  req_limit = ground (arith, r.req_limit);
  rsp_limit = ground (arith, r.rsp_limit);
  req_bound = ground (arith, r.req_bound);
  rsp_bound = ground (arith, v.fits.1, r.rsp_same, v.rsp_low);
  rsp_low = λ h. ground (arith, v.fits.1, r.rsp_same, v.rsp_low, h);
  waits = λ h. ground (arith, r.shown, Shows-ne a1.rsp_q p.rsp_data p.rsp_status);
  known = ground (arith, r.known);
  all_known = ground (arith, r.all_known, AllStatus-tail a1.rsp_q);
}

next_response_lem :
    (a : RngAgent) (q : List RngTxn)
    → let a' = next_response a q in
      (some_queue q ≡ true → Shows q a'.n_rsp_data a'.n_rsp_status)
      × (a' ≡ record a { n_rsp_data = a'.n_rsp_data; n_rsp_status = a'.n_rsp_status })
unfolding next_response
next_response_lem a [] = (λ h. absurd (cc), refl)
next_response_lem a (t ∷ q) = (λ _. (refl, refl), refl)

-- The invariant says nothing of what the core drives.
pub driven-Inv : (a : RngAgent) (p : RngPins) (c : CoreOutputs) → Inv a p → Inv a (core_drives p c)
unfolding core_drives
driven-Inv a p c v = record {
  fits = v.fits;
  req_low = v.req_low;
  req_bound = v.req_bound;
  rsp_low = v.rsp_low;
  rsp_bound = v.rsp_bound;
  shown = v.shown;
  known = v.known;
  all_known = v.all_known;
}

module _ (lib : CRandom) where
  -- A rising edge, after which the agent drives its next values, keeps the invariant.
  pub posedge_clk-Inv :
      (a : RngAgent) (p : RngPins) (s : lib.State)
      → Inv a p
      → Inv (posedge_clk lib a p s).0 (drive_signals (posedge_clk lib a p s).0 p)
  unfolding posedge_clk draw_ready draw_valid drive_signals
  posedge_clk-Inv a p s v =
      let a1 = (handle_request lib a p s).0 in
      let s1 = (handle_request lib a p s).1 in
      let a2 = handle_response a1 p in
      let a3 = (draw_ready lib a2 s1).0 in
      let s3 = (draw_ready lib a2 s1).1 in
      let a4 = (draw_valid lib a3 p s3).0 in
      let r = handle_response-Responded a a1 p v (handle_request-Requested lib a p s v) in
      let n = next_response_lem a4 a4.rsp_q in
      rw n.1 record {
        fits = ground (arith, r.req_limit, r.rsp_limit, v.fits);
        req_low = ground (arith, r.req_limit);
        req_bound = ground (arith, r.req_limit, r.req_bound);
        rsp_low = ground (arith, r.rsp_limit, r.rsp_low);
        rsp_bound = ground (arith, r.rsp_limit, r.rsp_bound);
        shown = λ h. n.0 (ground (arith, r.waits, h));
        known = ground (arith, r.known);
        all_known = ground (arith, r.all_known);
      }

  pub cycle-Inv :
      (w : World lib) (c : CoreOutputs)
      → Inv w.agent w.pins
      → Inv (cycle lib w c).agent (cycle lib w c).pins
  unfolding cycle
  cycle-Inv w c v =
      posedge_clk-Inv w.agent (core_drives w.pins c) w.random (driven-Inv w.agent w.pins c v)
