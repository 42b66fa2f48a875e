-- ===== src/SramAgent/Counters.antt =====
-- The stall counters stay within the limits.
use scarv_cpu.Base.{
  ℕ, suc, ◌^◌, ◌≤◌, ◌<◌, ◌≡◌, ◌⊎◌, inl, inr, refl, ◌∙◌, sym, ap, true, false, not, ◌&&◌, ◌||◌, List,
  [], ◌∷◌, leb, length, length-append, Bool-cases, if◌then◌else◌, arith,
}
use scarv_cpu.CRandom.{CRandom, rand_chance}
use scarv_cpu.Txn.{Txn}
use scarv_cpu.Bus.{Bus}
use scarv_cpu.SramAgent.{
  SramAgent, Pins, CoreOutputs, core_drives, take_request, drive_queue, drive_response, draw_grant,
  posedge_clk, drive_signals, new_request,
}
use scarv_cpu.SramAgent.Cycle.{World, cycle}

-- The two limits fit their type.
pub record HasLimits (a : SramAgent) : Type 0 where
  pub req_fits : a.max_req_stall < 2 ^ 32
  pub rsp_fits : a.max_rsp_stall < 2 ^ 32

-- What the stall counters satisfy between two cycles: a request is not granted only below the limit.
pub record IsBounded (a : SramAgent) (p : Pins) : Type 0 where
  pub limits : HasLimits a
  pub req_low : p.mem_gnt ≡ false → a.req_stall_len < a.max_req_stall
  pub req_bound : a.req_stall_len ≤ a.max_req_stall
  pub rsp_bound : a.rsp_stall_len ≤ a.max_rsp_stall

-- The bounds say nothing of what the core drives.
pub driven-IsBounded :
    (a : SramAgent) (p : Pins) (c : CoreOutputs) → IsBounded a p → IsBounded a (core_drives p c)
unfolding core_drives
driven-IsBounded a p c v = record {
  limits = v.limits;
  req_low = v.req_low;
  req_bound = v.req_bound;
  rsp_bound = v.rsp_bound;
}

-- The length of a request's stall after a rising edge.
abbrev pub req_stall_after : SramAgent → Pins → ℕ
req_stall_after a p =
    if p.mem_req then (if p.mem_gnt then 0 else suc a.req_stall_len) else a.req_stall_len

pub req_stall_after-le :
    {a : SramAgent} {p : Pins} → IsBounded a p → req_stall_after a p ≤ a.max_req_stall
req_stall_after-le v = ground arith

pub take_request_stall :
    (a : SramAgent) (bus : Bus) (p : Pins)
    → IsBounded a p
    → let a1 = (take_request a bus p).0 in
      (a1.max_req_stall ≡ a.max_req_stall)
      × (a1.max_rsp_stall ≡ a.max_rsp_stall)
      × (a1.req_stall_len ≡ req_stall_after a p)
      × (a1.rsp_stall_len ≡ a.rsp_stall_len)
      × (length a.req_q ≤ length a1.req_q)
unfolding take_request
take_request_stall a bus p v =
    ground (arith, v.limits.req_fits, length-append a.req_q (new_request p bus.next_id ∷ []))

module _ (lib : CRandom) where
  draw_grant_stall :
      (a : SramAgent) (s : lib.State)
      → (draw_grant lib a s).0.n_mem_gnt ≡ false
      → a.req_stall_len < a.max_req_stall
  unfolding draw_grant
  draw_grant_stall a s h = ground arith

  drive_queue_stall :
      (a : SramAgent) (bus : Bus) (s : lib.State) (q : List Txn)
      → a.rsp_stall_len ≤ a.max_rsp_stall
      → HasLimits a
      → let a' = (drive_queue lib a bus s q).0 in
        (a'.max_req_stall ≡ a.max_req_stall)
        × (a'.max_rsp_stall ≡ a.max_rsp_stall)
        × (a'.req_stall_len ≡ a.req_stall_len)
        × (a'.n_mem_gnt ≡ a.n_mem_gnt)
        × (a'.rsp_stall_len ≤ a.max_rsp_stall)
        × (0 < length q → (a'.n_mem_recv ≡ true) ⊎ (a'.rsp_stall_len ≡ suc a.rsp_stall_len))
  unfolding drive_queue
  drive_queue_stall a bus s [] h l =
      (refl, refl, refl, refl, omega arith, λ e. absurd (omega arith))
  drive_queue_stall a bus s (t ∷ rest) h l =
      elim (Bool-cases ((rand_chance lib 7 10 s).0 || leb a.max_rsp_stall a.rsp_stall_len)) [
        | inl go ↦ rw (go, drive_queue) (refl, refl, refl, refl, omega arith, λ _. inl refl)
        | inr stay ↦
            let below : a.rsp_stall_len < a.max_rsp_stall = ground arith in
            rw (stay, drive_queue) (refl, refl, refl, refl, omega arith, λ _. inr (omega arith))
      ]

  -- The counters after a rising edge.
  pub posedge_clk_stall :
      (a : SramAgent) (bus : Bus) (p : Pins) (s : lib.State)
      → IsBounded a p
      → let a' = (posedge_clk lib a bus p s).0 in
        (a'.max_req_stall ≡ a.max_req_stall)
        × (a'.max_rsp_stall ≡ a.max_rsp_stall)
        × (a'.req_stall_len ≡ req_stall_after a p)
        × (a'.n_mem_gnt ≡ false → a'.req_stall_len < a.max_req_stall)
        × (a'.rsp_stall_len ≤ a.max_rsp_stall)
        × (p.mem_recv ≡ false
            → 0 < length a.req_q
            → (a'.n_mem_recv ≡ true) ⊎ (a'.rsp_stall_len ≡ suc a.rsp_stall_len))
  unfolding posedge_clk drive_response draw_grant
  posedge_clk_stall a bus p s v =
      let t = take_request_stall a bus p v in
      let a1 = (take_request a bus p).0 in
      let bus1 = (take_request a bus p).1 in
      let a2 = (draw_grant lib a1 s).0 in
      let s2 = (draw_grant lib a1 s).1 in
      let fits : HasLimits a2 = record {
        req_fits = rw t.0 v.limits.req_fits;
        rsp_fits = rw t.1 v.limits.rsp_fits;
      } in
      let d = drive_queue_stall a2 bus1 s2 a1.req_q (omega (arith, t, v.rsp_bound)) fits in
      let low = draw_grant_stall a1 s in
      elim (Bool-cases (p.mem_recv && not p.mem_ack)) [
        | inl wait ↦ rw wait (
          t.0,
          t.1,
          t.2,
          (λ g. omega (arith, low g, t)),
          omega (arith, t, v.rsp_bound),
          λ r. absurd (ground (arith, wait, r)),
        )
        | inr free ↦ rw free (
          d.0 ∙ t.0,
          d.1 ∙ t.1,
          d.2 ∙ t.2,
          (λ g. omega (arith, low (sym d.3 ∙ g), t, d.2)),
          omega (arith, t, d.4),
          λ r q. elim (d.5 (omega (arith, t))) [ inl x ↦ inl x | inr y ↦ inr (y ∙ ap suc t.3) ],
        )
      ]

  -- A rising edge, after which the agent drives its next values, keeps the bounds.
  pub posedge_clk-IsBounded :
      (a : SramAgent) (bus : Bus) (p : Pins) (s : lib.State)
      → IsBounded a p
      → let a' = (posedge_clk lib a bus p s).0 in IsBounded a' (drive_signals a' p)
  unfolding drive_signals
  posedge_clk-IsBounded a bus p s v =
      let e = posedge_clk_stall a bus p s v in
      record {
        limits = record {
          req_fits = rw e.0 v.limits.req_fits;
          rsp_fits = rw e.1 v.limits.rsp_fits;
        };
        req_low = λ g. omega (arith, e.3 g, e.0);
        req_bound = omega (arith, e.2, e.0, req_stall_after-le v);
        rsp_bound = omega (arith, e.4, e.1);
      }

  -- A clock cycle keeps the bounds of the two stall counters, whatever the core drives and whatever
  -- random numbers are drawn.
  pub cycle-IsBounded :
      (w : World lib) (c : CoreOutputs)
      → IsBounded w.agent w.pins
      → IsBounded (cycle lib w c).agent (cycle lib w c).pins
  unfolding cycle
  cycle-IsBounded w c v =
      posedge_clk-IsBounded w.agent w.bus (core_drives w.pins c) w.random
        (driven-IsBounded w.agent w.pins c v)
