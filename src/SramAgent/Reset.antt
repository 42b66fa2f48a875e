-- ===== src/SramAgent/Reset.antt =====
-- The reset of the agent.
use scarv_cpu.Base.{
  suc, ◌≡◌, ◌<◌, ◌≤◌, refl, ◌∙◌, ap, false, List, [], ◌∷◌, length, last_from, replicate, arith,
}
use scarv_cpu.Txn.{Txn}
use scarv_cpu.SramAgent.{SramAgent, Pins, flush, set_reset}
use scarv_cpu.SramAgent.Counters.{IsBounded, HasLimits}

last_from_self :
    (t : Txn) (q : List Txn) → flush (t ∷ q) ≡ replicate (suc (length q)) (last_from t q).id
unfolding flush
last_from_self t [] = refl
last_from_self t (u ∷ q) = ap (λ l. (last_from u q).id ∷ l) (last_from_self u q)

-- `set_reset` empties the queue, withdraws the grant and the response, and deletes the object at the
-- back of the queue once for each entry: with two requests or more it deletes one object several
-- times and the others never.
pub set_reset_deletes :
    (a : SramAgent) (p : Pins) (t : Txn) (q : List Txn)
    → a.req_q ≡ t ∷ q
    → let (a', p', deleted) = set_reset a p in
      (a'.req_q ≡ [])
      × (p'.mem_gnt ≡ false)
      × (p'.mem_recv ≡ false)
      × (deleted ≡ replicate (suc (length q)) (last_from t q).id)
unfolding set_reset
set_reset_deletes a p t q e = (refl, refl, refl, ap flush e ∙ last_from_self t q)

-- An agent that has stalled no request and no response up to its limits, which fit.
pub record IsStartable (a : SramAgent) : Type 0 where
  pub limits : HasLimits a
  pub req_low : a.req_stall_len < a.max_req_stall
  pub rsp_low : a.rsp_stall_len ≤ a.max_rsp_stall

-- A reset puts it in bounds, whatever the pins are then driven to.
pub set_reset-IsBounded :
    (a : SramAgent) (p q : Pins) → IsStartable a → IsBounded (set_reset a p).0 q
unfolding set_reset
set_reset-IsBounded a p q v = record {
  limits = record { req_fits = v.limits.req_fits; rsp_fits = v.limits.rsp_fits };
  req_low = λ _. v.req_low;
  req_bound = omega (arith, v.req_low);
  rsp_bound = v.rsp_low;
}
