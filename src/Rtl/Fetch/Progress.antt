-- ===== src/Rtl/Fetch/Progress.antt =====
-- The requests of the fetch stage on the bus: they stay until they are granted, and they do not stop.
use scarv_cpu.Base.{ℕ, ◌≤◌, ◌≡◌, ap, true, false, List, [], ◌∷◌, length, arith}
use scarv_cpu.Rtl.FetchBuffer.{Buffer, buf_valid, buf_out_2, buf_out_4}
use scarv_cpu.Rtl.FetchBuffer
use scarv_cpu.Rtl.FetchBuffer.Queue.{Holds, whole-Holds}
use scarv_cpu.Rtl.Fetch.{
  Fetch, Inputs, s1_valid, f_ready, cf_ack, cf_change, progress_imem_addr, n_imem_req,
  next_imem_addr, allow_new_mem_req, posedge_clk,
}
use scarv_cpu.Rtl.Fetch.Stream.{Reached, reached-Fetches}

-- Without a reset, a request that the memory does not accept stays on the bus with its address,
-- whatever control flow asks for.
pub posedge_clk-holds_request :
    (s : Fetch) (i : Inputs)
    → i.g_resetn ≡ true
    → s.imem_req ≡ true
    → i.imem_gnt ≡ false
    → ((posedge_clk s i).imem_req ≡ true) × ((posedge_clk s i).imem_addr ≡ s.imem_addr)
unfolding posedge_clk n_imem_req next_imem_addr cf_change cf_ack progress_imem_addr
posedge_clk-holds_request s i r q g = (ground (arith, r, q, g), ground (arith, r, q, g))

short : (b : Buffer) (q : List ℕ) → Holds b q → buf_valid b ≡ false → b.bdepth ≤ 2
unfolding buf_valid
short b [] h v = omega (arith, h.depth)
short b (x ∷ []) h v = omega (arith, h.depth)
short b (x ∷ y ∷ q) h v = ground (arith, v, whole-Holds b (x ∷ y ∷ q) h)

module _ (imem : ℕ → ℕ) where
  -- In a state that is reached from a reset, and without a reset in this cycle: where the stage
  -- has no instruction for the decoder, it takes an answer of the memory at once, and where no
  -- request waits for one, it asks for a word in the next cycle.
  pub f_ready-starved :
      (s : Fetch) (p : List ℕ) (i : Inputs)
      → Reached imem s p
      → i.g_resetn ≡ true
      → s1_valid s ≡ false
      → (f_ready s i ≡ true) × (p ≡ [] → (posedge_clk s i).imem_req ≡ true)
  unfolding s1_valid f_ready posedge_clk n_imem_req allow_new_mem_req FetchBuffer.f_ready
  f_ready-starved s p i r n v =
      let (pc, (q, f)) = reached-Fetches imem s p r in
      let few = short s.i_core_fetch_buffer q f.held v in
      (ground (arith, few), λ none. ground (arith, n, few, f.counted, ap length none))
