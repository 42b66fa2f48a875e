-- ===== src/Rtl/Lsu/Once.antt =====
-- An instruction makes at most one request.
use scarv_cpu.Base.{ℕ, ◌+◌, ◌≡◌, ap, true, false, ◌&&◌, List, [], ◌∷◌, arith}
use scarv_cpu.Rtl.{bit}
use scarv_cpu.Rtl.Lsu.{
  Lsu, Inputs, Params, lsu_mmio, lsu_a_error, dmem_req, dmem_txn_done, n_lsu_finished, posedge_clk,
}

-- How many requests the memory accepts over a run of cycles.
abbrev pub requests : Params → Lsu → List Inputs → ℕ
requests g s [] = 0
requests g s (i ∷ is) = bit (dmem_req g s i && i.dmem_gnt) + requests g (posedge_clk g s i) is

abbrev pub run : Params → Lsu → List Inputs → Lsu
run g s [] = s
run g s (i ∷ is) = run g (posedge_clk g s i) is

-- Cycles in which a load or store of the memory stays in the stage: neither a reset nor a step of the
-- pipeline, and an address that is aligned and not that of the memory mapped registers.
abbrev pub Waits : Params → List Inputs → Type 0
Waits g [] = Unit {0}
Waits g (i ∷ is) =
    ((i.g_resetn ≡ true)
      × (i.pipe_prog ≡ false)
      × (i.lsu_valid ≡ true)
      × (lsu_mmio g i ≡ false)
      × (lsu_a_error i ≡ false))
    × Waits g is

-- In one cycle the unit finishes exactly by a request that the memory accepts.
step-lsu_finished :
    (g : Params) (s : Lsu) (i : Inputs)
    → i.g_resetn ≡ true
    → i.pipe_prog ≡ false
    → i.lsu_valid ≡ true
    → lsu_mmio g i ≡ false
    → lsu_a_error i ≡ false
    → bit (posedge_clk g s i).lsu_finished ≡ bit s.lsu_finished + bit (dmem_req g s i && i.dmem_gnt)
unfolding posedge_clk n_lsu_finished dmem_txn_done dmem_req
step-lsu_finished g s i r p v m e = ground (arith, r, p, v, m, e)

counts :
    (g : Params) (s : Lsu) (is : List Inputs)
    → Waits g is
    → bit (run g s is).lsu_finished ≡ bit s.lsu_finished + requests g s is
counts g s [] w = omega arith
counts g s (i ∷ is) (w, ws) =
    omega (arith, counts g (posedge_clk g s i) is ws, step-lsu_finished g s i w.0 w.1 w.2 w.3 w.4)

-- However long a load or store waits in the stage, with neither a reset nor a step of the
-- pipeline, at an aligned address that is not one of the memory mapped registers: the memory
-- accepts its request at most once, and the unit counts as finished exactly where it has accepted
-- it, if it did not before.
pub requests-lsu_finished :
    (g : Params) (s : Lsu) (is : List Inputs)
    → Waits g is
    → s.lsu_finished ≡ false
    → bit (run g s is).lsu_finished ≡ requests g s is
requests-lsu_finished g s is w f = omega (arith, counts g s is w, ap bit f)
