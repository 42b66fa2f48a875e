-- ===== src/Rtl/Lsu.antt =====
-- rtl/core/frv_lsu.v: the unit that asks the memory for loads and stores.
pub mod Store
pub mod Once
pub mod Lanes
pub mod Memory
use Prim.Native.Nat.{bit_and}
use scarv_cpu.Base.{
  ℕ, ◌+◌, ◌*◌, ◌/◌, ◌%◌, ◌^◌, Bool, true, false, not, ◌&&◌, ◌||◌, bit_or, ◌==◌, if◌then◌else◌,
}
use scarv_cpu.Rtl.{bit, gate}

pub record Lsu : Type 0 where
  pub mmio_done : Bool
  pub lsu_finished : Bool

-- The instruction, the state of the pipeline, and the memory's grant.
pub record Inputs : Type 0 where
  pub g_resetn : Bool
  pub lsu_valid : Bool
  pub pipe_prog : Bool
  pub lsu_addr : ℕ
  pub lsu_wdata : ℕ
  pub lsu_load : Bool
  pub lsu_store : Bool
  pub lsu_byte : Bool
  pub lsu_half : Bool
  pub lsu_word : Bool
  pub lsu_signed : Bool
  pub hold_lsu_req : Bool
  pub dmem_gnt : Bool

-- The parameters `MMIO_BASE_ADDR` and `MMIO_BASE_MASK`.
pub record Params : Type 0 where
  pub mmio_base_addr : ℕ
  pub mmio_base_mask : ℕ

unfoldable pub lsu_mmio : Params → Inputs → Bool
lsu_mmio g i = i.lsu_valid && bit_and i.lsu_addr g.mmio_base_mask == g.mmio_base_addr

unfoldable pub mmio_en : Params → Lsu → Inputs → Bool
unfolding lsu_mmio
mmio_en g s i = lsu_mmio g i && not s.mmio_done && not i.hold_lsu_req

unfoldable pub n_mmio_done : Params → Lsu → Inputs → Bool
unfolding mmio_en
n_mmio_done g s i = (s.mmio_done || mmio_en g s i) && not i.pipe_prog

unfoldable pub lsu_a_error : Inputs → Bool
lsu_a_error i = i.lsu_half && i.lsu_addr % 2 == 1 || i.lsu_word && not (i.lsu_addr % 4 == 0)

unfoldable pub dmem_req : Params → Lsu → Inputs → Bool
unfolding lsu_mmio lsu_a_error
dmem_req g s i =
    i.lsu_valid
    && not s.lsu_finished
    && not (lsu_a_error i)
    && not i.hold_lsu_req
    && not (lsu_mmio g i)

unfoldable pub dmem_txn_done : Params → Lsu → Inputs → Bool
unfolding lsu_mmio dmem_req mmio_en
dmem_txn_done g s i =
    not (lsu_mmio g i) && dmem_req g s i && i.dmem_gnt || lsu_mmio g i && mmio_en g s i

unfoldable pub n_lsu_finished : Params → Lsu → Inputs → Bool
unfolding dmem_txn_done lsu_a_error
n_lsu_finished g s i =
    (s.lsu_finished || (i.lsu_valid && dmem_txn_done g s i || lsu_a_error i)) && not i.pipe_prog

unfoldable pub lsu_ready : Params → Lsu → Inputs → Bool
unfolding dmem_txn_done
lsu_ready g s i = dmem_txn_done g s i || s.lsu_finished

unfoldable pub posedge_clk : Params → Lsu → Inputs → Lsu
unfolding n_mmio_done n_lsu_finished
posedge_clk g s i = record {
  mmio_done = i.g_resetn && n_mmio_done g s i;
  lsu_finished = i.g_resetn && n_lsu_finished g s i;
}

unfoldable pub dmem_addr : Inputs → ℕ
dmem_addr i = i.lsu_addr / 4 * 4

unfoldable pub dmem_wdata : Inputs → ℕ
dmem_wdata i =
    let low = i.lsu_addr % 4 in
    let b = i.lsu_wdata % 2 ^ 8 in
    let h = i.lsu_wdata % 2 ^ 16 in
    bit_or
      (bit_or
        (bit_or
          (bit_or
            (bit_or
              (bit_or (gate (i.lsu_byte && low == 0) b) (gate (i.lsu_byte && low == 1) (b * 2 ^ 8)))
              (gate (i.lsu_byte && low == 2) (b * 2 ^ 16)))
            (gate (i.lsu_byte && low == 3) (b * 2 ^ 24)))
          (gate (i.lsu_half && low / 2 == 1) (h * 2 ^ 16)))
        (gate (i.lsu_half && low / 2 == 0) h))
      (gate i.lsu_word i.lsu_wdata)

-- The strobe of one byte lane.
unfoldable pub dmem_strb_at : Inputs → ℕ → Bool
dmem_strb_at i lane =
    i.lsu_byte && i.lsu_addr % 4 == lane
    || i.lsu_half && i.lsu_addr % 4 / 2 == lane / 2
    || i.lsu_word

unfoldable pub dmem_strb : Inputs → ℕ
unfolding dmem_strb_at
dmem_strb i =
    bit (dmem_strb_at i 0)
    + 2 * bit (dmem_strb_at i 1)
    + 4 * bit (dmem_strb_at i 2)
    + 8 * bit (dmem_strb_at i 3)
