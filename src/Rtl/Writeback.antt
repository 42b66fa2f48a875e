-- ===== src/Rtl/Writeback.antt =====
-- rtl/core/frv_pipeline_writeback.v: how the data of a memory response become the value of a load.
pub mod Loads
use scarv_cpu.Base.{ℕ, ◌+◌, ◌-◌, ◌*◌, ◌/◌, ◌%◌, ◌^◌, Bool, ◌&&◌, bit_or, ◌==◌, if◌then◌else◌}
use scarv_cpu.Rtl.{gate}

-- The load instruction, its strobes, and the word that answers it.
pub record Load : Type 0 where
  pub lsu_strb : ℕ
  pub lsu_byte : Bool
  pub lsu_half : Bool
  pub lsu_word : Bool
  pub lsu_signed : Bool
  pub lsu_addr : ℕ
  pub mem_rdata : ℕ

abbrev byte_at : ℕ → ℕ → ℕ
byte_at n w = w / 2 ^ (8 * n) % 2 ^ 8

unfoldable pub rdata_b0 : Load → ℕ
rdata_b0 l =
    let low = l.lsu_addr % 4 in
    let w = l.mem_rdata in
    bit_or
      (bit_or
        (bit_or
          (bit_or (gate (l.lsu_strb % 2 == 1) (byte_at 0 w))
            (gate (l.lsu_byte && low == 1) (byte_at 1 w)))
          (gate (l.lsu_byte && low == 2) (byte_at 2 w)))
        (gate (l.lsu_half && low / 2 == 1) (byte_at 2 w)))
      (gate (l.lsu_byte && low == 3) (byte_at 3 w))

unfoldable pub rdata_b1 : Load → ℕ
unfolding rdata_b0
rdata_b1 l =
    let low = l.lsu_addr % 4 in
    let w = l.mem_rdata in
    bit_or
      (bit_or
        (bit_or (gate (l.lsu_byte && l.lsu_signed) (gate (rdata_b0 l / 2 ^ 7 == 1) (2 ^ 8 - 1)))
          (gate (l.lsu_half && low / 2 == 0) (byte_at 1 w)))
        (gate l.lsu_word (byte_at 1 w)))
      (gate (l.lsu_half && low / 2 == 1) (byte_at 3 w))

unfoldable pub rdata_h1 : Load → ℕ
unfolding rdata_b1
rdata_h1 l =
    let sign = gate (rdata_b1 l / 2 ^ 7 == 1) (2 ^ 16 - 1) in
    bit_or
      (bit_or (gate (l.lsu_byte && l.lsu_signed) sign) (gate (l.lsu_half && l.lsu_signed) sign))
      (gate l.lsu_word (l.mem_rdata / 2 ^ 16))

unfoldable pub lsu_rdata : Load → ℕ
unfolding rdata_b0 rdata_b1 rdata_h1
lsu_rdata l = rdata_h1 l * 2 ^ 16 + rdata_b1 l * 2 ^ 8 + rdata_b0 l
