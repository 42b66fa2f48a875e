-- ===== src/Rtl/Gprs.antt =====
-- rtl/core/frv_gprs.v: the register file, in a bank of even and one of odd registers, so that an
-- instruction can write a pair at once.
pub mod Writes
use scarv_cpu.Base.{ℕ, ◌+◌, ◌*◌, ◌/◌, ◌%◌, Bool, not, ◌&&◌, ◌||◌, ◌==◌, if◌then◌else◌}

pub record Gprs : Type 0 where
  pub gprs_even : ℕ → ℕ
  pub gprs_odd : ℕ → ℕ

pub record Inputs : Type 0 where
  pub rd_wen : Bool
  pub rd_wide : Bool
  pub rd_addr : ℕ
  pub rd_wdata : ℕ
  pub rd_wdata_hi : ℕ

-- What a read port gives: the wires `gprs`, register 0 being zero.
unfoldable pub gprs : Gprs → ℕ → ℕ
gprs s addr =
    if addr == 0 then 0 else if addr % 2 == 0 then s.gprs_even (addr / 2) else s.gprs_odd (addr / 2)

unfoldable pub rd_wen_even : Inputs → Bool
rd_wen_even i = i.rd_addr % 2 == 0 && i.rd_wen

unfoldable pub rd_wen_odd : Inputs → Bool
rd_wen_odd i = (i.rd_addr % 2 == 1 || i.rd_wide) && i.rd_wen

unfoldable pub rd_wdata_odd : Inputs → ℕ
rd_wdata_odd i = if i.rd_wide then i.rd_wdata_hi else i.rd_wdata

-- The blocks of the 16 pairs: the even register of the first is always 0.
unfoldable pub posedge_clk : Gprs → Inputs → Gprs
unfolding rd_wen_even rd_wen_odd rd_wdata_odd
posedge_clk s i =
    let rd_top = i.rd_addr / 2 in
    record {
      gprs_even = λ n.
          if n == 0 then 0 else if rd_wen_even i && rd_top == n then i.rd_wdata else s.gprs_even n;
      gprs_odd = λ n. if rd_wen_odd i && rd_top == n then rd_wdata_odd i else s.gprs_odd n;
    }
