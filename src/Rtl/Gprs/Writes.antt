-- ===== src/Rtl/Gprs/Writes.antt =====
-- What a write to the register file leaves in each register.
use scarv_cpu.Base.{ℕ, suc, ◌%◌, ◌≡◌, not, ◌&&◌, ◌||◌, ◌==◌, if◌then◌else◌, arith}
use scarv_cpu.Rtl.Gprs.{Gprs, Inputs, gprs, rd_wen_even, rd_wen_odd, rd_wdata_odd, posedge_clk}

-- After a cycle, register 0 reads as zero. A write of one word is read back from its register, and a
-- wide write of an even register from that one and the next; a wide write of an odd register leaves
-- there the high word. Every other register reads as before, and so do all without a write.
pub gprs-posedge_clk :
    (s : Gprs) (i : Inputs) (addr : ℕ)
    → gprs (posedge_clk s i) addr ≡ (
        if not i.rd_wen || addr == 0
        then gprs s addr
        else if addr == i.rd_addr
        then if i.rd_wide && addr % 2 == 1 then i.rd_wdata_hi else i.rd_wdata
        else if i.rd_wide && i.rd_addr % 2 == 0 && addr == suc i.rd_addr
        then i.rd_wdata_hi
        else gprs s addr)
unfolding gprs posedge_clk rd_wen_even rd_wen_odd rd_wdata_odd
gprs-posedge_clk s i addr = ground arith
