-- ===== src/Rtl.antt =====
-- Modules of the core, rtl/core. A signal of one bit is a Boolean and a wider one a number, with the
-- width written out where the code cuts a value off. The registers of a module are a record, the
-- inputs at a rising edge of the clock another, and the module a function from both to the registers
-- after the edge. A wire is a function of what it is computed from.
pub mod FetchBuffer
pub mod Fetch
pub mod Lsu
pub mod Writeback
pub mod Counters
pub mod Gprs
use scarv_cpu.Base.{ℕ, Bool, true, false, if◌then◌else◌}

-- `{n{b}} & x`, where `x` has `n` bits.
abbrev pub gate : Bool → ℕ → ℕ
gate b x = if b then x else 0

-- A bit as a number.
abbrev pub bit : Bool → ℕ
bit true = 1
bit false = 0
