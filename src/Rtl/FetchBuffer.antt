-- ===== src/Rtl/FetchBuffer.antt =====
-- rtl/core/frv_core_fetch_buffer.v: the buffer between the memory and the decoder. Words of four
-- bytes go in, instructions of two or four bytes come out. Its unit is the halfword.
pub mod Halfwords
pub mod Queue
pub mod Stream
pub mod Errors
use scarv_cpu.Base.{
  ℕ, ◌+◌, ◌-◌, ◌*◌, ◌/◌, ◌%◌, ◌^◌, Bool, true, false, not, ◌&&◌, ◌||◌, bit_or, leb, ltb, ◌==◌,
  if◌then◌else◌,
}
use scarv_cpu.Rtl.{bit}

pub record Buffer : Type 0 where
  pub buffer : ℕ
  pub buffer_err : ℕ
  pub bdepth : ℕ

pub record Inputs : Type 0 where
  pub g_resetn : Bool
  pub flush : Bool
  pub f_4byte : Bool
  pub f_2byte : Bool
  pub f_err : Bool
  pub f_in : ℕ
  pub buf_ready : Bool

unfoldable pub buf_out : Buffer → ℕ
buf_out s = s.buffer % 2 ^ 32

unfoldable pub buf_err : Buffer → Bool
buf_err s = not (s.buffer_err % 2 ^ 2 == 0)

unfoldable pub buf_16 : Buffer → Bool
unfolding buf_out
buf_16 s = not (buf_out s % 2 ^ 2 == 3) && ltb 0 s.bdepth

unfoldable pub buf_32 : Buffer → Bool
unfolding buf_out
buf_32 s = buf_out s % 2 ^ 2 == 3 && ltb 0 s.bdepth

unfoldable pub buf_out_2 : Buffer → Bool
unfolding buf_16
buf_out_2 s = leb 1 s.bdepth && buf_16 s

unfoldable pub buf_out_4 : Buffer → Bool
unfolding buf_32
buf_out_4 s = leb 2 s.bdepth && buf_32 s

unfoldable pub buf_valid : Buffer → Bool
unfolding buf_out_2 buf_out_4
buf_valid s = buf_out_2 s || buf_out_4 s

unfoldable pub eat_2 : Buffer → Bool → Bool
unfolding buf_out_2
eat_2 s buf_ready = buf_out_2 s && buf_ready

unfoldable pub eat_4 : Buffer → Bool → Bool
unfolding buf_out_4
eat_4 s buf_ready = buf_out_4 s && buf_ready

unfoldable pub f_ready : Buffer → Bool → Bool
unfolding eat_2 eat_4
f_ready s buf_ready =
    leb s.bdepth 2
    || s.bdepth == 3 && (eat_2 s buf_ready || eat_4 s buf_ready)
    || s.bdepth == 4 && eat_4 s buf_ready

-- `{1'b0, f_4byte, f_2byte}` and `{1'b0, eat_4, eat_2}`
unfoldable pub bdepth_add : Inputs → ℕ
bdepth_add i = 2 * bit i.f_4byte + bit i.f_2byte

unfoldable pub bdepth_sub : Buffer → Bool → ℕ
unfolding eat_2 eat_4
bdepth_sub s buf_ready = 2 * bit (eat_4 s buf_ready) + bit (eat_2 s buf_ready)

unfoldable pub insert_at : Buffer → Bool → ℕ
unfolding bdepth_sub
insert_at s buf_ready = (s.bdepth + 8 - bdepth_sub s buf_ready) % 8

unfoldable pub n_bdepth : Buffer → Inputs → ℕ
unfolding bdepth_add bdepth_sub
n_bdepth s i = (s.bdepth + bdepth_add i + 8 - bdepth_sub s i.buf_ready) % 8

unfoldable pub n_buffer_d : Inputs → ℕ
n_buffer_d i = if i.f_2byte then i.f_in / 2 ^ 16 else if i.f_4byte then i.f_in else 0

unfoldable pub n_buffer : Buffer → Inputs → ℕ
unfolding n_buffer_d insert_at bdepth_sub
n_buffer s i =
    bit_or (n_buffer_d i * 2 ^ (16 * insert_at s i.buf_ready) % 2 ^ 64)
      (s.buffer / 2 ^ (16 * bdepth_sub s i.buf_ready))

unfoldable pub n_buffer_err : Buffer → Inputs → ℕ
unfolding insert_at
n_buffer_err s i =
    let n_err_in = i.f_err && (i.f_2byte || i.f_4byte) in
    bit_or (3 * bit n_err_in * 2 ^ insert_at s i.buf_ready % 2 ^ 4)
      (s.buffer_err / 2 ^ insert_at s i.buf_ready)

unfoldable pub posedge_clk : Buffer → Inputs → Buffer
unfolding n_buffer n_buffer_err n_bdepth
posedge_clk s i =
    if not i.g_resetn || i.flush
    then record { buffer = 0; buffer_err = 0; bdepth = 0 }
    else if i.f_4byte || i.f_2byte || i.buf_ready
    then record { buffer = n_buffer s i; buffer_err = n_buffer_err s i; bdepth = n_bdepth s i }
    else s
