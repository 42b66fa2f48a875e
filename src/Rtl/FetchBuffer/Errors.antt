-- ===== src/Rtl/FetchBuffer/Errors.antt =====
-- The error bits of the fetch buffer: bit `n` belongs to the halfword `n` of the buffer.
use scarv_cpu.Base.{
  ℕ, ◌*◌, ◌/◌, ◌%◌, ◌^◌, ◌<◌, ◌≡◌, ap, ap₂, ◌∙◌, true, false, ◌&&◌, ◌||◌, bit_or, bit_or_high,
  arith,
}
use scarv_cpu.Rtl.{bit}
use scarv_cpu.Rtl.FetchBuffer.{
  Buffer, Inputs, buf_err, insert_at, bdepth_sub, eat_2, eat_4, n_buffer_err, posedge_clk,
}

waiting_insert_at : (s : Buffer) → s.bdepth < 8 → insert_at s false ≡ s.bdepth
unfolding insert_at bdepth_sub eat_2 eat_4
waiting_insert_at s h = ground (arith, h)

or_in : Inputs → ℕ
or_in i = 3 * bit (i.f_err && (i.f_2byte || i.f_4byte))

dropped_bits :
    (s : Buffer) (i : Inputs)
    → s.bdepth ≡ 2
    → s.buffer_err < 4
    → i.buf_ready ≡ false
    → n_buffer_err s i % 4 ≡ 0
unfolding n_buffer_err or_in
dropped_bits s i d e w =
    let place : insert_at s i.buf_ready ≡ 2 =
      ap (λ b. insert_at s b) w ∙ waiting_insert_at s (omega (arith, d)) ∙ d in
    let gone : s.buffer_err / 2 ^ 2 ≡ 0 = omega (arith, e) in
    let above : or_in i * 2 ^ 2 % 2 ^ 4 ≡ (or_in i % 4) * 2 ^ 2 = omega arith in
    ap (λ (n : ℕ). bit_or (or_in i * 2 ^ n % 2 ^ 4) (s.buffer_err / 2 ^ n) % 4) place
    ∙ ap₂ (λ (a b : ℕ). bit_or a b % 4) above gone
    ∙ omega (arith, bit_or_high 2 (or_in i % 4) 0 (omega arith))

pushed-buffer_err :
    (s : Buffer) (i : Inputs)
    → i.g_resetn ≡ true
    → i.flush ≡ false
    → i.f_4byte ≡ true
    → (posedge_clk s i).buffer_err ≡ n_buffer_err s i
unfolding posedge_clk
pushed-buffer_err s i r f p = rw (r, f, p)

-- Two halfwords wait in the buffer, with or without an error of the memory, nothing takes them,
-- and there is neither a reset nor a flush. A word that enters then clears the error output: the
-- bits are shifted by the place of the new word and not by what leaves the buffer, so that the
-- waiting instruction loses its error.
pub posedge_clk-drops_held_error :
    (s : Buffer) (i : Inputs)
    → s.bdepth ≡ 2
    → s.buffer_err < 4
    → i.g_resetn ≡ true
    → i.flush ≡ false
    → i.f_4byte ≡ true
    → i.buf_ready ≡ false
    → buf_err (posedge_clk s i) ≡ false
unfolding buf_err
posedge_clk-drops_held_error s i d e r f p w =
    ground (arith, pushed-buffer_err s i r f p, dropped_bits s i d e w)
