-- ===== src/Fsbl.antt =====
-- src/fsbl/fsbl.c: the first stage boot loader. The UART and the LEDs are hardware: reads and writes
-- of their registers are a parameter. The memory that the program is loaded to is a map from
-- addresses to bytes. Each loop that waits for the UART takes fuel; `none` means that it ran out.
pub mod Loads
use scarv_cpu.Base.{
  ℕ, zero, suc, ◌+◌, ◌*◌, ◌/◌, ◌%◌, ◌^◌, Bool, true, false, not, List, [], ◌∷◌, Option, none, some,
  ◌>>=◌, bit_or, leb, ◌==◌, u32, if◌then◌else◌, Text, codes,
}
use scarv_cpu.OrdMap.{OrdMap, put}

-- The registers by their index, as words.
pub record Hardware : Type 1 where
  pub State : Type 0
  pub uart_read : ℕ → State → ℕ × State
  pub uart_write : ℕ → ℕ → State → State
  pub gpio_read : ℕ → State → ℕ × State
  pub gpio_write : ℕ → ℕ → State → State

abbrev pub gpio_leds : ℕ
gpio_leds = 2

abbrev pub uart_rx : ℕ
uart_rx = 0

abbrev pub uart_tx : ℕ
uart_tx = 1

abbrev pub uart_st : ℕ
uart_st = 2

abbrev pub uart_ct : ℕ
uart_ct = 3

abbrev pub uart_ctrl_rst_tx_fifo : ℕ
uart_ctrl_rst_tx_fifo = 1

abbrev pub uart_ctrl_rst_rx_fifo : ℕ
uart_ctrl_rst_rx_fifo = 2

-- `status & UART_STATUS_RX_VALID` and `status & UART_STATUS_TX_FULL`
abbrev pub rx_valid : ℕ → Bool
rx_valid status = status / 2 ^ 0 % 2 == 1

abbrev pub tx_full : ℕ → Bool
tx_full status = status / 2 ^ 3 % 2 == 1

abbrev pub welcome : Text
welcome = codes "scarv-cpu fsbl\n"

module _ (hw : Hardware) where
  open hw use {State, uart_read, uart_write, gpio_read, gpio_write}

  -- `uart_rd_char`
  uart_rd_char : ℕ → State → Option (ℕ × State)
  uart_rd_char zero s = none
  uart_rd_char (suc fuel) s =
      let (status, s') = uart_read uart_st s in
      elim (rx_valid status) [
        | true ↦ let (word, s'') = uart_read uart_rx s' in some (word % 256, s'')
        | false ↦ uart_rd_char fuel s'
      ]

  unfoldable pub fsbl_uart_setup : State → State
  fsbl_uart_setup s = uart_write uart_ct (bit_or uart_ctrl_rst_tx_fifo uart_ctrl_rst_rx_fifo) s

  -- The wait before a character of the welcome message.
  wait_tx : ℕ → State → Option State
  wait_tx zero s = none
  wait_tx (suc fuel) s =
      let (status, s') = uart_read uart_st s in
      elim (tx_full status) [ true ↦ wait_tx fuel s' | false ↦ some s' ]

  -- The loop of `fsbl_print_welcome`.
  print_text : ℕ → Text → State → Option State
  print_text fuel [] s = some s
  print_text fuel (c ∷ cs) s = elim (wait_tx fuel s) [
    | none ↦ none
    | some s' ↦ print_text fuel cs (uart_write uart_tx c s')
  ]

  unfoldable pub set_leds : ℕ → State → State
  set_leds w s = gpio_write gpio_leds w s

  -- Four characters as a word. C leaves the order of the four calls open; here it is from left to
  -- right.
  rd_word : ℕ → State → Option (ℕ × State)
  rd_word fuel s = do
    (b3, s3) ← uart_rd_char fuel s
    (b2, s2) ← uart_rd_char fuel s3
    (b1, s1) ← uart_rd_char fuel s2
    (b0, s0) ← uart_rd_char fuel s1
    some (bit_or (bit_or (bit_or (b3 * 2 ^ 24) (b2 * 2 ^ 16)) (b1 * 2 ^ 8)) b0, s0)

  -- The loop that downloads, with `n` rounds left, at index `i`.
  download : ℕ → ℕ → ℕ → ℕ → ℕ → ℕ → OrdMap → State → Option (OrdMap × State)
  download fuel dest per_led zero i count m s = some (m, s)
  download fuel dest per_led (suc n) i count m s = elim (uart_rd_char fuel s) [
    | none ↦ none
    | some (b, s') ↦
        let m' = put (u32 (dest + i)) b m in
        elim (leb per_led (count + 1)) [
          | true ↦
              let (leds, s'') = gpio_read gpio_leds s' in
              download fuel dest per_led n (suc i) 0 m' (set_leds (u32 (leds * 2)) s'')
          | false ↦ download fuel dest per_led n (suc i) (count + 1) m' s'
        ]
  ]

  -- `fsbl`: the address that it jumps to, and the memory and the hardware then.
  unfoldable pub fsbl : ℕ → OrdMap → State → Option (ℕ × OrdMap × State)
  unfolding print_text rd_word download wait_tx uart_rd_char
  fsbl fuel m s = do
    let s1 = set_leds 2 (fsbl_uart_setup (set_leds 1 s))
    s2 ← print_text fuel welcome s1
    (size, s3) ← rd_word fuel (set_leds 4 s2)
    (dest, s4) ← rd_word fuel (set_leds 8 s3)
    (m', s5) ← download fuel dest (size / 8) size 0 0 m (set_leds 0xFFFF_FFFF s4)
    some (dest, m', set_leds 0 s5)
