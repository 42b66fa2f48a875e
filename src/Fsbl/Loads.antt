-- ===== src/Fsbl/Loads.antt =====
-- The boot loader loads the program that the UART delivers, and jumps to it.
use scarv_cpu.Base.{
  ℕ, zero, suc, ◌+◌, ◌*◌, ◌/◌, ◌%◌, ◌^◌, ◌≤◌, ◌<◌, ◌≡◌, inl, inr, refl, ap, ◌∙◌, true, false, List,
  [], ◌∷◌, ◌++◌, some, bit_or, bit_or_high, leb, length, u32, Bool-cases, Text, arith,
}
use scarv_cpu.OrdMap.{OrdMap, put}
use scarv_cpu.Srec.Parse.{put_all}
use scarv_cpu.Fsbl.{
  Hardware, uart_rx, uart_tx, uart_st, rx_valid, tx_full, uart_rd_char, wait_tx, print_text,
  welcome, set_leds, gpio_leds, fsbl_uart_setup, rd_word, download, fsbl,
}

-- What the loader relies on of the UART: `pending` are the bytes that it will still deliver. It makes
-- the loader wait for a bounded number of reads of the status. Only a read of the register RX takes
-- a byte, and only the control register may drop bytes. The LEDs have no effect on it.
pub record UartLite (hw : Hardware) : Type 0 where
  pub pending : hw.State → List ℕ
  pub patience : ℕ
  pub rx_wait : hw.State → ℕ
  pub tx_wait : hw.State → ℕ
  pub rx_wait_bound : (s : hw.State) → rx_wait s < patience
  pub tx_wait_bound : (s : hw.State) → tx_wait s < patience
  pub status_keeps : (s : hw.State) → pending (hw.uart_read uart_st s).1 ≡ pending s
  pub rx_waits :
      (s : hw.State) (b : ℕ) (bs : List ℕ)
      → pending s ≡ b ∷ bs
      → rx_valid (hw.uart_read uart_st s).0 ≡ false
      → rx_wait (hw.uart_read uart_st s).1 < rx_wait s
  pub receives :
      (s : hw.State) (b : ℕ) (bs : List ℕ)
      → pending s ≡ b ∷ bs
      → rx_valid (hw.uart_read uart_st s).0 ≡ true
      → let (word, s') = hw.uart_read uart_rx (hw.uart_read uart_st s).1 in
        (word % 256 ≡ b) × (pending s' ≡ bs)
  pub tx_waits :
      (s : hw.State)
      → tx_full (hw.uart_read uart_st s).0 ≡ true
      → tx_wait (hw.uart_read uart_st s).1 < tx_wait s
  pub sends : (s : hw.State) (w : ℕ) → pending (hw.uart_write uart_tx w s) ≡ pending s
  pub leds_read : (s : hw.State) (i : ℕ) → pending (hw.gpio_read i s).1 ≡ pending s
  pub leds_write : (s : hw.State) (i w : ℕ) → pending (hw.gpio_write i w s) ≡ pending s

module _ (hw : Hardware) (u : UartLite hw) where
  open hw use {State}
  open u use {pending, patience, rx_wait, tx_wait}

  rd_char :
      (fuel : ℕ) (s : State) (b : ℕ) (bs : List ℕ)
      → rx_wait s < fuel
      → pending s ≡ b ∷ bs
      → (s' : State) × (uart_rd_char hw fuel s ≡ some (b, s')) × (pending s' ≡ bs)
  unfolding uart_rd_char
  rd_char zero s b bs h e = absurd (omega arith)
  rd_char (suc fuel) s b bs h e =
      let s1 = (hw.uart_read uart_st s).1 in
      elim (Bool-cases (rx_valid (hw.uart_read uart_st s).0)) [
        | inl valid ↦
            let got = u.receives s b bs e valid in
            ((hw.uart_read uart_rx s1).1, rw (valid, uart_rd_char) (rw got.0 refl), got.1)
        | inr wait ↦
            let (s', ends, rest) =
              rd_char fuel s1 b bs (omega (arith, u.rx_waits s b bs e wait))
                (u.status_keeps s ∙ e) in
            (s', rw (wait, uart_rd_char) ends, rest)
      ]

  wait_tx_ends :
      (fuel : ℕ) (s : State)
      → tx_wait s < fuel
      → (s' : State) × (wait_tx hw fuel s ≡ some s') × (pending s' ≡ pending s)
  unfolding wait_tx
  wait_tx_ends zero s h = absurd (omega arith)
  wait_tx_ends (suc fuel) s h =
      let s1 = (hw.uart_read uart_st s).1 in
      elim (Bool-cases (tx_full (hw.uart_read uart_st s).0)) [
        | inl full ↦
            let (s', ends, same) = wait_tx_ends fuel s1 (omega (arith, u.tx_waits s full)) in
            (s', rw (full, wait_tx) ends, same ∙ u.status_keeps s)
        | inr free ↦ (s1, rw (free, wait_tx) refl, u.status_keeps s)
      ]

  print_text_ends :
      (fuel : ℕ) (cs : Text) (s : State)
      → patience ≤ fuel
      → (s' : State) × (print_text hw fuel cs s ≡ some s') × (pending s' ≡ pending s)
  unfolding print_text
  print_text_ends fuel [] s h = (s, refl, refl)
  print_text_ends fuel (c ∷ cs) s h =
      let (s1, waited, same) = wait_tx_ends fuel s (omega (arith, u.tx_wait_bound s)) in
      let (s2, ends, rest) = print_text_ends fuel cs (hw.uart_write uart_tx c s1) h in
      (s2, rw (waited, print_text) ends, rest ∙ u.sends s1 c ∙ same)

-- A word as four bytes, the highest first.
abbrev pub word_bytes : ℕ → List ℕ
word_bytes w = (w / 2 ^ 24 % 256) ∷ (w / 2 ^ 16 % 256) ∷ (w / 2 ^ 8 % 256) ∷ (w % 256) ∷ []

-- What is sent to the loader: the size, the address, and the program.
abbrev pub image : ℕ → List ℕ → List ℕ
image dest program = word_bytes (length program) ++ word_bytes dest ++ program

or_bytes :
    (b3 b2 b1 b0 : ℕ)
    → b2 < 256
    → b1 < 256
    → b0 < 256
    → bit_or (bit_or (bit_or (b3 * 2 ^ 24) (b2 * 2 ^ 16)) (b1 * 2 ^ 8)) b0
      ≡ b3 * 2 ^ 24 + b2 * 2 ^ 16 + b1 * 2 ^ 8 + b0
or_bytes b3 b2 b1 b0 h2 h1 h0 =
    let q2 : b3 * 2 ^ 24 + b2 * 2 ^ 16 ≡ (b3 * 256 + b2) * 2 ^ 16 = omega arith in
    let q1 : (b3 * 256 + b2) * 2 ^ 16 + b1 * 2 ^ 8 ≡ ((b3 * 256 + b2) * 256 + b1) * 2 ^ 8 =
      omega arith in
    rw
      (
        bit_or_high 24 b3 (b2 * 2 ^ 16) (omega arith),
        q2,
        bit_or_high 16 (b3 * 256 + b2) (b1 * 2 ^ 8) (omega arith),
        q1,
        bit_or_high 8 ((b3 * 256 + b2) * 256 + b1) b0 (omega arith),
      )
      (omega arith)

word_of_bytes :
    (w : ℕ)
    → w < 2 ^ 32
    → bit_or
        (bit_or
          (bit_or (w / 2 ^ 24 % 256 * 2 ^ 24) (w / 2 ^ 16 % 256 * 2 ^ 16))
          (w / 2 ^ 8 % 256 * 2 ^ 8))
        (w % 256)
      ≡ w
word_of_bytes w h =
    or_bytes (w / 2 ^ 24 % 256) (w / 2 ^ 16 % 256) (w / 2 ^ 8 % 256) (w % 256) (omega arith)
      (omega arith) (omega arith)
    ∙ omega arith

module _ (hw : Hardware) (u : UartLite hw) where
  open hw use {State}
  open u use {pending, patience}

  rd_word_bytes :
      (fuel : ℕ) (s : State) (w : ℕ) (rest : List ℕ)
      → patience ≤ fuel
      → w < 2 ^ 32
      → pending s ≡ word_bytes w ++ rest
      → (s' : State) × (rd_word hw fuel s ≡ some (w, s')) × (pending s' ≡ rest)
  unfolding rd_word
  rd_word_bytes fuel s w rest h small e =
      let (s3, r3, e3) = rd_char hw u fuel s _ _ (omega (arith, u.rx_wait_bound s)) e in
      let (s2, r2, e2) = rd_char hw u fuel s3 _ _ (omega (arith, u.rx_wait_bound s3)) e3 in
      let (s1, r1, e1) = rd_char hw u fuel s2 _ _ (omega (arith, u.rx_wait_bound s2)) e2 in
      let (s0, r0, e0) = rd_char hw u fuel s1 _ _ (omega (arith, u.rx_wait_bound s1)) e1 in
      (s0, rw (r3, r2, r1, r0) (rw (word_of_bytes w small) refl), e0)

  download_bytes :
      (fuel dest per_led at : ℕ) (bs : List ℕ) (i count : ℕ) (m : OrdMap) (s : State)
      (rest : List ℕ)
      → patience ≤ fuel
      → at ≡ dest + i
      → at + length bs ≤ 2 ^ 32
      → pending s ≡ bs ++ rest
      → (s' : State) × (download hw fuel dest per_led (length bs) i count m s
          ≡ some (put_all at bs m, s'))
        × (pending s' ≡ rest)
  unfolding download set_leds
  download_bytes fuel dest per_led at [] i count m s rest h here fits e = (s, refl, e)
  download_bytes fuel dest per_led at (b ∷ bs) i count m s rest h here fits e =
      let (s1, got, e1) = rd_char hw u fuel s b (bs ++ rest) (omega (arith, u.rx_wait_bound s)) e in
      let place : u32 (dest + i) ≡ at = omega arith in
      let next : suc at ≡ dest + suc i = omega arith in
      let m' = put (u32 (dest + i)) b m in
      let more = download_bytes fuel dest per_led (suc at) bs (suc i) in
      let stored : put_all (suc at) bs m' ≡ put_all at (b ∷ bs) m =
        ap (λ p. put_all (suc at) bs (put p b m)) place in
      elim (Bool-cases (leb per_led (count + 1))) [
        | inl full ↦
            let (leds, s2) = hw.gpio_read gpio_leds s1 in
            let s3 = set_leds hw (u32 (leds * 2)) s2 in
            let same = u.leds_write s2 gpio_leds (u32 (leds * 2)) ∙ u.leds_read s1 gpio_leds ∙ e1 in
            let (s', ends, left) = more 0 m' s3 rest h next (omega arith) same in
            (
              s',
              rw (got, download) (rw (full, download) (ends ∙ ap (λ p. some (p, s')) stored)),
              left,
            )
        | inr not_yet ↦
            let (s', ends, left) = more (count + 1) m' s1 rest h next (omega arith) e1 in
            (
              s',
              rw (got, download) (rw (not_yet, download) (ends ∙ ap (λ p. some (p, s')) stored)),
              left,
            )
      ]

  -- Where the UART, once it is set up, delivers the image of a program that fits in the 32-bit
  -- addresses from its destination on, and with fuel for the longest wait, the loader ends: it has
  -- put the program in the memory byte by byte from the destination on, has taken exactly the image
  -- from the UART, and jumps to the destination.
  pub fsbl_loads :
      (fuel dest : ℕ) (program rest : List ℕ) (m : OrdMap) (s : State)
      → patience ≤ fuel
      → dest + length program ≤ 2 ^ 32
      → dest < 2 ^ 32
      → length program < 2 ^ 32
      → pending (fsbl_uart_setup hw (set_leds hw 1 s)) ≡ image dest program ++ rest
      → (s' : State) × (fsbl hw fuel m s ≡ some (dest, put_all dest program m, s'))
        × (pending s' ≡ rest)
  unfolding fsbl set_leds
  fsbl_loads fuel dest program rest m s h fits dest_fits size_fits e =
      let s1 = set_leds hw 2 (fsbl_uart_setup hw (set_leds hw 1 s)) in
      let (s2, printed, e2) = print_text_ends hw u fuel welcome s1 h in
      let (s3, sized, e3) =
        rd_word_bytes fuel (set_leds hw 4 s2) (length program) (word_bytes dest ++ program ++ rest)
          h size_fits (u.leds_write s2 2 4 ∙ e2 ∙ u.leds_write _ 2 2 ∙ e) in
      let (s4, aimed, e4) =
        rd_word_bytes fuel (set_leds hw 8 s3) dest (program ++ rest) h dest_fits
          (u.leds_write s3 2 8 ∙ e3) in
      let (s5, loaded, e5) =
        download_bytes fuel dest (length program / 8) dest program 0 0 m
          (set_leds hw 0xFFFF_FFFF s4) rest h (omega arith) fits (u.leds_write s4 2 _ ∙ e4) in
      (set_leds hw 0 s5, rw (printed, sized, aimed, loaded) refl, u.leds_write s5 2 0 ∙ e5)
