-- ===== src/Device/Access.antt =====
-- What the loops over a range of addresses do to a RAM.
use scarv_cpu.Base.{
  ℕ, zero, suc, ◌+◌, ◌-◌, ◌^◌, ◌<◌, ◌≡◌, refl, ◌∙◌, Bool, true, false, ◌&&◌, List, arith, get_or,
  get_or-set, length, length-set, set, leb, ltb, u64, ◌==◌, if◌then◌else◌, Bool-cases, inl, inr,
}
use scarv_cpu.Device.Range.{in_range, in_range_span, in_range-of_span}
use scarv_cpu.Device.Ram
use scarv_cpu.Device.Ram.{Ram, peek, read_byte_lem, write_byte_lem}
use scarv_cpu.Device.Uart
use scarv_cpu.Device.{Device, ram, uart, range, read_byte, write_byte, read_from, write_from}

-- No operation of a device changes the addresses that it answers to.
range-read_byte : (d : Device) (addr : ℕ) → range (read_byte d addr).1 ≡ range d
unfolding range read_byte Ram.read_byte Uart.read_byte Uart.get_from_rx_buffer
range-read_byte (ram r) addr = refl
range-read_byte (uart u) addr = ground arith

range-write_byte : (d : Device) (addr byte : ℕ) → range (write_byte d addr byte).1 ≡ range d
unfolding range write_byte Ram.write_byte Uart.write_byte Uart.write_to_tx_buffer
range-write_byte (ram r) addr byte = ground arith
range-write_byte (uart u) addr byte = ground arith

-- One round of the loop of `write_range`, for a RAM.
strobed : Ram → ℕ → ℕ → Bool → Ram
strobed r here byte strobe = if strobe then (Ram.write_byte r here byte).1 else r

strobed_lem :
    (r : Ram) (here byte j : ℕ) (strobe : Bool)
    → in_range_span r.range here 1 ≡ true
    → ((strobed r here byte strobe).range ≡ r.range)
      × (peek (strobed r here byte strobe) j ≡ (if strobe && (here == j) then byte else peek r j))
unfolding strobed
strobed_lem r here byte j false h = ground arith
strobed_lem r here byte j true h = ground (arith, write_byte_lem r here byte j)

module _ (addr size : ℕ) (small : addr + size < 2 ^ 64) where
  -- A span in range is read and written to its end.
  pub read_from_whole :
      (d : Device) (n i : ℕ) (rdata : List ℕ)
      → in_range_span (range d) addr size ≡ true
      → i + n ≡ size
      → ((read_from d addr n i rdata).0 ≡ true)
        × (range (read_from d addr n i rdata).2 ≡ range d)
        × (length (read_from d addr n i rdata).1 ≡ length rdata)
  unfolding read_from
  read_from_whole d zero i rdata h e = (refl, refl, refl)
  read_from_whole d (suc n) i rdata h e = ground (
    arith,
    in_range-of_span (range d) addr size i small h,
    range-read_byte d (u64 (addr + i)),
    length-set rdata i (read_byte d (u64 (addr + i))).0,
    read_from_whole (read_byte d (u64 (addr + i))).1 n (suc i)
        (set rdata i (read_byte d (u64 (addr + i))).0),
  )

  pub write_from_whole :
      (d : Device) (n i : ℕ) (wdata : List ℕ) (strb : List Bool)
      → in_range_span (range d) addr size ≡ true
      → i + n ≡ size
      → ((write_from d addr n i wdata strb).0 ≡ true)
        × (range (write_from d addr n i wdata strb).1 ≡ range d)
  unfolding write_from
  write_from_whole d zero i wdata strb h e = (refl, refl)
  write_from_whole d (suc n) i wdata strb h e = ground (
    arith,
    in_range-of_span (range d) addr size i small h,
    range-write_byte d (u64 (addr + i)) (get_or wdata i 0),
    write_from_whole (write_byte d (u64 (addr + i)) (get_or wdata i 0)).1 n (suc i) wdata strb,
    write_from_whole d n (suc i) wdata strb,
  )

  read_from_step :
      (r : Ram) (n i : ℕ) (rdata : List ℕ)
      → in_range r.range (u64 (addr + i)) ≡ true
      → let (b, r1) = Ram.read_byte r (u64 (addr + i)) in
        read_from (ram r) addr (suc n) i rdata ≡ read_from (ram r1) addr n (suc i) (set rdata i b)
  unfolding read_from read_byte range
  read_from_step r n i rdata h = rw (h, read_from)

  write_from_step :
      (r : Ram) (n i : ℕ) (wdata : List ℕ) (strb : List Bool)
      → in_range r.range (u64 (addr + i)) ≡ true
      → write_from (ram r) addr (suc n) i wdata strb
        ≡ write_from
            (ram (strobed r (u64 (addr + i)) (get_or wdata i 0) (get_or strb i false)))
            addr
            n
            (suc i)
            wdata
            strb
  unfolding write_from write_byte range strobed
  write_from_step r n i wdata strb h = elim (Bool-cases (get_or strb i false)) [
    | inl e ↦ rw (h, write_from) (rw e)
    | inr e ↦ rw (h, write_from) (rw e)
  ]

  -- A RAM stays a RAM; the array receives its bytes, and no byte that it holds changes.
  pub read_from_ram :
      (r : Ram) (n i : ℕ) (rdata : List ℕ)
      → in_range_span r.range addr size ≡ true
      → i + n ≡ size
      → length rdata ≡ size
      → (r' : Ram) × ((read_from (ram r) addr n i rdata).2 ≡ ram r')
        × (r'.range ≡ r.range)
        × ((j : ℕ) → peek r' j ≡ peek r j)
        × ((k : ℕ)
            → get_or (read_from (ram r) addr n i rdata).1 k 0
              ≡ (if leb i k && ltb k size then peek r (addr + k) else get_or rdata k 0))
  unfolding read_from
  read_from_ram r zero i rdata h e l = (r, refl, refl, λ j. refl, λ k. ground arith)
  read_from_ram r (suc n) i rdata h e l =
      let here = u64 (addr + i) in
      let r1 = (Ram.read_byte r here).1 in
      let b = (Ram.read_byte r here).0 in
      let keep = λ (j : ℕ). read_byte_lem r here j in
      let (r', same, ranges, held, got) =
        read_from_ram r1 n (suc i) (set rdata i b) (rw (keep 0).1 h) (omega arith)
          (length-set rdata i b ∙ l) in
      rw (read_from_step r n i rdata (in_range-of_span r.range addr size i small h (omega arith))) (
        r',
        same,
        ranges ∙ (keep 0).1,
        (λ j. held j ∙ (keep j).2),
        (λ k. ground (arith, got k, keep (addr + k), get_or-set rdata i k b 0)),
      )

  room :
      (r : Ram) (i : ℕ)
      → in_range_span r.range addr size ≡ true
      → i < size
      → in_range_span r.range (u64 (addr + i)) 1 ≡ true
  unfolding in_range_span
  room r i h lt = ground arith

  -- The round at index `i` followed by those from the next index on.
  extend :
      (r : Ram) (n i : ℕ) (wdata : List ℕ) (strb : List Bool) (j : ℕ) {b : ℕ}
      → in_range_span r.range addr size ≡ true
      → i + suc n ≡ size
      → b ≡ (if get_or strb i false && (u64 (addr + i) == j) then get_or wdata i 0 else peek r j)
      → (if leb (addr + suc i) j && ltb j (addr + size) && get_or strb (j - addr) false
          then get_or wdata (j - addr) 0
          else b)
        ≡ (if leb (addr + i) j && ltb j (addr + size) && get_or strb (j - addr) false
            then get_or wdata (j - addr) 0
            else peek r j)
  extend r n i wdata strb j h e hb = elim (Bool-cases (u64 (addr + i) == j)) [
    | inl q ↦ let k : i ≡ j - addr = ground arith in ground (arith, k)
    | inr q ↦ ground arith
  ]

  -- A RAM stays a RAM; the strobed bytes are written, and no other byte changes.
  pub write_from_ram :
      (r : Ram) (n i : ℕ) (wdata : List ℕ) (strb : List Bool)
      → in_range_span r.range addr size ≡ true
      → i + n ≡ size
      → (r' : Ram) × ((write_from (ram r) addr n i wdata strb).1 ≡ ram r')
        × (r'.range ≡ r.range)
        × ((j : ℕ)
            → peek r' j ≡ (
                if leb (addr + i) j && ltb j (addr + size) && get_or strb (j - addr) false
                then get_or wdata (j - addr) 0
                else peek r j))
  unfolding write_from
  write_from_ram r zero i wdata strb h e = (r, refl, refl, λ j. ground arith)
  write_from_ram r (suc n) i wdata strb h e =
      let here = u64 (addr + i) in
      let r1 = strobed r here (get_or wdata i 0) (get_or strb i false) in
      let one : in_range_span r.range here 1 ≡ true = room r i h (omega arith) in
      let stores = λ (j : ℕ). strobed_lem r here (get_or wdata i 0) j (get_or strb i false) one in
      let (r', same, ranges, written) =
        write_from_ram r1 n (suc i) wdata strb (rw (stores 0).0 h) (omega arith) in
      rw
        (write_from_step r n i wdata strb
          (in_range-of_span r.range addr size i small h (omega arith)))
        (
          r',
          same,
          ranges ∙ (stores 0).0,
          λ j. written j ∙ extend r n i wdata strb j h e (stores j).1,
        )
