-- ===== src/Rtl/Writeback/Loads.antt =====
-- The value of a load.
use scarv_cpu.Base.{
  ℕ, zero, suc, ◌+◌, ◌-◌, ◌*◌, ◌/◌, ◌%◌, ◌^◌, ◌<◌, ◌≡◌, ap, ap₂, ◌∙◌, Bool, true, false, ◌&&◌,
  bit_or, bit_or-zero, zero-bit_or, leb, ◌==◌, if◌then◌else◌, arith,
}
use scarv_cpu.Rtl.{gate}
use scarv_cpu.Rtl.Lsu.Store.{Width, byte, half, word, bytes, low_aligned}
use scarv_cpu.Rtl.Writeback.{Load, rdata_b0, rdata_b1, rdata_h1, lsu_rdata}

-- A load of the given width, from a multiple of it, with the strobes that the memory stage set.
pub record HasWidth (l : Load) (w : Width) : Type 0 where
  pub is_byte : l.lsu_byte ≡ (bytes w == 1)
  pub is_half : l.lsu_half ≡ (bytes w == 2)
  pub is_word : l.lsu_word ≡ (bytes w == 4)
  pub aligned : l.lsu_addr % bytes w ≡ 0
  pub strobed : (l.lsu_strb % 2 == 1) ≡ (l.lsu_addr % 4 == 0)
  pub fits : l.mem_rdata < 2 ^ 32

-- The two's complement extension of a value of some bytes to 32 bits.
abbrev pub extend : Bool → Width → ℕ → ℕ
extend signed w v =
    if signed && leb (2 ^ (8 * bytes w - 1)) v then v + (2 ^ 32 - 2 ^ (8 * bytes w)) else v

-- The three parts, for a width and the two low bits of the address.
abbrev low_byte : ℕ → Bool → Bool → Bool → ℕ → ℕ
low_byte low first is_byte is_half m =
    bit_or
      (bit_or
        (bit_or
          (bit_or (gate first (m / 2 ^ (8 * 0) % 2 ^ 8))
            (gate (is_byte && low == 1) (m / 2 ^ (8 * 1) % 2 ^ 8)))
          (gate (is_byte && low == 2) (m / 2 ^ (8 * 2) % 2 ^ 8)))
        (gate (is_half && low / 2 == 1) (m / 2 ^ (8 * 2) % 2 ^ 8)))
      (gate (is_byte && low == 3) (m / 2 ^ (8 * 3) % 2 ^ 8))

abbrev second_byte : ℕ → Bool → Bool → Bool → Bool → ℕ → ℕ → ℕ
second_byte low signed is_byte is_half is_word b0 m =
    bit_or
      (bit_or
        (bit_or (gate (is_byte && signed) (gate (b0 / 2 ^ 7 == 1) (2 ^ 8 - 1)))
          (gate (is_half && low / 2 == 0) (m / 2 ^ (8 * 1) % 2 ^ 8)))
        (gate is_word (m / 2 ^ (8 * 1) % 2 ^ 8)))
      (gate (is_half && low / 2 == 1) (m / 2 ^ (8 * 3) % 2 ^ 8))

abbrev high_half : Bool → Bool → Bool → Bool → ℕ → ℕ → ℕ
high_half signed is_byte is_half is_word b1 m =
    let sign = gate (b1 / 2 ^ 7 == 1) (2 ^ 16 - 1) in
    bit_or (bit_or (gate (is_byte && signed) sign) (gate (is_half && signed) sign))
      (gate is_word (m / 2 ^ 16))

low_byte_lem :
    (w : Width) (low m : ℕ)
    → low < 4
    → low % bytes w ≡ 0
    → low_byte low (low == 0) (bytes w == 1) (bytes w == 2) m ≡ m / 2 ^ (8 * low) % 2 ^ 8
low_byte_lem byte zero m l a = simp bit_or-zero
low_byte_lem byte (suc zero) m l a = simp (bit_or-zero, zero-bit_or)
low_byte_lem byte (suc (suc zero)) m l a = simp (bit_or-zero, zero-bit_or)
low_byte_lem byte (suc (suc (suc zero))) m l a = simp (bit_or-zero, zero-bit_or)
low_byte_lem half zero m l a = simp bit_or-zero
low_byte_lem half (suc zero) m l a = absurd (omega (arith, a))
low_byte_lem half (suc (suc zero)) m l a = simp (bit_or-zero, zero-bit_or)
low_byte_lem half (suc (suc (suc zero))) m l a = absurd (omega (arith, a))
low_byte_lem word zero m l a = simp bit_or-zero
low_byte_lem word (suc zero) m l a = absurd (omega (arith, a))
low_byte_lem word (suc (suc zero)) m l a = absurd (omega (arith, a))
low_byte_lem word (suc (suc (suc zero))) m l a = absurd (omega (arith, a))
low_byte_lem w (suc (suc (suc (suc n)))) m l a = absurd (omega arith)

-- The sign of the lowest byte, spread.
abbrev second_value : Width → Bool → ℕ → ℕ → ℕ → ℕ
second_value byte signed low b0 m = gate signed (gate (b0 / 2 ^ 7 == 1) (2 ^ 8 - 1))
second_value half signed low b0 m = m / 2 ^ (8 * low) / 2 ^ 8 % 2 ^ 8
second_value word signed low b0 m = m / 2 ^ 8 % 2 ^ 8

second_byte_lem :
    (w : Width) (signed : Bool) (low b0 m : ℕ)
    → low < 4
    → low % bytes w ≡ 0
    → second_byte low signed (bytes w == 1) (bytes w == 2) (bytes w == 4) b0 m
      ≡ second_value w signed low b0 m
second_byte_lem byte signed low b0 m l a = simp bit_or-zero
second_byte_lem half signed zero b0 m l a = simp (bit_or-zero, zero-bit_or) (omega arith)
second_byte_lem half signed (suc zero) b0 m l a = absurd (omega (arith, a))
second_byte_lem half signed (suc (suc zero)) b0 m l a =
    simp (bit_or-zero, zero-bit_or) (omega arith)
second_byte_lem half signed (suc (suc (suc zero))) b0 m l a = absurd (omega (arith, a))
second_byte_lem half signed (suc (suc (suc (suc n)))) b0 m l a = absurd (omega arith)
second_byte_lem word signed low b0 m l a = simp (bit_or-zero, zero-bit_or)

abbrev high_value : Width → Bool → ℕ → ℕ → ℕ
high_value byte signed b1 m = gate signed (gate (b1 / 2 ^ 7 == 1) (2 ^ 16 - 1))
high_value half signed b1 m = gate signed (gate (b1 / 2 ^ 7 == 1) (2 ^ 16 - 1))
high_value word signed b1 m = m / 2 ^ 16

high_half_lem :
    (w : Width) (signed : Bool) (b1 m : ℕ)
    → high_half signed (bytes w == 1) (bytes w == 2) (bytes w == 4) b1 m ≡ high_value w signed b1 m
high_half_lem byte signed b1 m = simp bit_or-zero
high_half_lem half signed b1 m = simp (bit_or-zero, zero-bit_or)
high_half_lem word signed b1 m = simp zero-bit_or

-- The parts together, where the value stands in the word from byte `low` on.
joined :
    (w : Width) (signed : Bool) (low m : ℕ)
    → low < 4
    → low % bytes w ≡ 0
    → m < 2 ^ 32
    → let b0 = m / 2 ^ (8 * low) % 2 ^ 8 in
      let b1 = second_value w signed low b0 m in
      high_value w signed b1 m * 2 ^ 16 + b1 * 2 ^ 8 + b0
      ≡ extend signed w (m / 2 ^ (8 * low) % 2 ^ (8 * bytes w))
joined byte false low m l a f = omega arith
joined byte true low m l a f = ground arith
joined half false low m l a f = omega arith
joined half true low m l a f = ground arith
joined word signed zero m l a f = ground (arith, f)
joined word signed (suc low) m l a f = absurd (omega (arith, a))

module _ (l : Load) (w : Width) (h : HasWidth l w) where
  by_flags :
      (f : Bool → Bool → Bool → ℕ)
      → f l.lsu_byte l.lsu_half l.lsu_word ≡ f (bytes w == 1) (bytes w == 2) (bytes w == 4)
  by_flags f =
      ap (λ y. f y l.lsu_half l.lsu_word) h.is_byte ∙ ap₂ (f (bytes w == 1)) h.is_half h.is_word

  rdata_b0_lem : rdata_b0 l ≡ l.mem_rdata / 2 ^ (8 * (l.lsu_addr % 4)) % 2 ^ 8
  unfolding rdata_b0
  rdata_b0_lem =
      rw (h.strobed, h.is_byte, h.is_half)
        (low_byte_lem w (l.lsu_addr % 4) l.mem_rdata (omega arith)
          (low_aligned w l.lsu_addr h.aligned))

  rdata_b1_lem : rdata_b1 l ≡ second_value w l.lsu_signed (l.lsu_addr % 4) (rdata_b0 l) l.mem_rdata
  unfolding rdata_b1
  rdata_b1_lem =
      let part : Bool → Bool → Bool → ℕ =
        λ y f x. second_byte (l.lsu_addr % 4) l.lsu_signed y f x (rdata_b0 l) l.mem_rdata in
      by_flags part
      ∙ second_byte_lem w l.lsu_signed (l.lsu_addr % 4) (rdata_b0 l) l.mem_rdata (omega arith)
          (low_aligned w l.lsu_addr h.aligned)

  rdata_h1_lem : rdata_h1 l ≡ high_value w l.lsu_signed (rdata_b1 l) l.mem_rdata
  unfolding rdata_h1
  rdata_h1_lem =
      by_flags (λ y f x. high_half l.lsu_signed y f x (rdata_b1 l) l.mem_rdata)
      ∙ high_half_lem w l.lsu_signed (rdata_b1 l) l.mem_rdata

  -- A load gives the bytes of the word that its address and width name, extended to 32 bits.
  pub lsu_rdata-extend :
      lsu_rdata l
      ≡ extend l.lsu_signed w (l.mem_rdata / 2 ^ (8 * (l.lsu_addr % 4)) % 2 ^ (8 * bytes w))
  unfolding lsu_rdata
  lsu_rdata-extend =
      let m = l.mem_rdata in
      let value = λ (b : ℕ). second_value w l.lsu_signed (l.lsu_addr % 4) b m in
      ap (λ (t : ℕ). t * 2 ^ 16 + rdata_b1 l * 2 ^ 8 + rdata_b0 l) rdata_h1_lem
      ∙ ap (λ (t : ℕ). high_value w l.lsu_signed t m * 2 ^ 16 + t * 2 ^ 8 + rdata_b0 l) rdata_b1_lem
      ∙ ap (λ (t : ℕ). high_value w l.lsu_signed (value t) m * 2 ^ 16 + value t * 2 ^ 8 + t)
          rdata_b0_lem
      ∙ joined w l.lsu_signed (l.lsu_addr % 4) m (omega arith) (low_aligned w l.lsu_addr h.aligned)
          h.fits
