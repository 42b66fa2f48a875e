-- ===== src/Rtl/Lsu/Store.antt =====
-- What a store puts on the bus.
use scarv_cpu.Base.{
  ℕ, zero, suc, ◌+◌, ◌*◌, ◌/◌, ◌%◌, ◌^◌, ◌<◌, ◌≡◌, Bool, ◌&&◌, bit_or, bit_or-zero, zero-bit_or,
  leb, ltb, ◌==◌, arith,
}
use scarv_cpu.Rtl.{gate}
use scarv_cpu.Rtl.Lsu.{Inputs, dmem_wdata, dmem_strb_at}

-- The width of an access, by its three flags.
pub data Width : Type 0 where
  byte : Width
  half : Width
  word : Width

abbrev pub bytes : Width → ℕ
bytes byte = 1
bytes half = 2
bytes word = 4

pub record HasWidth (i : Inputs) (w : Width) : Type 0 where
  pub is_byte : i.lsu_byte ≡ (bytes w == 1)
  pub is_half : i.lsu_half ≡ (bytes w == 2)
  pub is_word : i.lsu_word ≡ (bytes w == 4)
  pub aligned : i.lsu_addr % bytes w ≡ 0
  pub fits : i.lsu_wdata < 2 ^ 32

-- The data lines, for a width and the two low bits of the address.
abbrev lanes : ℕ → Bool → Bool → Bool → ℕ → ℕ
lanes low is_byte is_half is_word d =
    let b = d % 2 ^ 8 in
    let h = d % 2 ^ 16 in
    bit_or
      (bit_or
        (bit_or
          (bit_or
            (bit_or (bit_or (gate (is_byte && low == 0) b) (gate (is_byte && low == 1) (b * 2 ^ 8)))
              (gate (is_byte && low == 2) (b * 2 ^ 16)))
            (gate (is_byte && low == 3) (b * 2 ^ 24)))
          (gate (is_half && low / 2 == 1) (h * 2 ^ 16)))
        (gate (is_half && low / 2 == 0) h))
      (gate is_word d)

lanes-shifted :
    (w : Width) (low d : ℕ)
    → low < 4
    → low % bytes w ≡ 0
    → d < 2 ^ 32
    → lanes low (bytes w == 1) (bytes w == 2) (bytes w == 4) d
      ≡ d % 2 ^ (8 * bytes w) * 2 ^ (8 * low)
lanes-shifted byte zero d l a f = simp bit_or-zero (omega arith)
lanes-shifted byte (suc zero) d l a f = simp (bit_or-zero, zero-bit_or) (omega arith)
lanes-shifted byte (suc (suc zero)) d l a f = simp (bit_or-zero, zero-bit_or)
lanes-shifted byte (suc (suc (suc zero))) d l a f = simp (bit_or-zero, zero-bit_or)
lanes-shifted half zero d l a f = simp (bit_or-zero, zero-bit_or) (omega arith)
lanes-shifted half (suc zero) d l a f = absurd (omega (arith, a))
lanes-shifted half (suc (suc zero)) d l a f = simp (bit_or-zero, zero-bit_or)
lanes-shifted half (suc (suc (suc zero))) d l a f = absurd (omega (arith, a))
lanes-shifted word zero d l a f = simp (bit_or-zero, zero-bit_or) (omega (arith, f))
lanes-shifted word (suc zero) d l a f = absurd (omega (arith, a))
lanes-shifted word (suc (suc zero)) d l a f = absurd (omega (arith, a))
lanes-shifted word (suc (suc (suc zero))) d l a f = absurd (omega (arith, a))
lanes-shifted w (suc (suc (suc (suc n)))) d l a f = absurd (omega arith)

pub low_aligned : (w : Width) (a : ℕ) → a % bytes w ≡ 0 → a % 4 % bytes w ≡ 0
low_aligned byte a h = omega arith
low_aligned half a h = omega (arith, h)
low_aligned word a h = omega (arith, h)

-- The data of a store stand in the lanes that the low bits of the address name.
pub dmem_wdata-shifted :
    (i : Inputs) (w : Width)
    → HasWidth i w
    → dmem_wdata i ≡ i.lsu_wdata % 2 ^ (8 * bytes w) * 2 ^ (8 * (i.lsu_addr % 4))
unfolding dmem_wdata
dmem_wdata-shifted i w h =
    rw (h.is_byte, h.is_half, h.is_word)
      (lanes-shifted w (i.lsu_addr % 4) i.lsu_wdata (omega arith)
        (low_aligned w i.lsu_addr h.aligned) h.fits)

pub dmem_strb_at-lanes :
    (i : Inputs) (w : Width) (lane : ℕ)
    → HasWidth i w
    → lane < 4
    → dmem_strb_at i lane ≡ leb (i.lsu_addr % 4) lane && ltb lane (i.lsu_addr % 4 + bytes w)
unfolding dmem_strb_at
dmem_strb_at-lanes i byte lane h l = ground (arith, h, l)
dmem_strb_at-lanes i half lane h l = ground (arith, h, l)
dmem_strb_at-lanes i word lane h l = ground (arith, h, l)
