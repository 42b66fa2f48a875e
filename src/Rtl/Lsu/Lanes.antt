-- ===== src/Rtl/Lsu/Lanes.antt =====
-- The byte lanes of the data bus, on the side of the core and on the side of the memory agent.
use scarv_cpu.Base.{
  ℕ, zero, suc, ◌+◌, ◌*◌, ◌/◌, ◌%◌, ◌^◌, ◌<◌, ◌≡◌, refl, Bool, true, false, ◌&&◌, List, [], ◌∷◌,
  leb, ltb, ◌==◌, get_or, if◌then◌else◌, arith,
}
use scarv_cpu.Rtl.{bit}
use scarv_cpu.Txn.{new_txn}
use scarv_cpu.SramAgent.{Pins, new_request, data_bytes}
use scarv_cpu.Rtl.Lsu.{Inputs, dmem_strb, dmem_strb_at}
use scarv_cpu.Rtl.Lsu.Store.{Width, byte, half, word, bytes}

-- The strobe line of a lane is its bit of the strobes.
strobe-bit :
    (a b c d : Bool)
    → let s = bit a + 2 * bit b + 4 * bit c + 8 * bit d in
      ((s / 2 ^ 0 % 2 == 1) ≡ a)
      × ((s / 2 ^ 1 % 2 == 1) ≡ b)
      × ((s / 2 ^ 2 % 2 == 1) ≡ c)
      × ((s / 2 ^ 3 % 2 == 1) ≡ d)
strobe-bit a b c d = (ground arith, ground arith, ground arith, ground arith)

abbrev pub lines : ℕ → List Bool
lines s =
    (s / 2 ^ 0 % 2 == 1) ∷ (s / 2 ^ 1 % 2 == 1) ∷ (s / 2 ^ 2 % 2 == 1) ∷ (s / 2 ^ 3 % 2 == 1) ∷ []

pub new_request-write :
    (p : Pins) (n : ℕ)
    → p.mem_wen ≡ true
    → ((new_request p n).strb ≡ lines p.mem_strb)
      × ((new_request p n).bytes ≡ data_bytes p.mem_wdata)
unfolding new_request
new_request-write p n h = rw h (refl, refl)

pub new_request-shape :
    (p : Pins) (n : ℕ)
    → ((new_request p n).addr ≡ p.mem_addr)
      × ((new_request p n).size ≡ 4)
      × ((new_request p n).write ≡ p.mem_wen)
unfolding new_request new_txn
new_request-shape p n = (ground arith, ground arith, ground arith)

pub lines-dmem_strb :
    (i : Inputs) (k : ℕ) → k < 4 → get_or (lines (dmem_strb i)) k false ≡ dmem_strb_at i k
unfolding dmem_strb
lines-dmem_strb i k l =
    by_lane k l
      (strobe-bit (dmem_strb_at i 0) (dmem_strb_at i 1) (dmem_strb_at i 2) (dmem_strb_at i 3))
  where
    by_lane :
        (k : ℕ)
        → k < 4
        → ((dmem_strb i / 2 ^ 0 % 2 == 1) ≡ dmem_strb_at i 0)
          × ((dmem_strb i / 2 ^ 1 % 2 == 1) ≡ dmem_strb_at i 1)
          × ((dmem_strb i / 2 ^ 2 % 2 == 1) ≡ dmem_strb_at i 2)
          × ((dmem_strb i / 2 ^ 3 % 2 == 1) ≡ dmem_strb_at i 3)
        → get_or (lines (dmem_strb i)) k false ≡ dmem_strb_at i k
    by_lane zero l e = e.0
    by_lane (suc zero) l e = e.1
    by_lane (suc (suc zero)) l e = e.2
    by_lane (suc (suc (suc zero))) l e = e.3
    by_lane (suc (suc (suc (suc k)))) l e = absurd (omega arith)

pub data_bytes-get_or : (d k : ℕ) → k < 4 → get_or (data_bytes d) k 0 ≡ d / 2 ^ (8 * k) % 256
data_bytes-get_or d zero l = refl
data_bytes-get_or d (suc zero) l = refl
data_bytes-get_or d (suc (suc zero)) l = refl
data_bytes-get_or d (suc (suc (suc zero))) l = refl
data_bytes-get_or d (suc (suc (suc (suc k)))) l = absurd (omega arith)

-- What stands in the lanes of a store reads back.
pub read_back :
    (w : Width) (low d g0 g1 g2 g3 : ℕ) (p : ℕ → ℕ)
    → low < 4
    → low % bytes w ≡ 0
    → ((k : ℕ) → p k < 256)
    → let lane : ℕ → ℕ = λ k.
      if leb low k && ltb k (low + bytes w)
      then d % 2 ^ (8 * bytes w) * 2 ^ (8 * low) / 2 ^ (8 * k) % 256
      else p k in
      g0 ≡ lane 0
      → g1 ≡ lane 1
      → g2 ≡ lane 2
      → g3 ≡ lane 3
      → (g0 + 2 ^ 8 * g1 + 2 ^ 16 * g2 + 2 ^ 24 * g3) / 2 ^ (8 * low) % 2 ^ (8 * bytes w)
        ≡ d % 2 ^ (8 * bytes w)
read_back byte zero d g0 g1 g2 g3 p l a b h0 h1 h2 h3 = ground (arith, h0, b 1, b 2, b 3)
read_back byte (suc zero) d g0 g1 g2 g3 p l a b h0 h1 h2 h3 = ground (arith, h0, h1, b 0, b 2, b 3)
read_back byte (suc (suc zero)) d g0 g1 g2 g3 p l a b h0 h1 h2 h3 =
    ground (arith, h0, h1, h2, h3, b 0, b 1, b 3)
read_back byte (suc (suc (suc zero))) d g0 g1 g2 g3 p l a b h0 h1 h2 h3 =
    ground (arith, h0, h1, h2, h3, b 0, b 1, b 2)
read_back half zero d g0 g1 g2 g3 p l a b h0 h1 h2 h3 = ground (arith, h0, h1, h2, h3)
read_back half (suc zero) d g0 g1 g2 g3 p l a b h0 h1 h2 h3 = absurd (omega (arith, a))
read_back half (suc (suc zero)) d g0 g1 g2 g3 p l a b h0 h1 h2 h3 =
    ground (arith, h0, h1, h2, h3, b 0, b 1)
read_back half (suc (suc (suc zero))) d g0 g1 g2 g3 p l a b h0 h1 h2 h3 = absurd (omega (arith, a))
read_back word zero d g0 g1 g2 g3 p l a b h0 h1 h2 h3 = ground (arith, h0, h1, h2, h3)
read_back word (suc zero) d g0 g1 g2 g3 p l a b h0 h1 h2 h3 = absurd (omega (arith, a))
read_back word (suc (suc zero)) d g0 g1 g2 g3 p l a b h0 h1 h2 h3 = absurd (omega (arith, a))
read_back word (suc (suc (suc zero))) d g0 g1 g2 g3 p l a b h0 h1 h2 h3 = absurd (omega (arith, a))
read_back w (suc (suc (suc (suc n)))) d g0 g1 g2 g3 p l a b h0 h1 h2 h3 = absurd (omega arith)
