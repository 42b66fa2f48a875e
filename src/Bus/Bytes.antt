-- ===== src/Bus/Bytes.antt =====
-- `read_byte` and `write_byte` of the bus, at addresses that reach a RAM or nothing.
use scarv_cpu.Base.{
  ℕ, suc, ◌+◌, ◌≡◌, ◌≢◌, inl, inr, refl, sym, ◌∙◌, ap, Bool, true, false, ◌&&◌, List, [], ◌∷◌, none,
  some, set, arith, Bool-cases, ◌==◌, if◌then◌else◌,
}
use scarv_cpu.Device.Range.{in_range, in_range_span}
use scarv_cpu.Device.Ram
use scarv_cpu.Device.Ram.{Ram, read_byte_lem, write_byte_lem}
use scarv_cpu.Device
use scarv_cpu.Device.{Device, ram, uart, range}
use scarv_cpu.Bus.{Bus, get_device_from, get_device_at, read_byte, write_byte}

abbrev is_ram : Device → Bool
is_ram (ram r) = true
is_ram (uart u) = false

abbrev pub held : Device → ℕ → ℕ
held (ram r) addr = Ram.peek r addr
held (uart u) addr = 0

-- The byte that a read at an address gives, where it reaches a RAM or nothing.
abbrev peek_from : List Device → ℕ → ℕ
peek_from [] addr = 255
peek_from (d ∷ ds) addr = if in_range (range d) addr then held d addr else peek_from ds addr

abbrev pub peek_at : Bus → ℕ → ℕ
peek_at bus addr = peek_from bus.devices addr

-- The address reaches a RAM, or nothing.
abbrev plain_from : List Device → ℕ → Bool
plain_from [] addr = true
plain_from (d ∷ ds) addr = if in_range (range d) addr then is_ram d else plain_from ds addr

abbrev pub plain_at : Bus → ℕ → Bool
plain_at bus addr = plain_from bus.devices addr

-- The address reaches a RAM that has room for a byte there.
abbrev writable_from : List Device → ℕ → Bool
writable_from [] addr = false
writable_from (d ∷ ds) addr =
    if in_range (range d) addr
    then is_ram d && in_range_span (range d) addr 1
    else writable_from ds addr

abbrev pub writable_at : Bus → ℕ → Bool
writable_at bus addr = writable_from bus.devices addr

-- The devices after an access: every address reaches the same, and holds the byte that `change`
-- makes of the old one.
record Changed (change : ℕ → ℕ → ℕ) (ds es : List Device) : Type 0 where
  plain : (x : ℕ) → plain_from es x ≡ plain_from ds x
  writable : (x : ℕ) → writable_from es x ≡ writable_from ds x
  bytes : (x : ℕ) → peek_from es x ≡ change x (peek_from ds x)

-- Only the byte at one address changes.
abbrev OnlyAt : ℕ → (ℕ → ℕ → ℕ) → Type 0
OnlyAt addr change = (x b : ℕ) → x ≢ addr → change x b ≡ b

in_range_ne :
    (d : Device) (x addr : ℕ)
    → in_range (range d) x ≡ true
    → in_range (range d) addr ≡ false
    → x ≢ addr
in_range_ne d x addr h k e = cc (ap (in_range (range d)) e)

Changed-here :
    (change : ℕ → ℕ → ℕ) (r r' : Ram) (ds : List Device) (addr : ℕ)
    → OnlyAt addr change
    → in_range r.range addr ≡ true
    → r'.range ≡ r.range
    → ((x : ℕ) → Ram.peek r' x ≡ change x (Ram.peek r x))
    → Changed change (ram r ∷ ds) (ram r' ∷ ds)
unfolding range
Changed-here change r r' ds addr only t e same = record {
  plain = λ x. ground (arith, ap (λ q. in_range q x) e);
  writable = λ x. ground (arith, ap (λ q. in_range q x) e, ap (λ q. in_range_span q x 1) e);
  bytes = λ x. elim (Bool-cases (in_range r.range x)) [
    | inl a ↦ ground (arith, a, ap (λ q. in_range q x) e, same x)
    | inr b ↦
        let ne : x ≢ addr = λ q. cc (ap (in_range r.range) q) in
        ground (arith, b, ap (λ q. in_range q x) e, only x (peek_from ds x) ne)
  ];
}

Changed-there :
    (change : ℕ → ℕ → ℕ) (d : Device) (ds es : List Device) (addr : ℕ)
    → OnlyAt addr change
    → in_range (range d) addr ≡ false
    → Changed change ds es
    → Changed change (d ∷ ds) (d ∷ es)
Changed-there change d ds es addr only f c = record {
  plain = λ x. rw (c.plain x);
  writable = λ x. rw (c.writable x);
  bytes = λ x. elim (Bool-cases (in_range (range d) x)) [
    | inl a ↦ let ne = in_range_ne d x addr a f in ground (arith, a, only x (held d x) ne)
    | inr b ↦ ground (arith, b, c.bytes x)
  ];
}

-- What an address that reaches a RAM or nothing finds.
data Finds (ds : List Device) (i addr : ℕ) : Type 0 where
  nothing :
      get_device_from ds i addr ≡ none
      → peek_from ds addr ≡ 255
      → writable_from ds addr ≡ false
      → Finds ds i addr
  device :
      (n : ℕ) (r : Ram)
      → get_device_from ds i addr ≡ some (i + n, ram r)
      → peek_from ds addr ≡ Ram.peek r addr
      → writable_from ds addr ≡ in_range_span r.range addr 1
      → ((change : ℕ → ℕ → ℕ) (r' : Ram)
          → OnlyAt addr change
          → r'.range ≡ r.range
          → ((x : ℕ) → Ram.peek r' x ≡ change x (Ram.peek r x))
          → Changed change ds (set ds n (ram r')))
      → Finds ds i addr

Finds-there :
    (d : Device) (ds : List Device) (i addr : ℕ)
    → in_range (range d) addr ≡ false
    → Finds ds (suc i) addr
    → Finds (d ∷ ds) i addr
unfolding get_device_from
Finds-there d ds i addr f (nothing a b c) = nothing (rw f a) (rw f b) (rw f c)
Finds-there d ds i addr f (device n r a b c k) =
    device (suc n) r (rw f (a ∙ ap (λ m. some (m, ram r)) (omega arith))) (rw f b) (rw f c)
      (λ change r' only e same.
        Changed-there change d ds (set ds n (ram r')) addr only f (k change r' only e same))

finds : (ds : List Device) (i addr : ℕ) → plain_from ds addr ≡ true → Finds ds i addr
unfolding get_device_from range
finds [] i addr h = nothing refl refl refl
finds (ram r ∷ ds) i addr h = elim (Bool-cases (in_range r.range addr)) [
  | inl t ↦
      device 0 r (rw t (ap (λ n. some (n, ram r)) (omega arith))) (rw t) (rw t)
        (λ change r' only e same. Changed-here change r r' ds addr only t e same)
  | inr f ↦ Finds-there (ram r) ds i addr f (finds ds (suc i) addr (rw f at h))
]
finds (uart u ∷ ds) i addr h = elim (Bool-cases (in_range u.range addr)) [
  | inl t ↦ absurd (cc (rw t at h))
  | inr f ↦ Finds-there (uart u) ds i addr f (finds ds (suc i) addr (rw f at h))
]

-- Reading a byte where the address reaches a RAM or nothing gives the byte held there, and changes
-- nothing that a later access can tell.
pub read_byte_plain :
    (bus : Bus) (addr : ℕ)
    → plain_at bus addr ≡ true
    → let (b, bus') = read_byte bus addr in
      (b ≡ peek_at bus addr)
      × ((x : ℕ) → plain_at bus' x ≡ plain_at bus x)
      × ((x : ℕ) → writable_at bus' x ≡ writable_at bus x)
      × ((x : ℕ) → peek_at bus' x ≡ peek_at bus x)
unfolding read_byte get_device_at Device.read_byte
read_byte_plain bus addr h = go (finds bus.devices 0 addr h)
  where
    go :
        Finds bus.devices 0 addr
        → let (b, bus') = read_byte bus addr in
          (b ≡ peek_at bus addr)
          × ((x : ℕ) → plain_at bus' x ≡ plain_at bus x)
          × ((x : ℕ) → writable_at bus' x ≡ writable_at bus x)
          × ((x : ℕ) → peek_at bus' x ≡ peek_at bus x)
    go (nothing a b c) = rw (a, read_byte) (sym b, (λ x. refl), (λ x. refl), (λ x. refl))
    go (device n r a b c k) =
        let same = λ (x : ℕ). read_byte_lem r addr x in
        let z : 0 + n ≡ n = omega arith in
        let ch =
          k (λ x v. v) (Ram.read_byte r addr).1 (λ x v ne. refl) (same 0).1 (λ x. (same x).2) in
        rw (a, read_byte) (rw z ((same 0).0 ∙ sym b, ch.plain, ch.writable, ch.bytes))

-- Writing a byte where the address reaches a RAM or nothing stores it, if there is a RAM with room
-- for it, and changes no other byte and no device that an address reaches.
pub write_byte_plain :
    (bus : Bus) (addr v : ℕ)
    → plain_at bus addr ≡ true
    → let (good, bus') = write_byte bus addr v in
      ((x : ℕ) → plain_at bus' x ≡ plain_at bus x)
      × ((x : ℕ) → writable_at bus' x ≡ writable_at bus x)
      × ((x : ℕ)
          → peek_at bus' x ≡ (if writable_at bus addr && (addr == x) then v else peek_at bus x))
unfolding write_byte get_device_at Device.write_byte
write_byte_plain bus addr v h = go (finds bus.devices 0 addr h)
  where
    go :
        Finds bus.devices 0 addr
        → let (good, bus') = write_byte bus addr v in
          ((x : ℕ) → plain_at bus' x ≡ plain_at bus x)
          × ((x : ℕ) → writable_at bus' x ≡ writable_at bus x)
          × ((x : ℕ)
              → peek_at bus' x ≡ (if writable_at bus addr && (addr == x) then v else peek_at bus x))
    go (nothing a b c) = rw (a, write_byte) ((λ x. refl), (λ x. refl), (λ x. rw c))
    go (device n r a b c k) =
        let stores = λ (x : ℕ). write_byte_lem r addr v x in
        let z : 0 + n ≡ n = omega arith in
        let ch =
          k (λ x w. if in_range_span r.range addr 1 && (addr == x) then v else w)
            (Ram.write_byte r addr v).1 (λ x w ne. ground (arith, ne)) (stores 0).1
            (λ x. (stores x).2) in
        rw (a, write_byte) (rw z (ch.plain, ch.writable, (λ x. rw c (ch.bytes x))))
