-- ===== src/Srec/Readmemh.antt =====
-- The dump against the loader that it is written for.
use mathlib.Core.List.{append_assoc, append-nil}
use scarv_cpu.Base.{
  ℕ, suc, ◌+◌, ◌%◌, ◌^◌, ◌≤◌, ◌<◌, ◌≡◌, ◌≢◌, refl, sym, ◌∙◌, Bool, true, false, if◌then◌else◌, List,
  [], ◌∷◌, ◌++◌, arith, ◌==◌, Bool-cases, inl, inr, u64,
}
use scarv_cpu.OrdMap.{OrdMap, put}
use scarv_cpu.Srec.{Line, address, byte, dump_from, dump_readmemh}

-- $readmemh into a memory of bytes, from a location on: an address sets the location, and a byte goes
-- to it and moves it on.
unfoldable pub load : ℕ → OrdMap → List Line → OrdMap
load at m [] = m
load at m (address a ∷ ls) = load a m ls
load at m (byte b ∷ ls) = load (suc at) (put at b m) ls

abbrev AllBelow : ℕ → OrdMap → Type 0
AllBelow n [] = Unit {0}
AllBelow n ((k, v) ∷ m) = (k < n) × AllBelow n m

-- Entries from a key on, below 2 ^ 16.
abbrev AllWithin : ℕ → OrdMap → Type 0
AllWithin n [] = Unit {0}
AllWithin n ((k, v) ∷ m) = (n ≤ k) × (k < 2 ^ 16) × AllWithin (suc k) m

put_last : (k v : ℕ) (m : OrdMap) → AllBelow k m → put k v m ≡ m ++ (k, v) ∷ []
unfolding put
put_last k v [] h = refl
put_last k v ((j, w) ∷ m) h = ground (arith, put_last k v m h.1)

AllBelow-snoc : (n k v : ℕ) (m : OrdMap) → AllBelow k m → k < n → AllBelow n (m ++ (k, v) ∷ [])
AllBelow-snoc n k v [] h lt = (lt, tt)
AllBelow-snoc n k v ((j, w) ∷ m) h lt = (omega arith, AllBelow-snoc n k v m h.1 lt)

AllBelow-mono : {n k : ℕ} (m : OrdMap) → n ≤ k → AllBelow n m → AllBelow k m
AllBelow-mono [] h b = tt
AllBelow-mono ((j, w) ∷ m) h b = (omega arith, AllBelow-mono m h b.1)

load-dump_from :
    (prev : ℕ) (acc m : OrdMap)
    → prev < 2 ^ 16
    → AllBelow (suc prev) acc
    → AllWithin (suc prev) m
    → load (suc prev) acc (dump_from prev m) ≡ acc ++ m
unfolding load dump_from
load-dump_from prev acc [] small below within = sym (append-nil acc)
load-dump_from prev acc ((k, v) ∷ m) small below within =
    let keep : u64 (0 + k) ≡ k = omega arith in
    let short : k % 2 ^ 16 ≡ k = omega arith in
    let last = put_last k v acc (AllBelow-mono acc within.0 below) in
    let rest =
      load-dump_from k (acc ++ (k, v) ∷ []) m within.1
        (AllBelow-snoc (suc k) k v acc (AllBelow-mono acc within.0 below) (omega arith)) within.2 in
    let whole = rest ∙ append_assoc acc ((k, v) ∷ []) m in
    elim (Bool-cases (u64 (prev + 1) == k)) [
      | inl e ↦ let here : suc prev ≡ k = ground arith in rw (keep, e, here, last) whole
      | inr e ↦ rw (keep, e, short, last) whole
    ]

-- A map whose keys rise from the first to the last, all of them below 2 ^ 16 and the first not 1.
abbrev IsDumpable : OrdMap → Type 0
IsDumpable [] = Unit {0}
IsDumpable ((k, v) ∷ m) = (k ≢ 1) × (k < 2 ^ 16) × AllWithin (suc k) m

dumped : (m : OrdMap) → IsDumpable m → load 0 [] (address 0 ∷ dump_from 0 m) ≡ m
unfolding load dump_from put
dumped [] d = refl
dumped ((k, v) ∷ m) d =
    let keep : u64 (0 + k) ≡ k = omega arith in
    let short : k % 2 ^ 16 ≡ k = omega arith in
    let apart : (u64 (0 + 1) == k) ≡ false = ground (arith, d.0) in
    rw (keep, apart, short) (load-dump_from k ((k, v) ∷ []) m d.1 (omega arith, tt) d.2)

-- A map with rising keys below 2 ^ 16, the first of which is not 1. Where the file can be opened,
-- `dump_readmemh` returns true, and what it writes is loaded back by `$readmemh` as the same map into
-- a memory of bytes, whatever the size of a memory word that it is asked for: two different sizes
-- give the same file. Where the file cannot be opened, it returns false and writes nothing.
pub load-dump_readmemh :
    (m : OrdMap) (is_open : Bool) (size size' : ℕ)
    → IsDumpable m
    → let (result, file) = dump_readmemh is_open size m in
      (result ≡ is_open)
      × (load 0 [] file ≡ (if is_open then m else []))
      × (dump_readmemh is_open size' m ≡ (result, file))
unfolding load dump_readmemh
load-dump_readmemh m true size size' d = (refl, dumped m d, refl)
load-dump_readmemh m false size size' d = (refl, refl, refl)
