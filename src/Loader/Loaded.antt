-- ===== src/Loader/Loaded.antt =====
-- What the memory holds once a file is loaded.
use scarv_cpu.Base.{ℕ, ◌≤◌, ◌≡◌, refl, ◌∙◌, true, [], ◌∷◌, Option, none, some, arith}
use scarv_cpu.OrdMap.{OrdMap, find, IsSorted, Rising}
use scarv_cpu.Bus.{Bus}
use scarv_cpu.Bus
use scarv_cpu.Bus.Bytes.{peek_at, plain_at, writable_at, write_byte_plain}
use scarv_cpu.Loader.{write_entries}

-- Every address of the map reaches a RAM that has room for a byte there.
abbrev pub AllWritable : Bus → OrdMap → Type 0
AllWritable bus [] = Unit {0}
AllWritable bus ((k, v) ∷ m) =
    (plain_at bus k ≡ true) × (writable_at bus k ≡ true) × AllWritable bus m

-- The byte at an address after the entries are written over an old byte; a key is found once.
abbrev pub byte_or : Option ℕ → ℕ → ℕ
byte_or none b = b
byte_or (some v) b = v

Rising-IsSorted : (n : ℕ) (m : OrdMap) → Rising n m → IsSorted m
Rising-IsSorted n [] r = tt
Rising-IsSorted n ((k, v) ∷ m) r = r.1

Rising-find : (n x : ℕ) (m : OrdMap) → Rising n m → x ≤ n → find x m ≡ none
unfolding find
Rising-find n x [] r h = refl
Rising-find n x ((k, v) ∷ m) r h = ground (arith, Rising-find k x m r.1)

AllWritable-same :
    (bus bus' : Bus) (m : OrdMap)
    → ((x : ℕ) → plain_at bus' x ≡ plain_at bus x)
    → ((x : ℕ) → writable_at bus' x ≡ writable_at bus x)
    → AllWritable bus m
    → AllWritable bus' m
AllWritable-same bus bus' [] p w a = tt
AllWritable-same bus bus' ((k, v) ∷ m) p w a =
    (p k ∙ a.0, w k ∙ a.1, AllWritable-same bus bus' m p w a.2)

-- Where every address of a map with rising keys reaches a RAM with room for it, loading the map
-- leaves at each of its addresses the byte of the map, and at every other address the byte that was
-- there.
pub write_entries_lem :
    (bus : Bus) (m : OrdMap) (x : ℕ)
    → IsSorted m
    → AllWritable bus m
    → peek_at (write_entries bus m) x ≡ byte_or (find x m) (peek_at bus x)
unfolding write_entries find
write_entries_lem bus [] x s a = refl
write_entries_lem bus ((k, v) ∷ m) x s a =
    let wrote = write_byte_plain bus k v a.0 in
    let bus' = (Bus.write_byte bus k v).1 in
    let rest =
      write_entries_lem bus' m x (Rising-IsSorted k m s)
        (AllWritable-same bus bus' m wrote.0 wrote.1 a.2) in
    ground (arith, rest, wrote.2 x, a.1, Rising-find k x m s)
