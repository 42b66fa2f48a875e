-- ===== src/Srec/Files.antt =====
-- What the parser reads from a whole file.
use mathlib.Core.List.{append_assoc, append-nil}
use scarv_cpu.Base.{
  AllBytes, ℕ, suc, ◌+◌, ◌/◌, ◌%◌, ◌^◌, ◌<◌, ◌≡◌, refl, sym, ◌∙◌, ap, true, false, List, [], ◌∷◌,
  ◌++◌, map, Option, none, some, length, lacks, ◌==◌, if◌then◌else◌, arith,
}
use scarv_cpu.OrdMap.{OrdMap, put, find, find-put, IsSorted, put-IsSorted}
use scarv_cpu.Srec.{lines_from, get_lines, char_at, read_line, read_lines, srec_file}
use scarv_cpu.Srec.Parse.{data_record, put_all, read_line-data_record}

-- A line of a file: an empty one, one of at least four characters that is not of type 3, or a data
-- record with its address, its bytes and the text behind them.
pub data Record : Type 0 where
  blank : Record
  other : ℕ → ℕ → ℕ → ℕ → List ℕ → Record
  bytes_at : ℕ → List ℕ → List ℕ → Record

unfoldable pub line : Record → List ℕ
line blank = []
line (other c0 c1 c2 c3 rest) = c0 ∷ c1 ∷ c2 ∷ c3 ∷ rest
line (bytes_at addr bytes rest) = data_record addr bytes rest

unfoldable pub file_text : List Record → List ℕ
file_text [] = []
file_text (r ∷ rs) = line r ++ 10 ∷ file_text rs

-- A data record has an address of 32 bits and a count that is written without letters.
abbrev IsReadable : Record → Type 0
IsReadable blank = Unit {0}
IsReadable (other c0 c1 c2 c3 rest) = (c1 % 16 == 3) ≡ false
IsReadable (bytes_at addr bytes rest) =
    (addr < 2 ^ 32)
    × AllBytes bytes
    × (((length bytes + 5) / 16 < 10) × ((length bytes + 5) % 16 < 10))

-- A line is on one line, and readable.
abbrev pub AreRecords : List Record → Type 0
AreRecords [] = Unit {0}
AreRecords (r ∷ rs) = (lacks 10 (line r) ≡ true) × IsReadable r × AreRecords rs

-- The byte that a stretch of bytes has at an address.
abbrev pub byte_in : ℕ → List ℕ → ℕ → Option ℕ
byte_in addr [] x = none
byte_in addr (b ∷ bs) x = if addr == x then some b else byte_in (suc addr) bs x

abbrev pub byte_of : Record → ℕ → Option ℕ
byte_of blank x = none
byte_of (other c0 c1 c2 c3 rest) x = none
byte_of (bytes_at addr bytes rest) x = byte_in addr bytes x

abbrev pub either : Option ℕ → Option ℕ → Option ℕ
either none o = o
either (some v) o = some v

-- The byte that a file has at an address: that of the last record that has one there.
unfoldable pub byte_at : List Record → ℕ → Option ℕ
byte_at [] x = none
byte_at (r ∷ rs) x = either (byte_at rs x) (byte_of r x)

-- The map after the records, one after another.
abbrev put_record : Record → OrdMap → OrdMap
put_record blank m = m
put_record (other c0 c1 c2 c3 rest) m = m
put_record (bytes_at addr bytes rest) m = put_all addr bytes m

unfoldable pub put_records : List Record → OrdMap → OrdMap
put_records [] m = m
put_records (r ∷ rs) m = put_records rs (put_record r m)

lines_from-line :
    (acc l rest : List ℕ)
    → lacks 10 l ≡ true
    → lines_from acc (l ++ 10 ∷ rest) ≡ (acc ++ l) ∷ lines_from [] rest
unfolding lines_from
lines_from-line acc [] rest h = ap (λ l. l ∷ lines_from [] rest) (sym (append-nil acc))
lines_from-line acc (c ∷ l) rest h =
    let no : (c == 10) ≡ false = ground (arith, h) in
    let more : lacks 10 l ≡ true = ground (arith, h) in
    rw (no, lines_from)
      (lines_from-line (acc ++ c ∷ []) l rest more
        ∙ ap (λ k. k ∷ lines_from [] rest) (append_assoc acc (c ∷ []) l))

get_lines-file_text : (rs : List Record) → AreRecords rs → get_lines (file_text rs) ≡ map line rs
unfolding get_lines lines_from file_text
get_lines-file_text [] v = refl
get_lines-file_text (r ∷ rs) v =
    lines_from-line [] (line r) (file_text rs) v.0
    ∙ ap (λ ls. line r ∷ ls) (get_lines-file_text rs v.2)

other_line :
    (c0 c1 c2 c3 : ℕ) (rest : List ℕ) (m : OrdMap)
    → (c1 % 16 == 3) ≡ false
    → read_line (c0 ∷ c1 ∷ c2 ∷ c3 ∷ rest) m ≡ some m
unfolding read_line char_at
other_line c0 c1 c2 c3 rest m h = rw h refl

read_line-line :
    (r : Record) (m : OrdMap) → IsReadable r → read_line (line r) m ≡ some (put_record r m)
unfolding line
read_line-line blank m v = unfold read_line in refl
read_line-line (other c0 c1 c2 c3 rest) m v = other_line c0 c1 c2 c3 rest m v
read_line-line (bytes_at addr bytes rest) m v = read_line-data_record addr bytes rest m v.0 v.1 v.2

read_lines-records :
    (rs : List Record) (m : OrdMap)
    → AreRecords rs
    → read_lines (map line rs) m ≡ some (put_records rs m)
unfolding read_lines put_records
read_lines-records [] m v = refl
read_lines-records (r ∷ rs) m v =
    rw (read_line-line r m v.1) (read_lines-records rs (put_record r m) v.2)

pub srec_file-file_text :
    (rs : List Record) → AreRecords rs → srec_file (some (file_text rs)) ≡ some (put_records rs [])
unfolding srec_file
srec_file-file_text rs v =
    ap (λ ls. read_lines ls []) (get_lines-file_text rs v) ∙ read_lines-records rs [] v

byte_in_behind : (addr : ℕ) (bytes : List ℕ) (x : ℕ) → x < addr → byte_in addr bytes x ≡ none
byte_in_behind addr [] x h = refl
byte_in_behind addr (b ∷ bs) x h = ground (arith, byte_in_behind (suc addr) bs x)

find-put_all :
    (x addr : ℕ) (bytes : List ℕ) (m : OrdMap)
    → find x (put_all addr bytes m) ≡ either (byte_in addr bytes x) (find x m)
find-put_all x addr [] m = refl
find-put_all x addr (b ∷ bs) m = ground (
  arith,
  find-put_all x (suc addr) bs (put addr b m),
  find-put addr b x m,
  byte_in_behind (suc addr) bs x,
)

find-put_record :
    (x : ℕ) (r : Record) (m : OrdMap) → find x (put_record r m) ≡ either (byte_of r x) (find x m)
find-put_record x blank m = refl
find-put_record x (other c0 c1 c2 c3 rest) m = refl
find-put_record x (bytes_at addr bytes rest) m = find-put_all x addr bytes m

either_assoc : (a b c : Option ℕ) → either a (either b c) ≡ either (either a b) c
either_assoc none b c = refl
either_assoc (some v) b c = refl

pub find-put_records :
    (x : ℕ) (rs : List Record) (m : OrdMap)
    → find x (put_records rs m) ≡ either (byte_at rs x) (find x m)
unfolding put_records byte_at
find-put_records x [] m = refl
find-put_records x (r ∷ rs) m =
    find-put_records x rs (put_record r m)
    ∙ ap (either (byte_at rs x)) (find-put_record x r m)
    ∙ either_assoc (byte_at rs x) (byte_of r x) (find x m)

put_all-IsSorted :
    (addr : ℕ) (bytes : List ℕ) (m : OrdMap) → IsSorted m → IsSorted (put_all addr bytes m)
put_all-IsSorted addr [] m s = s
put_all-IsSorted addr (b ∷ bs) m s =
    put_all-IsSorted (suc addr) bs (put addr b m) (put-IsSorted addr b m s)

pub put_records-IsSorted :
    (rs : List Record) (m : OrdMap) → IsSorted m → IsSorted (put_records rs m)
unfolding put_records
put_records-IsSorted [] m s = s
put_records-IsSorted (blank ∷ rs) m s = put_records-IsSorted rs m s
put_records-IsSorted (other c0 c1 c2 c3 rest ∷ rs) m s = put_records-IsSorted rs m s
put_records-IsSorted (bytes_at addr bytes rest ∷ rs) m s =
    put_records-IsSorted rs (put_all addr bytes m) (put_all-IsSorted addr bytes m s)
