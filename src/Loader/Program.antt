-- ===== src/Loader/Program.antt =====
-- Loading a whole file: what the memory holds afterwards, from the text of the file.
use scarv_cpu.Base.{
  ℕ, suc, ◌≡◌, refl, ◌∙◌, ap, true, List, [], ◌∷◌, Option, none, some, Bool-cases, inl, inr, ltb,
  ◌==◌,
}
use scarv_cpu.OrdMap.{OrdMap, put, find}
use scarv_cpu.Bus.{Bus}
use scarv_cpu.Bus.Bytes.{peek_at, plain_at, writable_at}
use scarv_cpu.Srec.Parse.{put_all}
use scarv_cpu.Srec.Files.{
  Record, blank, other, bytes_at, file_text, AreRecords, byte_at, either, put_records,
  srec_file-file_text, find-put_records, put_records-IsSorted,
}
use scarv_cpu.Loader.{write_entries, load_srec_file}
use scarv_cpu.Loader.Loaded.{AllWritable, byte_or, write_entries_lem}

-- Every byte of a stretch reaches a RAM with room for it.
abbrev HasRoom : Bus → ℕ → List ℕ → Type 0
HasRoom bus addr [] = Unit {0}
HasRoom bus addr (b ∷ bs) =
    (plain_at bus addr ≡ true) × (writable_at bus addr ≡ true) × HasRoom bus (suc addr) bs

-- So does every byte of the records.
abbrev pub AllHaveRoom : Bus → List Record → Type 0
AllHaveRoom bus [] = Unit {0}
AllHaveRoom bus (blank ∷ rs) = AllHaveRoom bus rs
AllHaveRoom bus (other c0 c1 c2 c3 rest ∷ rs) = AllHaveRoom bus rs
AllHaveRoom bus (bytes_at addr bytes rest ∷ rs) = HasRoom bus addr bytes × AllHaveRoom bus rs

put-AllWritable :
    (bus : Bus) (k v : ℕ) (m : OrdMap)
    → plain_at bus k ≡ true
    → writable_at bus k ≡ true
    → AllWritable bus m
    → AllWritable bus (put k v m)
unfolding put
put-AllWritable bus k v [] p w a = (p, w, tt)
put-AllWritable bus k v ((j, u) ∷ m) p w a = elim (Bool-cases (k == j)) [
  | inl same ↦ rw same (p, w, a.2)
  | inr apart ↦ elim (Bool-cases (ltb k j)) [
    | inl before ↦ rw (apart, before) (p, w, a)
    | inr behind ↦ rw (apart, behind) (a.0, a.1, put-AllWritable bus k v m p w a.2)
  ]
]

put_all-AllWritable :
    (bus : Bus) (addr : ℕ) (bytes : List ℕ) (m : OrdMap)
    → HasRoom bus addr bytes
    → AllWritable bus m
    → AllWritable bus (put_all addr bytes m)
put_all-AllWritable bus addr [] m h a = a
put_all-AllWritable bus addr (b ∷ bs) m h a =
    put_all-AllWritable bus (suc addr) bs (put addr b m) h.2
      (put-AllWritable bus addr b m h.0 h.1 a)

put_records-AllWritable :
    (bus : Bus) (rs : List Record) (m : OrdMap)
    → AllHaveRoom bus rs
    → AllWritable bus m
    → AllWritable bus (put_records rs m)
unfolding put_records
put_records-AllWritable bus [] m h a = a
put_records-AllWritable bus (blank ∷ rs) m h a = put_records-AllWritable bus rs m h a
put_records-AllWritable bus (other c0 c1 c2 c3 rest ∷ rs) m h a =
    put_records-AllWritable bus rs m h a
put_records-AllWritable bus (bytes_at addr bytes rest ∷ rs) m h a =
    put_records-AllWritable bus rs (put_all addr bytes m) h.1
      (put_all-AllWritable bus addr bytes m h.0 a)

either-none : (o : Option ℕ) → either o none ≡ o
either-none none = refl
either-none (some v) = refl

-- A file of lines, each of which is empty, of a type other than 3 with at least four characters, or a
-- data record that the parser reads, and whose bytes all reach a RAM with room for them: loading it
-- ends, and leaves at each address the byte of the last record that has one there, and where no
-- record has one, the byte that was there.
pub load_srec_file-file_text :
    (bus : Bus) (rs : List Record)
    → AreRecords rs
    → AllHaveRoom bus rs
    → (bus' : Bus) × (load_srec_file bus (some (file_text rs)) ≡ some bus')
      × ((x : ℕ) → peek_at bus' x ≡ byte_or (byte_at rs x) (peek_at bus x))
unfolding load_srec_file find
load_srec_file-file_text bus rs v room =
    let m = put_records rs [] in
    let parsed = srec_file-file_text rs v in
    let sorted = put_records-IsSorted rs [] tt in
    let writable = put_records-AllWritable bus rs [] room tt in
    (
      write_entries bus m,
      rw (parsed, load_srec_file) refl,
      λ x.
          write_entries_lem bus m x sorted writable
          ∙ ap (λ o. byte_or o (peek_at bus x))
              (find-put_records x rs [] ∙ either-none (byte_at rs x)),
    )
