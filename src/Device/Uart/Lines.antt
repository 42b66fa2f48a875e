-- ===== src/Device/Uart/Lines.antt =====
-- The UART prints what is written to its register TX line by line.
use mathlib.Core.List.{append_assoc, append-nil}
use scarv_cpu.Base.{ℕ, ◌%◌, ◌≡◌, ◌≢◌, refl, sym, ◌∙◌, ap, List, [], ◌∷◌, ◌++◌, arith}
use scarv_cpu.Device.Uart.{Uart, newline, prompt, print_buffer, write_to_tx_buffer, write_byte}

print_buffer-append : (out bs : List ℕ) → print_buffer out bs ≡ out ++ bs
unfolding print_buffer
print_buffer-append out [] = sym (append-nil out)
print_buffer-append out (b ∷ bs) =
    print_buffer-append (out ++ b ∷ []) bs ∙ append_assoc out (b ∷ []) bs

-- Bytes written one after another to the register TX.
unfoldable pub write_all : Uart → List ℕ → Uart
write_all u [] = u
write_all u (b ∷ bs) = write_all (write_byte u u.addr_tx b).1 bs

abbrev pub HasNoNewline : List ℕ → Type 0
HasNoNewline [] = Unit {0}
HasNoNewline (b ∷ bs) = (b ≢ newline) × HasNoNewline bs

abbrev pub AllLines : List (List ℕ) → Type 0
AllLines [] = Unit {0}
AllLines (l ∷ ls) = HasNoNewline l × AllLines ls

-- The bytes of complete lines, and how they are printed.
abbrev pub ended : List ℕ → List ℕ
ended l = l ++ newline ∷ []

abbrev pub printed : List ℕ → List ℕ
printed l = prompt ++ ended l

write_byte_held :
    (u : Uart) (b : ℕ)
    → u.addr_tx % 4 ≡ 0
    → b ≢ newline
    → (write_byte u u.addr_tx b).1 ≡ record u { tx_buffer = u.tx_buffer ++ b ∷ [] }
unfolding write_byte write_to_tx_buffer
write_byte_held u b aligned h = ground arith

write_byte-newline :
    (u : Uart)
    → u.addr_tx % 4 ≡ 0
    → (write_byte u u.addr_tx newline).1
      ≡ record u { tx_buffer = []; stdout = u.stdout ++ printed u.tx_buffer }
unfolding write_byte write_to_tx_buffer
write_byte-newline u aligned = ground (
  arith,
  print_buffer-append (u.stdout ++ prompt) (ended u.tx_buffer),
  append_assoc u.stdout prompt (ended u.tx_buffer),
)

write_all-append :
    (u : Uart) (bs cs : List ℕ) → write_all u (bs ++ cs) ≡ write_all (write_all u bs) cs
unfolding write_all
write_all-append u [] cs = refl
write_all-append u (b ∷ bs) cs = write_all-append (write_byte u u.addr_tx b).1 bs cs

write_all_held :
    (u : Uart) (bs : List ℕ)
    → u.addr_tx % 4 ≡ 0
    → HasNoNewline bs
    → write_all u bs ≡ record u { tx_buffer = u.tx_buffer ++ bs }
unfolding write_all
write_all_held u [] aligned h = rw append-nil
write_all_held u (b ∷ bs) aligned h = rw (write_byte_held u b aligned h.0) (
    write_all_held (record u { tx_buffer = u.tx_buffer ++ b ∷ [] }) bs aligned h.1
    ∙ ap (λ t. record u { tx_buffer = t }) (append_assoc u.tx_buffer (b ∷ []) bs))

write_all_line :
    (u : Uart) (l : List ℕ)
    → u.addr_tx % 4 ≡ 0
    → HasNoNewline l
    → write_all u (ended l)
      ≡ record u { tx_buffer = []; stdout = u.stdout ++ printed (u.tx_buffer ++ l) }
unfolding write_all
write_all_line u l aligned h =
    rw (write_all-append u l (newline ∷ []), write_all_held u l aligned h)
      (write_byte-newline (record u { tx_buffer = u.tx_buffer ++ l }) aligned)

-- The bytes of a text of lines, and what is printed for it.
abbrev pub text_of : List (List ℕ) → List ℕ
text_of [] = []
text_of (l ∷ ls) = ended l ++ text_of ls

abbrev pub transcript : List (List ℕ) → List ℕ
transcript [] = []
transcript (l ∷ ls) = printed l ++ transcript ls

-- Written to a UART that holds nothing back and whose register TX is word-aligned, each complete
-- line is printed once, in order and behind the prompt; what follows the last newline is held back.
-- Nothing else of the UART changes.
pub write_all_lines :
    (ls : List (List ℕ)) (u : Uart) (rest : List ℕ)
    → u.addr_tx % 4 ≡ 0
    → u.tx_buffer ≡ []
    → AllLines ls
    → HasNoNewline rest
    → write_all u (text_of ls ++ rest)
      ≡ record u { tx_buffer = rest; stdout = u.stdout ++ transcript ls }
write_all_lines [] u rest aligned e hl hr =
    rw (write_all_held u rest aligned hr) (ground (arith, append-nil u.stdout))
write_all_lines (l ∷ ls) u rest aligned e hl hr =
    rw (append_assoc, write_all-append u (ended l) (text_of ls ++ rest))
      (rw (write_all_line u l aligned hl.0) (
        write_all_lines ls _ rest aligned refl hl.1 hr
        ∙ ground (arith, append_assoc u.stdout (printed l) (transcript ls))))
