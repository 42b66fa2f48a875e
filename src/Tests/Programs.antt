-- ===== src/Tests/Programs.antt =====
-- The theorems on the boot loader, the console of the benchmarks and the arguments, at concrete
-- values.
use scarv_cpu.Base.{
  ◌<◌, ◌/◌, ◌^◌, ◌+◌, ◌≢◌, ◌-◌, ◌↔◌, ℕ, ◌≡◌, refl, true, false, List, [], ◌∷◌, ◌++◌, map, length,
  some, arith, codes, if◌then◌else◌, ◌%◌, ◌==◌,
}
use scarv_cpu.Device.{uart, range}
use scarv_cpu.Device.Range.{in_range}
use scarv_cpu.Device.Uart.Lines.{text_of, transcript}
use scarv_cpu.Bus.{get_device_at, get_device_from}
use scarv_cpu.Srec.Parse.{put_all}
use scarv_cpu.Fsbl.{Hardware, rx_valid, tx_full, fsbl, fsbl_uart_setup, set_leds}
use scarv_cpu.Fsbl.Loads.{UartLite, image, fsbl_loads}
use scarv_cpu.Embench.{putstr, puthex64, puthex32, puthex8, puthex64_nlz}
use scarv_cpu.Embench.Benchmark.{Board, run_benchmark, report, run_benchmark-report}
use scarv_cpu.Embench.Hex.{hex_value, drop_zeros, puthex_digits, puthex64_nlz_drops}
use scarv_cpu.Embench.Console.{store_all, putstr_prints}
use scarv_cpu.Arguments.Written
use scarv_cpu.Arguments.Written.{Digits, IsNumber, value}
use scarv_cpu.Arguments.{defaults, process_arguments, ok}
use scarv_cpu.Arguments.Meaning.{
  Argument, imem, timeout, pass_addr, text, apply_all, process_arguments-text,
}
use scarv_cpu.Tests.{small_uart, small_bus}

-- A UART that holds what it delivers, and is never full.
abbrev take : List ℕ → ℕ × List ℕ
take [] = (0, [])
take (b ∷ bs) = (b, bs)

abbrev status : List ℕ → ℕ
status [] = 0
status (b ∷ bs) = 1

abbrev receive : ℕ → List ℕ → ℕ × List ℕ
receive i s = if i == 0 then take s else if i == 2 then (status s, s) else (0, s)

abbrev simple_board : Hardware
simple_board = record {
  State = List ℕ;
  uart_read = receive;
  uart_write = λ i w s. s;
  gpio_read = λ i s. (0, s);
  gpio_write = λ i w s. s;
}

abbrev bytes_of : List ℕ → List ℕ
bytes_of = map (λ b. b % 256)

take_first :
    (s : List ℕ) (b : ℕ) (bs : List ℕ)
    → bytes_of s ≡ b ∷ bs
    → ((take s).0 % 256 ≡ b) × (bytes_of (take s).1 ≡ bs)
take_first [] b bs e = absurd (cc)
take_first (c ∷ s) b bs e = (cc, cc)

status_valid : (s : List ℕ) (b : ℕ) (bs : List ℕ) → bytes_of s ≡ b ∷ bs → rx_valid (status s) ≡ true
status_valid [] b bs e = absurd (cc)
status_valid (c ∷ s) b bs e = refl

status_free : (s : List ℕ) → tx_full (status s) ≡ false
status_free [] = refl
status_free (b ∷ s) = refl

abbrev simple_uart : UartLite simple_board
simple_uart = record {
  pending = bytes_of;
  patience = 1;
  rx_wait = λ s. 0;
  tx_wait = λ s. 0;
  rx_wait_bound = λ s. omega arith;
  tx_wait_bound = λ s. omega arith;
  status_keeps = λ s. refl;
  rx_waits = λ s b bs e h. absurd (cc (status_valid s b bs e, h));
  receives = λ s b bs e h. take_first s b bs e;
  tx_waits = λ s h. absurd (cc (status_free s, h));
  sends = λ s w. refl;
  leds_read = λ s i. refl;
  leds_write = λ s i w. refl;
}

-- Two bytes for the address 4096.
fsbl_loads_example :
    (s' : List ℕ) × (fsbl simple_board 1 [] (image 4096 (7 ∷ 9 ∷ []))
      ≡ some (4096, put_all 4096 (7 ∷ 9 ∷ []) [], s'))
    × (bytes_of s' ≡ [])
unfolding fsbl_uart_setup set_leds
fsbl_loads_example =
    fsbl_loads simple_board simple_uart 1 4096 (7 ∷ 9 ∷ []) [] [] (image 4096 (7 ∷ 9 ∷ []))
      (omega arith) (omega arith) (omega arith) (omega arith) refl

puthex_digits_example :
    ((hex_value 0 (puthex64 0xAB) ≡ 0xAB) × (length (puthex64 0xAB) ≡ 16))
    × ((hex_value 0 (puthex32 0x80) ≡ 0x80) × (length (puthex32 0x80) ≡ 8))
    × ((hex_value 0 (puthex8 0x7F) ≡ 0x7F) × (length (puthex8 0x7F) ≡ 2))
puthex_digits_example = puthex_digits 0xAB 0x80 0x7F (omega arith) (omega arith) (omega arith)

puthex64_nlz_drops_example : puthex64_nlz 0xAB ≡ drop_zeros (puthex64 0xAB)
puthex64_nlz_drops_example = puthex64_nlz_drops 0xAB

-- A line and what follows it.
abbrev greeting : List (List ℕ)
greeting = codes "hi" ∷ []

putstr_prints_example :
    get_device_at (store_all small_bus 8192 (putstr (text_of greeting ++ codes "x"))) 8192
    ≡ some (1, uart (record small_uart { tx_buffer = codes "x"; stdout = transcript greeting }))
unfolding get_device_at get_device_from in_range range
putstr_prints_example =
    putstr_prints small_bus 1 small_uart greeting (codes "x") refl
      record { base = refl; top = refl; small = omega arith; rx = refl; ctrl = refl; status = refl }
      refl refl (((λ e. absurd (omega (arith, e))), ((λ e. absurd (omega (arith, e))), tt)), tt)
      ((λ e. absurd (omega (arith, e))), tt)
      (omega arith, (omega arith, (omega arith, (omega arith, tt)))) refl

abbrev three_arguments : List Argument
three_arguments =
    imem (codes "prog.srec")
    ∷ timeout record { first = 2; rest = 0 ∷ [] }
    ∷ pass_addr record { first = 8; rest = 0 ∷ 0xA ∷ [] }
    ∷ []

process_arguments-text_example :
    process_arguments defaults (map text three_arguments) ≡ ok (apply_all defaults three_arguments)
process_arguments-text_example = process_arguments-text three_arguments defaults (
  refl,
  (
    record { first_below = omega arith; rest_below = (omega arith, tt); fits = omega arith },
    (
      record {
        first_below = omega arith;
        rest_below = (omega arith, (omega arith, tt));
        fits = omega arith;
      },
      tt,
    ),
  ),
)

-- A number below 10 ^ 10 in ten digits.
abbrev ten_digits : ℕ → Digits
ten_digits n = record {
  first = n / 10 ^ 9 % 10;
  rest =
      n / 10 ^ 8 % 10
      ∷ n / 10 ^ 7 % 10
      ∷ n / 10 ^ 6 % 10
      ∷ n / 10 ^ 5 % 10
      ∷ n / 10 ^ 4 % 10
      ∷ n / 1000 % 10
      ∷ n / 100 % 10
      ∷ n / 10 % 10
      ∷ n % 10
      ∷ [];
}

value-ten_digits : (n : ℕ) → n < 2 ^ 32 → value 10 (ten_digits n) ≡ n
value-ten_digits n small = omega arith

ten_digits-IsNumber : (n : ℕ) → n < 2 ^ 32 → IsNumber 10 (ten_digits n)
ten_digits-IsNumber n small = record {
  first_below = omega arith;
  rest_below = (
    omega arith,
    (
      omega arith,
      (
        omega arith,
        (
          omega arith,
          (omega arith, (omega arith, (omega arith, (omega arith, (omega arith, tt))))),
        ),
      ),
    ),
  );
  fits = omega (arith, value-ten_digits n small);
}

-- A benchmark over which the counter of cycles wraps and its count passes 2 ^ 32, and that is
-- verified. The state is the number of reads of a counter so far. A number is written in ten digits.
abbrev many_cycles : Board
many_cycles = record {
  State = ℕ;
  initialise_benchmark = λ s. 0;
  benchmark = λ s. (42, s);
  verify_benchmark = λ r s. (1, s);
  rdinstret = λ s. (if s == 0 then 7 else 10, s + 1);
  rdcycle = λ s. (if s == 1 then 2 ^ 64 - 2 else 2 ^ 32 + 3, s + 1);
  decimal = λ n. Written.decimal (ten_digits n);
}

many_cycles_text :
    (n : ℕ)
    → n < 2 ^ 32
    → (d : Digits) × IsNumber 10 d × (value 10 d ≡ n) × (many_cycles.decimal n ≡ Written.decimal d)
many_cycles_text n small =
    (ten_digits n, ten_digits-IsNumber n small, value-ten_digits n small, refl)

run_benchmark-report_example :
    let (status, console, s'') = run_benchmark many_cycles 9 in
    (c : Digits) × (i : Digits) × IsNumber 10 c
    × IsNumber 10 i
    × (value 10 c ≡ (2 ^ 32 + 5) % 2 ^ 32)
    × (value 10 i ≡ 3 % 2 ^ 32)
    × (console ≡ report many_cycles (Written.decimal c) (Written.decimal i))
    × ((status ≡ 0) ↔ ((many_cycles.verify_benchmark 42 4).0 ≢ 0))
run_benchmark-report_example =
    run_benchmark-report many_cycles 9 4 42 3 (2 ^ 32 + 5) many_cycles_text record {
      i_start = 7;
      c_start = 2 ^ 64 - 2;
      s1 = 1;
      s2 = 2;
      s3 = 2;
      s4 = 3;
      reads_i = refl;
      reads_c = refl;
      runs = refl;
      rereads_i = refl;
      rereads_c = refl;
      i_fits = omega arith;
      c_fits = omega arith;
      instrs_fit = omega arith;
      cycles_fit = omega arith;
    }
