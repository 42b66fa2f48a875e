-- ===== src/Tests/Core.antt =====
-- Concrete runs of the modules of the core.
use scarv_cpu.Base.{ℕ, ◌+◌, ◌*◌, ◌≡◌, refl, true, false, List, [], ◌∷◌, ◌++◌, arith}
use scarv_cpu.Rtl.FetchBuffer.{
  Buffer, buf_err, buf_out, buf_16, buf_32, buf_out_2, buf_out_4, buf_valid, eat_2, eat_4, f_ready,
  bdepth_add, bdepth_sub, insert_at, n_bdepth, n_buffer_d, n_buffer, n_buffer_err, posedge_clk,
}
use scarv_cpu.Rtl.FetchBuffer
use scarv_cpu.Rtl.FetchBuffer.Queue.{Holds, empty-Holds}
use scarv_cpu.Rtl.FetchBuffer.Stream.{run, received, LegalRun, received-run}
use scarv_cpu.Rtl.Fetch
use scarv_cpu.Rtl.Fetch.{Fetch}
use scarv_cpu.Rtl.Fetch.Spec.{IsServed, next_pending}
use scarv_cpu.Rtl.Fetch.Stream
use scarv_cpu.Rtl.Fetch.Stream.{Reached, Straight, reset, received-jump}
use scarv_cpu.Rtl.Fetch.Progress.{posedge_clk-holds_request, f_ready-starved}
use scarv_cpu.Rtl.FetchBuffer.Errors.{posedge_clk-drops_held_error}

abbrev empty_buffer : Buffer
empty_buffer = record { buffer = 0; buffer_err = 0; bdepth = 0 }

-- Two instructions of two bytes come in, then one of four, while the decoder takes the first.
abbrev first_word : FetchBuffer.Inputs
first_word = record {
  g_resetn = true;
  flush = false;
  f_4byte = true;
  f_2byte = false;
  f_err = false;
  f_in = 65536 * 1 + 32898;
  buf_ready = false;
}

abbrev second_word : FetchBuffer.Inputs
second_word = record first_word { f_in = 19; buf_ready = true }

abbrev no_word : FetchBuffer.Inputs
no_word = record second_word { f_4byte = false }

abbrev buffer_cycles : List FetchBuffer.Inputs
buffer_cycles = first_word ∷ second_word ∷ no_word ∷ no_word ∷ []

buffer_cycles-LegalRun : LegalRun empty_buffer buffer_cycles
unfolding f_ready posedge_clk
buffer_cycles-LegalRun = (
  (record { ready = λ _. refl; one_way = refl; word = omega arith }, refl),
  (
    (record { ready = λ _. refl; one_way = refl; word = omega arith }, refl),
    (
      (record { ready = λ _. refl; one_way = refl; word = omega arith }, refl),
      ((record { ready = λ _. refl; one_way = refl; word = omega arith }, refl), tt),
    ),
  ),
)

received-run_example :
    Holds (run empty_buffer buffer_cycles) []
    × (32898 ∷ 1 ∷ 19 ∷ 0 ∷ [] ≡ received empty_buffer buffer_cycles ++ [])
received-run_example = received-run empty_buffer [] buffer_cycles empty-Holds buffer_cycles-LegalRun

-- A nop of four bytes that the memory answered with an error.
abbrev faulty_buffer : Buffer
faulty_buffer = record { buffer = 19; buffer_err = 3; bdepth = 2 }

posedge_clk-drops_held_error_example : buf_err (posedge_clk faulty_buffer first_word) ≡ false
posedge_clk-drops_held_error_example =
    posedge_clk-drops_held_error faulty_buffer first_word refl (omega arith) refl refl refl refl

-- The fetch stage after a reset, with a memory whose words are their addresses in the upper half.
abbrev imem : ℕ → ℕ
imem addr = 65536 * addr + 2

abbrev quiet : Fetch.Inputs
quiet = record {
  g_resetn = true;
  cf_req = false;
  cf_target = 0;
  imem_gnt = false;
  imem_recv = false;
  imem_error = false;
  imem_rdata = 0;
  s0_flush = false;
  s1_busy = false;
}

abbrev in_reset : Fetch.Inputs
in_reset = record quiet { g_resetn = false }

abbrev some_fetch : Fetch
some_fetch = record {
  imem_req = true;
  imem_addr = 12;
  reqs_outstanding = 3;
  ignore_rsps = 2;
  fetch_misaligned = true;
  i_core_fetch_buffer = faulty_buffer;
}

-- A jump into the middle of a word, then a grant, the answer, and a cycle in which the decoder takes
-- the instruction.
abbrev jump : Fetch.Inputs
jump = record quiet { cf_req = true; cf_target = 6; s0_flush = true }

abbrev fetch_cycles : List Fetch.Inputs
fetch_cycles =
    record quiet { imem_gnt = true }
    ∷ record quiet { imem_recv = true; imem_rdata = imem 4 }
    ∷ quiet
    ∷ []

abbrev no_request : List ℕ
no_request = []

abbrev fresh : Fetch
fresh = Fetch.posedge_clk some_fetch in_reset

fresh-Reached : Reached imem fresh []
fresh-Reached = reset some_fetch in_reset refl

abbrev jumped : Fetch
jumped = Fetch.posedge_clk fresh jump

jump-IsServed : IsServed imem fresh jump []
unfolding Fetch.cf_change Fetch.posedge_clk
jump-IsServed = record {
  runs = refl;
  flushed = refl;
  target = omega arith;
  asked = λ h. ground (arith, h);
  answer = λ h. ground (arith, h);
  word = omega arith;
  patient = λ _. omega arith;
}

fetch_cycles-Straight : Straight imem jumped (next_pending fresh jump []) fetch_cycles
unfolding Fetch.cf_change Fetch.posedge_clk Fetch.rsp_recv Fetch.progress_imem_addr posedge_clk
    f_ready buf_valid
fetch_cycles-Straight = (
  (
    record {
      runs = refl;
      flushed = refl;
      target = omega arith;
      asked = λ h. ground (arith, h);
      answer = λ h. ground (arith, h);
      word = omega arith;
      patient = λ _. omega arith;
    },
    refl,
  ),
  (
    (
      record {
        runs = refl;
        flushed = refl;
        target = omega arith;
        asked = λ _. omega arith;
        answer = λ _. refl;
        word = omega arith;
        patient = λ _. omega arith;
      },
      refl,
    ),
    (
      (
        record {
          runs = refl;
          flushed = refl;
          target = omega arith;
          asked = λ h. ground (arith, h);
          answer = λ h. ground (arith, h);
          word = omega arith;
          patient = λ _. omega arith;
        },
        refl,
      ),
      tt,
    ),
  ),
)

received-jump_example : Fetch.Stream.received jumped fetch_cycles ≡ 4 ∷ []
unfolding Fetch.cf_change Fetch.posedge_clk posedge_clk f_ready buf_valid
received-jump_example =
    received-jump imem fresh [] jump fetch_cycles fresh-Reached jump-IsServed refl
      fetch_cycles-Straight

posedge_clk-holds_request_example :
    ((Fetch.posedge_clk some_fetch jump).imem_req ≡ true)
    × ((Fetch.posedge_clk some_fetch jump).imem_addr ≡ 12)
posedge_clk-holds_request_example = posedge_clk-holds_request some_fetch jump refl refl refl

f_ready-starved_example :
    (Fetch.f_ready fresh quiet ≡ true)
    × (no_request ≡ [] → (Fetch.posedge_clk fresh quiet).imem_req ≡ true)
unfolding Fetch.s1_valid buf_valid Fetch.posedge_clk posedge_clk
f_ready-starved_example = f_ready-starved imem fresh no_request quiet fresh-Reached refl refl
