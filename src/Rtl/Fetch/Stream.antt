-- ===== src/Rtl/Fetch/Stream.antt =====
-- The instructions that the fetch stage delivers.
use scarv_cpu.Base.{
  ℕ, zero, suc, ◌+◌, ◌-◌, ◌/◌, ◌^◌, ◌≤◌, ◌≡◌, refl, sym, subst, ap, ap₂, ◌∙◌, Bool, true, false,
  ◌&&◌, List, [], ◌∷◌, ◌++◌, if◌then◌else◌, length, length-append, drop, take, arith,
}
use scarv_cpu.Rtl.FetchBuffer.Queue.{Holds, eaten, eaten-length, empty-Holds}
use scarv_cpu.Rtl.FetchBuffer.Stream.{delivered, delivered-Holds}
use scarv_cpu.Rtl.FetchBuffer
use scarv_cpu.Rtl.Fetch.{
  Fetch, Inputs, cf_change, buf_ready, buffer_inputs, next_imem_addr, next_ignore_rsps,
  n_fetch_misaligned, posedge_clk,
}
use scarv_cpu.Rtl.Fetch.Spec.{
  words, half, halves, next_pending, next_pc, next_queue, Fetches, IsServed,
}
use scarv_cpu.Rtl.Fetch.Responses.{halves-append}
use scarv_cpu.Rtl.Fetch.Step.{posedge_clk-Fetches}

-- The halfwords that the decoder takes from the stage over a run of cycles.
abbrev pub received : Fetch → List Inputs → List ℕ
received s [] = []
received s (i ∷ is) =
    delivered s.i_core_fetch_buffer (buf_ready s i) ++ received (posedge_clk s i) is

cleared :
    (s : FetchBuffer.Buffer) (i : FetchBuffer.Inputs)
    → i.g_resetn ≡ false
    → FetchBuffer.posedge_clk s i ≡ record { buffer = 0; buffer_err = 0; bdepth = 0 }
unfolding FetchBuffer.posedge_clk
cleared s i h = rw h

reset-Holds :
    (s : FetchBuffer.Buffer) (i : FetchBuffer.Inputs)
    → i.g_resetn ≡ false
    → Holds (FetchBuffer.posedge_clk s i) []
reset-Holds s i h = subst (λ b. Holds b []) (sym (cleared s i h)) empty-Holds

module _ (imem : ℕ → ℕ) where
  -- The states of the stage, each with the requests that wait: one after a reset, and those that
  -- cycles lead to.
  pub data Reached : Fetch → List ℕ → Type 0 where
    reset : (s : Fetch) (i : Inputs) → i.g_resetn ≡ false → Reached (posedge_clk s i) []
    cycle :
        (s : Fetch) (i : Inputs) (p : List ℕ)
        → Reached s p
        → IsServed imem s i p
        → Reached (posedge_clk s i) (next_pending s i p)

  -- A run of cycles without a jump.
  abbrev pub Straight : Fetch → List ℕ → List Inputs → Type 0
  Straight s p [] = Unit {0}
  Straight s p (i ∷ is) =
      (IsServed imem s i p × (cf_change s i ≡ false))
      × Straight (posedge_clk s i) (next_pending s i p) is

  -- After a reset the stage fetches from the first address of the core.
  pub reset-Fetches :
      (s : Fetch) (i : Inputs)
      → i.g_resetn ≡ false
      → Fetches imem (posedge_clk s i) [] (2 ^ 31 / 2) []
  unfolding posedge_clk next_imem_addr next_ignore_rsps
  reset-Fetches s i h =
      let none : next_ignore_rsps s i ≡ 0 = ground (arith, h) in
      let nothing : 0 ≡ 0 - next_ignore_rsps s i = omega arith in
      record {
        held = reset-Holds s.i_core_fetch_buffer (buffer_inputs s i) h;
        stream = refl;
        counted = rw h;
        few = omega arith;
        ignored = ground (arith, h);
        live = ap (λ n. drop n []) none ∙ ap (words ((2 ^ 31 / 2 + 0) / 2)) nothing;
        address = ground (arith, h);
        aligned = ap (λ r. r && n_fetch_misaligned s i) h;
      }

  pub reached-Fetches :
      (s : Fetch) (p : List ℕ) → Reached s p → (pc : ℕ) × ((q : List ℕ) × Fetches imem s p pc q)
  reached-Fetches _ _ (reset s i h) = (2 ^ 31 / 2, ([], reset-Fetches s i h))
  reached-Fetches _ _ (cycle s i p r v) =
      let (pc, (q, f)) = reached-Fetches s p r in
      (next_pc s i pc q, (next_queue s i q, posedge_clk-Fetches imem s i p pc q f v))

  -- Stretches of the memory that follow each other.
  stretch :
      (n : ℕ) (x y : List ℕ)
      → x ≡ halves imem n (length x)
      → y ≡ halves imem (n + length x) (length y)
      → x ++ y ≡ halves imem n (length (x ++ y))
  stretch n x y h k =
      ap₂ (λ l r. l ++ r) h k
      ∙ sym (halves-append imem n (length x) (length y))
      ∙ ap (halves imem n) (sym (length-append x y))

  take-halves : (k n m : ℕ) → k ≤ m → take k (halves imem n m) ≡ halves imem n k
  take-halves zero n m h = refl
  take-halves (suc k) n zero h = absurd (omega arith)
  take-halves (suc k) n (suc m) h =
      ap (λ r. half imem n ∷ r) (take-halves k (suc n) m (omega arith))

  length-halves : (n k : ℕ) → length (halves imem n k) ≡ k
  length-halves n zero = refl
  length-halves n (suc k) = ap suc (length-halves (suc n) k)

  -- What the stage delivers in a cycle.
  delivered-halves :
      (s : Fetch) (p : List ℕ) (pc : ℕ) (q : List ℕ) (ready : Bool)
      → Fetches imem s p pc q
      → delivered s.i_core_fetch_buffer ready ≡ halves imem pc (eaten q ready)
  delivered-halves s p pc q ready f =
      delivered-Holds s.i_core_fetch_buffer q ready f.held
      ∙ ap (take (eaten q ready)) f.stream
      ∙ take-halves (eaten q ready) pc (length q) (eaten-length q ready)

  -- Without a jump the decoder gets the memory from the stage's place on, halfword by halfword, with
  -- nothing left out, repeated or out of order.
  received-halves :
      (s : Fetch) (p : List ℕ) (pc : ℕ) (q : List ℕ) (is : List Inputs)
      → Fetches imem s p pc q
      → Straight s p is
      → received s is ≡ halves imem pc (length (received s is))
  received-halves s p pc q [] f v = refl
  received-halves s p pc q (i ∷ is) f v =
      let now = delivered-halves s p pc q (buf_ready s i) f in
      let size : length (delivered s.i_core_fetch_buffer (buf_ready s i))
          ≡ eaten q (buf_ready s i) =
        ap length now ∙ length-halves pc (eaten q (buf_ready s i)) in
      let place : next_pc s i pc q ≡ pc + length (delivered s.i_core_fetch_buffer (buf_ready s i)) =
        ap (λ c. if c then i.cf_target / 2 else pc + eaten q (buf_ready s i)) v.0.1
        ∙ ap (λ n. pc + n) (sym size) in
      let later =
        received-halves (posedge_clk s i) (next_pending s i p) (next_pc s i pc q) (next_queue s i q)
          is (posedge_clk-Fetches imem s i p pc q f v.0.0) v.1 in
      stretch pc (delivered s.i_core_fetch_buffer (buf_ready s i)) (received (posedge_clk s i) is)
        (now ∙ ap (halves imem pc) (sym size))
        (later ∙ ap (λ n. halves imem n (length (received (posedge_clk s i) is))) place)

  -- In a state that is reached from a reset, with a memory that answers its requests in order and
  -- accepts none while seven wait: from the cycle after a jump on, and until the next jump or
  -- reset, the decoder gets the halfwords of the memory from the target on, in order, with nothing
  -- left out or repeated, whatever requests waited at the jump.
  pub received-jump :
      (s : Fetch) (p : List ℕ) (i : Inputs) (is : List Inputs)
      → Reached s p
      → IsServed imem s i p
      → cf_change s i ≡ true
      → Straight (posedge_clk s i) (next_pending s i p) is
      → received (posedge_clk s i) is
        ≡ halves imem (i.cf_target / 2) (length (received (posedge_clk s i) is))
  received-jump s p i is r v c w =
      let (pc, (q, f)) = reached-Fetches s p r in
      received-halves (posedge_clk s i) (next_pending s i p) (i.cf_target / 2) (next_queue s i q) is
        (subst (λ n. Fetches imem (posedge_clk s i) (next_pending s i p) n (next_queue s i q))
          (ap (λ g. if g then i.cf_target / 2 else pc + eaten q (buf_ready s i)) c)
          (posedge_clk-Fetches imem s i p pc q f v))
        w
