-- ===== src/Rtl/FetchBuffer/Stream.antt =====
-- What the fetch buffer puts out, over any number of cycles.
use mathlib.Core.List.{append_assoc, append-nil}
use scarv_cpu.Base.{
  ℕ, zero, suc, ◌/◌, ◌%◌, ◌^◌, ◌≡◌, refl, sym, ap, ◌∙◌, Bool, true, false, not, ◌&&◌, ◌||◌, List,
  [], ◌∷◌, ◌++◌, if◌then◌else◌, drop, take, arith,
}
use scarv_cpu.Rtl.FetchBuffer.{Buffer, Inputs, buf_out, buf_out_2, buf_out_4, posedge_clk}
use scarv_cpu.Rtl.FetchBuffer.Queue.{Holds, eaten, pushed, next, IsLegal, posedge_clk-Holds}

-- The halfwords of the instruction that the buffer puts out, where the decoder takes it.
abbrev pub delivered : Buffer → Bool → List ℕ
delivered s ready =
    if ready && buf_out_4 s
    then (buf_out s % 2 ^ 16) ∷ (buf_out s / 2 ^ 16) ∷ []
    else if ready && buf_out_2 s
    then (buf_out s % 2 ^ 16) ∷ []
    else []

-- The output is an instruction of the queue: the buffer says valid exactly where all of the first
-- instruction is there, and its bits are then the queue's first halfwords.
pub delivered-Holds :
    (s : Buffer) (q : List ℕ) (ready : Bool)
    → Holds s q
    → delivered s ready ≡ take (eaten q ready) q
unfolding buf_out_4 buf_out_2 buf_out
delivered-Holds s q false v = refl
delivered-Holds s [] true v = ground (arith, v)
delivered-Holds s (h ∷ []) true v = ground (arith, v)
delivered-Holds s (h ∷ k ∷ q) true v = ground (arith, v)

take-drop : (n : ℕ) (q : List ℕ) → take n q ++ drop n q ≡ q
take-drop zero q = refl
take-drop (suc n) [] = refl
take-drop (suc n) (x ∷ q) = ap (λ r. x ∷ r) (take-drop n q)

-- The registers after a run of cycles, and what went in and came out on the way.
abbrev pub run : Buffer → List Inputs → Buffer
run s [] = s
run s (i ∷ is) = run (posedge_clk s i) is

abbrev pub run_queue : List ℕ → List Inputs → List ℕ
run_queue q [] = q
run_queue q (i ∷ is) = run_queue (next q i) is

abbrev pub sent : List Inputs → List ℕ
sent [] = []
sent (i ∷ is) = pushed i ++ sent is

abbrev pub received : Buffer → List Inputs → List ℕ
received s [] = []
received s (i ∷ is) = delivered s i.buf_ready ++ received (posedge_clk s i) is

-- A run of legal inputs with neither a reset nor a flush.
abbrev pub LegalRun : Buffer → List Inputs → Type 0
LegalRun s [] = Unit {0}
LegalRun s (i ∷ is) =
    (IsLegal s i × (not i.g_resetn || i.flush ≡ false)) × LegalRun (posedge_clk s i) is

next-running :
    (q : List ℕ) (i : Inputs)
    → not i.g_resetn || i.flush ≡ false
    → next q i ≡ drop (eaten q i.buf_ready) q ++ pushed i
next-running q i h = rw h

regroup :
    {q : List ℕ} (t d p r x y : List ℕ)
    → q ≡ t ++ d
    → (d ++ p) ++ r ≡ x ++ y
    → q ++ (p ++ r) ≡ (t ++ x) ++ y
regroup t d p r x y e h =
    ap (λ u. u ++ (p ++ r)) e
    ∙ append_assoc t d (p ++ r)
    ∙ ap (λ u. t ++ u) (sym (append_assoc d p r) ∙ h)
    ∙ sym (append_assoc t x y)

-- Where the memory sends words only while the buffer is ready, and there is neither a reset nor a
-- flush, the buffer loses, repeats and reorders nothing: what it held and what went in is what
-- came out, followed by what it holds after the run, which is at most four halfwords.
pub received-run :
    (s : Buffer) (q : List ℕ) (is : List Inputs)
    → Holds s q
    → LegalRun s is
    → Holds (run s is) (run_queue q is) × (q ++ sent is ≡ received s is ++ run_queue q is)
received-run s q [] v l = (v, append-nil q)
received-run s q (i ∷ is) v l =
    let (held, same) =
      received-run (posedge_clk s i) (next q i) is (posedge_clk-Holds s q i v l.0.0) l.1 in
    (
      held,
      regroup (delivered s i.buf_ready) (drop (eaten q i.buf_ready) q) (pushed i) (sent is)
          (received (posedge_clk s i) is) (run_queue (next q i) is)
          (sym (take-drop (eaten q i.buf_ready) q)
            ∙ ap (λ t. t ++ drop (eaten q i.buf_ready) q) (sym (delivered-Holds s q i.buf_ready v)))
          (ap (λ t. t ++ sent is) (sym (next-running q i l.0.1)) ∙ same),
    )
