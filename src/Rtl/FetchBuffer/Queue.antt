-- ===== src/Rtl/FetchBuffer/Queue.antt =====
-- The buffer is a queue of at most four halfwords.
use mathlib.Core.List.{append-nil}
use scarv_cpu.Base.{
  ℕ, ◌+◌, ◌*◌, ◌/◌, ◌%◌, ◌^◌, ◌≤◌, ◌<◌, ◌≡◌, refl, subst, sym, ap, ap₂, ◌∙◌, Bool, true, false, not,
  ◌&&◌, ◌||◌, List, [], ◌∷◌, ◌++◌, bit_or, ◌==◌, if◌then◌else◌, length, length-append, length-drop,
  drop, arith,
}
use scarv_cpu.Rtl.{bit}
use scarv_cpu.Rtl.FetchBuffer.{
  Buffer, Inputs, buf_out_2, buf_out_4, f_ready, bdepth_add, bdepth_sub, insert_at, n_bdepth,
  n_buffer_d, n_buffer, posedge_clk, eat_2, eat_4,
}
use scarv_cpu.Rtl.FetchBuffer.Halfwords.{
  value, AllHalf, drop-AllHalf, append-AllHalf, value-drop, or_pushed,
}

pub record Holds (s : Buffer) (q : List ℕ) : Type 0 where
  pub same : s.buffer ≡ value q
  pub depth : s.bdepth ≡ length q
  pub room : length q ≤ 4
  pub halves : AllHalf q

pub empty-Holds : Holds record { buffer = 0; buffer_err = 0; bdepth = 0 } []
empty-Holds = record { same = refl; depth = refl; room = omega arith; halves = tt }

-- The length of the first instruction, if all of it is there: two low bits set mean four bytes.
abbrev pub whole : List ℕ → ℕ
whole [] = 0
whole (h ∷ []) = if h % 4 == 3 then 0 else 1
whole (h ∷ k ∷ q) = if h % 4 == 3 then 2 else 1

-- What a cycle takes and what it adds.
abbrev pub eaten : List ℕ → Bool → ℕ
eaten q ready = if ready then whole q else 0

abbrev pub pushed : Inputs → List ℕ
pushed i =
    if i.f_2byte
    then i.f_in / 2 ^ 16 ∷ []
    else if i.f_4byte
    then (i.f_in % 2 ^ 16) ∷ (i.f_in / 2 ^ 16) ∷ []
    else []

-- The queue after a cycle.
abbrev pub next : List ℕ → Inputs → List ℕ
next q i = if not i.g_resetn || i.flush then [] else drop (eaten q i.buf_ready) q ++ pushed i

-- The memory answers only where the buffer is ready, in one of the two ways, with a word of 32 bits.
pub record IsLegal (s : Buffer) (i : Inputs) : Type 0 where
  pub ready : i.f_4byte || i.f_2byte ≡ true → f_ready s i.buf_ready ≡ true
  pub one_way : i.f_4byte && i.f_2byte ≡ false
  pub word : i.f_in < 2 ^ 32

-- `whole`, by the wires.
pub whole-Holds :
    (s : Buffer) (q : List ℕ) → Holds s q → whole q ≡ 2 * bit (buf_out_4 s) + bit (buf_out_2 s)
unfolding buf_out_4 buf_out_2
whole-Holds s [] v = ground (arith, v)
whole-Holds s (h ∷ []) v = ground (arith, v)
whole-Holds s (h ∷ k ∷ q) v = ground (arith, v)

whole-length : (q : List ℕ) → whole q ≤ length q
whole-length [] = omega arith
whole-length (h ∷ []) = ground arith
whole-length (h ∷ k ∷ q) = ground arith

whole_le_2 : (q : List ℕ) → whole q ≤ 2
whole_le_2 [] = omega arith
whole_le_2 (h ∷ []) = ground arith
whole_le_2 (h ∷ k ∷ q) = ground arith

pub eaten-length : (q : List ℕ) (ready : Bool) → eaten q ready ≤ length q
eaten-length q ready = ground (arith, whole-length q)

eaten_le_2 : (q : List ℕ) (ready : Bool) → eaten q ready ≤ 2
eaten_le_2 q ready = ground (arith, whole_le_2 q)

bdepth_sub-Holds :
    (s : Buffer) (q : List ℕ) (ready : Bool) → Holds s q → bdepth_sub s ready ≡ eaten q ready
unfolding bdepth_sub eat_2 eat_4
bdepth_sub-Holds s q true v = ground (arith, whole-Holds s q v)
bdepth_sub-Holds s q false v = ground (arith, whole-Holds s q v)

insert_at-Holds :
    (s : Buffer) (q : List ℕ) (ready : Bool)
    → Holds s q
    → insert_at s ready ≡ length (drop (eaten q ready) q)
unfolding insert_at
insert_at-Holds s q ready v = omega (
  arith,
  bdepth_sub-Holds s q ready v,
  eaten-length q ready,
  length-drop (eaten q ready) q,
  v.depth,
  v.room,
)

pushed-value : (i : Inputs) → i.f_in < 2 ^ 32 → value (pushed i) ≡ n_buffer_d i
unfolding n_buffer_d
pushed-value i w = ground (arith, w)

pushed-length : (i : Inputs) → i.f_4byte && i.f_2byte ≡ false → length (pushed i) ≡ bdepth_add i
unfolding bdepth_add
pushed-length i one = ground (arith, one)

pushed-AllHalf : (i : Inputs) → i.f_in < 2 ^ 32 → AllHalf (pushed i)
pushed-AllHalf i w = ground (arith, w)

pushed_le_2 : (i : Inputs) → length (pushed i) ≤ 2
pushed_le_2 i = ground arith

pushed_bound : (i : Inputs) → i.f_in < 2 ^ 32 → value (pushed i) < 2 ^ 32
pushed_bound i w = ground (arith, w)

-- Where the buffer is ready, what stays leaves room for a word.
ready-room :
    (s : Buffer) (q : List ℕ) (ready : Bool)
    → Holds s q
    → f_ready s ready ≡ true
    → length (drop (eaten q ready) q) ≤ 2
unfolding f_ready eat_2 eat_4
ready-room s q true v r =
    ground (arith, r, length-drop (eaten q true) q, whole-Holds s q v, v.depth, v.room)
ready-room s q false v r = ground (arith, r, v.depth)

rest_room :
    (s : Buffer) (q : List ℕ) (ready : Bool) → Holds s q → length (drop (eaten q ready) q) ≤ 4
rest_room s q ready v = omega (arith, length-drop (eaten q ready) q, v.room)

pushed_room :
    (s : Buffer) (q : List ℕ) (i : Inputs)
    → Holds s q
    → IsLegal s i
    → 0 < length (pushed i)
    → length (drop (eaten q i.buf_ready) q) ≤ 2
pushed_room s q i v l h = ready-room s q i.buf_ready v (l.ready (ground (arith, h)))

buffer_shifted :
    (s : Buffer) (q : List ℕ) (ready : Bool)
    → Holds s q
    → s.buffer / 2 ^ (16 * bdepth_sub s ready) ≡ value (drop (eaten q ready) q)
buffer_shifted s q ready v =
    ap₂ (λ (b n : ℕ). b / 2 ^ (16 * n)) v.same (bdepth_sub-Holds s q ready v)
    ∙ value-drop (eaten q ready) q (eaten_le_2 q ready) v.halves

n_buffer-Holds :
    (s : Buffer) (q : List ℕ) (i : Inputs)
    → Holds s q
    → IsLegal s i
    → n_buffer s i ≡ value (drop (eaten q i.buf_ready) q ++ pushed i)
unfolding n_buffer
n_buffer-Holds s q i v l =
    let r = drop (eaten q i.buf_ready) q in
    ap₂ (λ (d b : ℕ). bit_or (d * 2 ^ (16 * insert_at s i.buf_ready) % 2 ^ 64) b)
      (sym (pushed-value i l.word)) (buffer_shifted s q i.buf_ready v)
    ∙ ap (λ (n : ℕ). bit_or (value (pushed i) * 2 ^ (16 * n) % 2 ^ 64) (value r))
        (insert_at-Holds s q i.buf_ready v)
    ∙ or_pushed r (pushed i) (drop-AllHalf (eaten q i.buf_ready) q v.halves)
        (omega (arith, pushed_bound i l.word)) (pushed_room s q i v l)

n_bdepth-Holds :
    (s : Buffer) (q : List ℕ) (i : Inputs)
    → Holds s q
    → IsLegal s i
    → n_bdepth s i ≡ length (drop (eaten q i.buf_ready) q ++ pushed i)
unfolding n_bdepth
n_bdepth-Holds s q i v l = omega (
  arith,
  length-append (drop (eaten q i.buf_ready) q) (pushed i),
  length-drop (eaten q i.buf_ready) q,
  eaten-length q i.buf_ready,
  bdepth_sub-Holds s q i.buf_ready v,
  pushed-length i l.one_way,
  pushed_le_2 i,
  v.depth,
  v.room,
)

next_room :
    (s : Buffer) (q : List ℕ) (i : Inputs)
    → Holds s q
    → IsLegal s i
    → length (drop (eaten q i.buf_ready) q ++ pushed i) ≤ 4
next_room s q i v l = grind (
  arith,
  length-append (drop (eaten q i.buf_ready) q) (pushed i),
  pushed_room s q i v l,
  rest_room s q i.buf_ready v,
  pushed_le_2 i,
)

nothing_done :
    (q : List ℕ) (i : Inputs)
    → i.f_4byte || i.f_2byte || i.buf_ready ≡ false
    → drop (eaten q i.buf_ready) q ++ pushed i ≡ q
nothing_done q i h = ground (arith, h, append-nil q)

if-Holds :
    (b : Bool) (s t : Buffer) (p q : List ℕ)
    → Holds s p
    → (b ≡ false → Holds t q)
    → Holds (if b then s else t) (if b then p else q)
if-Holds true s t p q h k = h
if-Holds false s t p q h k = k refl

if_same-Holds :
    (b : Bool) (s t : Buffer) (q : List ℕ)
    → Holds s q
    → (b ≡ false → Holds t q)
    → Holds (if b then s else t) q
if_same-Holds true s t q h k = h
if_same-Holds false s t q h k = k refl

-- The register after an edge holds the queue after the cycle: what is eaten leaves at the front, and
-- what the memory sends enters at the back.
pub posedge_clk-Holds :
    (s : Buffer) (q : List ℕ) (i : Inputs)
    → Holds s q
    → IsLegal s i
    → Holds (posedge_clk s i) (next q i)
unfolding posedge_clk
posedge_clk-Holds s q i v l = if-Holds (not i.g_resetn || i.flush) _ _ [] _ empty-Holds (λ running.
    if_same-Holds (i.f_4byte || i.f_2byte || i.buf_ready) _ s _
      record {
        same = n_buffer-Holds s q i v l;
        depth = n_bdepth-Holds s q i v l;
        room = next_room s q i v l;
        halves =
            append-AllHalf (drop (eaten q i.buf_ready) q) (pushed i)
              (drop-AllHalf (eaten q i.buf_ready) q v.halves) (pushed-AllHalf i l.word);
      }
      (λ idle. subst (λ r. Holds s r) (sym (nothing_done q i idle)) v))
