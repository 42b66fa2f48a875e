-- ===== src/Rtl/Fetch/Step.antt =====
-- A cycle of the fetch stage keeps what the stage promises.
use scarv_cpu.Base.{
  ℕ, ◌+◌, ◌-◌, ◌*◌, ◌/◌, ◌%◌, ◌^◌, ◌≤◌, ◌<◌, ◌≡◌, refl, sym, subst, ap, ap₂, ◌∙◌, Bool, true, false,
  not, ◌&&◌, ◌||◌, List, [], ◌++◌, if◌then◌else◌, length, length-append, length-drop, drop,
  drop-all, arith,
}
use scarv_cpu.Rtl.{bit}
use scarv_cpu.Rtl.FetchBuffer.Queue.{Holds, pushed, eaten, eaten-length, posedge_clk-Holds}
use scarv_cpu.Rtl.Fetch.{
  Fetch, Inputs, rsp_recv, cf_change, buf_ready, n_reqs_outstanding, next_ignore_rsps,
  buffer_inputs, posedge_clk,
}
use scarv_cpu.Rtl.Fetch.Spec.{
  words, odd, halves, accepted, next_pending, next_pc, next_queue, Fetches, IsServed,
}
use scarv_cpu.Rtl.Fetch.Registers.{
  next_ignore_rsps-jump, next_imem_addr-jump, n_fetch_misaligned-jump, next_ignore_rsps-straight,
  next_imem_addr-straight, length-next_pending, kept-count, kept_le, kept-positive, get_or-words,
  n_fetch_misaligned-straight,
}
use scarv_cpu.Rtl.Fetch.Requests.{
  kept, live-next, words-accepted, answered, n_reqs_outstanding-length,
}
use scarv_cpu.Rtl.Fetch.Responses.{
  brought, pushed-buffer_inputs, buffer_inputs-IsLegal, halves-append, drop-halves, brought-halves,
  length-brought,
}

by_jump :
    {imem : ℕ → ℕ} (c : Bool) (s : Fetch) (p : List ℕ) (target pc : ℕ) (q : List ℕ)
    → (c ≡ true → Fetches imem s p target [])
    → (c ≡ false → Fetches imem s p pc q)
    → Fetches imem s p (if c then target else pc) (if c then [] else q)
by_jump true s p target pc q h k = h refl
by_jump false s p target pc q h k = k refl

module _ (imem : ℕ → ℕ) (s : Fetch) (i : Inputs) (p : List ℕ) (pc : ℕ) (q : List ℕ)
    (f : Fetches imem s p pc q) (v : IsServed imem s i p) where
  next_queue-Holds : Holds (posedge_clk s i).i_core_fetch_buffer (next_queue s i q)
  unfolding posedge_clk buffer_inputs
  next_queue-Holds =
      let flush : not i.g_resetn || i.s0_flush ≡ cf_change s i =
        ap₂ (λ r g. not r || g) v.runs v.flushed in
      let after = drop (eaten q (buf_ready s i)) q ++ pushed (buffer_inputs s i) in
      subst (λ r. Holds (posedge_clk s i).i_core_fetch_buffer r)
        (ap (λ g. if g then [] else after) flush)
        (posedge_clk-Holds s.i_core_fetch_buffer q (buffer_inputs s i) f.held
          (buffer_inputs-IsLegal imem s i p v))

  counted_after : (posedge_clk s i).reqs_outstanding ≡ length (next_pending s i p)
  unfolding posedge_clk
  counted_after =
      ap (λ r. if not r then 0 else n_reqs_outstanding s i) v.runs
      ∙ (n_reqs_outstanding-length imem s i p f.counted f.few v).0

  few_after : length (next_pending s i p) ≤ 7
  few_after = (n_reqs_outstanding-length imem s i p f.counted f.few v).1

  -- After a jump.
  jump-Fetches :
      cf_change s i ≡ true
      → Fetches imem (posedge_clk s i) (next_pending s i p) (i.cf_target / 2) []
  unfolding posedge_clk
  jump-Fetches c =
      let pend = next_pending s i p in
      let all : next_ignore_rsps s i ≡ length pend =
        next_ignore_rsps-jump s i v.runs c
        ∙ (n_reqs_outstanding-length imem s i p f.counted f.few v).0 in
      let start : (i.cf_target / 2 + 0) / 2 ≡ i.cf_target / 4 = omega arith in
      let none : 0 ≡ length pend - next_ignore_rsps s i = omega (arith, all) in
      let target : i.cf_target / 2 ≡ i.cf_target / 2 + 0 = omega arith in
      record {
        held =
            subst (λ r. Holds (posedge_clk s i).i_core_fetch_buffer r)
              (ap
                (λ g.
                  if g then [] else drop (eaten q (buf_ready s i)) q ++ pushed (buffer_inputs s i))
                c)
              next_queue-Holds;
        stream = refl;
        counted = counted_after;
        few = few_after;
        ignored = omega (arith, all);
        live =
            ap (λ n. drop n pend) all ∙ drop-all pend ∙ ap (words ((i.cf_target / 2 + 0) / 2)) none;
        address = omega (arith, next_imem_addr-jump s i v.runs c, v.target, all, start);
        aligned = ap₂ (λ r m. r && m) v.runs (n_fetch_misaligned-jump s i c) ∙ ap odd target;
      }

  asked : rsp_recv s i ≡ true → 0 < length p
  asked h = (answered imem s i p v h).0

  first_answer :
      0 < kept (rsp_recv s i) s.ignore_rsps
      → i.imem_rdata ≡ imem (4 * ((pc + length q) / 2) % 2 ^ 32)
  first_answer h =
      let (rsp, none) = kept-positive (rsp_recv s i) s.ignore_rsps h in
      let waits : 0 < length p - s.ignore_rsps = omega (arith, none, asked rsp) in
      (answered imem s i p v rsp).1
      ∙ ap imem (
          get_or-words p ((pc + length q) / 2) (length p - s.ignore_rsps)
            (ap (λ n. drop n p) (sym none) ∙ f.live) waits)

  pushed-brought :
      pushed (buffer_inputs s i)
      ≡ brought (kept (rsp_recv s i) s.ignore_rsps) (odd (pc + length q)) i.imem_rdata
  pushed-brought =
      pushed-buffer_inputs s i
      ∙ ap (λ m. brought (kept (rsp_recv s i) s.ignore_rsps) m i.imem_rdata) f.aligned

  pushed-halves :
      pushed (buffer_inputs s i) ≡ halves imem (pc + length q) (length (pushed (buffer_inputs s i)))
  pushed-halves =
      pushed-brought
      ∙ brought-halves imem (pc + length q) i.imem_rdata (kept (rsp_recv s i) s.ignore_rsps)
          first_answer
      ∙ ap (λ b. halves imem (pc + length q) (length b)) (sym pushed-brought)

  advance :
      (pc + length q + length (pushed (buffer_inputs s i))) / 2
      ≡ (pc + length q) / 2 + kept (rsp_recv s i) s.ignore_rsps
  advance =
      ap (λ b. (pc + length q + length b) / 2) pushed-brought
      ∙ length-brought (pc + length q) i.imem_rdata (kept (rsp_recv s i) s.ignore_rsps)
          (kept_le (rsp_recv s i) s.ignore_rsps (length p) asked f.ignored).0

  stream_after :
      (e : ℕ) (after : List ℕ)
      → after ≡ drop e q ++ pushed (buffer_inputs s i)
      → e ≤ length q
      → after ≡ halves imem (pc + e) (length after)
  stream_after e after is_after bound =
      let b = pushed (buffer_inputs s i) in
      let size : length after ≡ length q - e + length b =
        ap length is_after ∙ omega (arith, length-append (drop e q) b, length-drop e q) in
      let front : pc + length q ≡ pc + e + (length q - e) = omega (arith, bound) in
      is_after
      ∙ ap₂ (λ l r. l ++ r) (ap (drop e) f.stream ∙ drop-halves imem e pc (length q))
          (pushed-halves ∙ ap (λ n. halves imem n (length b)) front)
      ∙ sym (halves-append imem (pc + e) (length q - e) (length b))
      ∙ ap (halves imem (pc + e)) (sym size)

  -- Without a jump.
  straight-Fetches :
      (e : ℕ) (after : List ℕ)
      → e ≡ eaten q (buf_ready s i)
      → after ≡ drop e q ++ pushed (buffer_inputs s i)
      → cf_change s i ≡ false
      → Fetches imem (posedge_clk s i) (next_pending s i p) (pc + e) after
  unfolding posedge_clk
  straight-Fetches e after is_e is_after c =
      let b = pushed (buffer_inputs s i) in
      let k = kept (rsp_recv s i) s.ignore_rsps in
      let few = kept_le (rsp_recv s i) s.ignore_rsps (length p) asked f.ignored in
      let bound : e ≤ length q = omega (arith, is_e, eaten-length q (buf_ready s i)) in
      let ignore : next_ignore_rsps s i ≡ s.ignore_rsps - bit (rsp_recv s i) =
        next_ignore_rsps-straight s i v.runs c (omega (arith, f.ignored, f.few)) in
      let size : length after ≡ length q - e + length b =
        ap length is_after ∙ omega (arith, length-append (drop e q) b, length-drop e q) in
      let end : pc + e + length after ≡ pc + length q + length b = omega (arith, size, bound) in
      let word : (pc + e + length after) / 2 ≡ (pc + length q) / 2 + k =
        ap (λ (n : ℕ). n / 2) end ∙ advance in
      let count : length (next_pending s i p) - next_ignore_rsps s i
          ≡ length p - s.ignore_rsps - k + length (accepted s i) =
        ap₂ (λ (m n : ℕ). m - n) (length-next_pending s i p) ignore
        ∙ kept-count (rsp_recv s i) s.ignore_rsps (length p) (length (accepted s i)) f.ignored
            asked in
      let here : s.imem_addr
          ≡ 4 * ((pc + length q) / 2 + k + (length p - s.ignore_rsps - k)) % 2 ^ 32 =
        f.address ∙ ap (λ (n : ℕ). 4 * n % 2 ^ 32) (omega (arith, few.1)) in
      record {
        held =
            subst (λ r. Holds (posedge_clk s i).i_core_fetch_buffer r)
              (ap (λ g. if g then [] else drop (eaten q (buf_ready s i)) q ++ b) c
                ∙ ap (λ n. drop n q ++ b) (sym is_e)
                ∙ sym is_after)
              next_queue-Holds;
        stream = stream_after e after is_after bound;
        counted = counted_after;
        few = few_after;
        ignored = omega (arith, ignore, length-next_pending s i p, f.ignored);
        live =
            ap (λ n. drop n (next_pending s i p)) ignore
            ∙ live-next p (accepted s i) s.ignore_rsps ((pc + length q) / 2) (rsp_recv s i) asked
                f.ignored f.live
            ∙ words-accepted s i ((pc + length q) / 2 + k) (length p - s.ignore_rsps - k) here
            ∙ ap₂ words (sym word) (sym count);
        address =
            omega (
              arith,
              next_imem_addr-straight s i v.runs c (omega (arith, here)),
              here,
              word,
              count,
            );
        aligned =
            ap₂ (λ r m. r && m) v.runs (n_fetch_misaligned-straight s i (pc + length q) c f.aligned)
            ∙ ap (λ l. odd (pc + length q + length l)) (sym pushed-brought)
            ∙ ap odd (sym end);
      }

  pub posedge_clk-Fetches :
      Fetches imem (posedge_clk s i) (next_pending s i p) (next_pc s i pc q) (next_queue s i q)
  posedge_clk-Fetches =
      by_jump (cf_change s i) (posedge_clk s i) (next_pending s i p) _ _ _ jump-Fetches (
        straight-Fetches (eaten q (buf_ready s i))
          (drop (eaten q (buf_ready s i)) q ++ pushed (buffer_inputs s i)) refl refl)
