-- ===== src/Rtl/Fetch/Spec.antt =====
-- What the fetch stage promises: the instructions of the memory from the last jump on, in order.
use scarv_cpu.Base.{
  ℕ, zero, suc, ◌+◌, ◌-◌, ◌*◌, ◌/◌, ◌%◌, ◌^◌, ◌≤◌, ◌<◌, ◌≡◌, Bool, true, List, [], ◌∷◌, ◌++◌, ◌==◌,
  if◌then◌else◌, length, get_or, drop,
}
use scarv_cpu.Rtl.FetchBuffer.Queue.{Holds, eaten, pushed}
use scarv_cpu.Rtl.Fetch.{
  Fetch, Inputs, cf_change, rsp_recv, buf_ready, progress_imem_addr, buffer_inputs,
}

-- The addresses of so many words, from the word with the given number on.
abbrev pub words : ℕ → ℕ → List ℕ
words n zero = []
words n (suc k) = (4 * n % 2 ^ 32) ∷ words (suc n) k

abbrev pub odd : ℕ → Bool
odd n = n % 2 == 1

-- The requests that wait after a cycle: an answer ends the oldest, and a grant adds the one at the
-- memory's address lines.
abbrev pub accepted : Fetch → Inputs → List ℕ
accepted s i = if progress_imem_addr s i then s.imem_addr ∷ [] else []

abbrev pub next_pending : Fetch → Inputs → List ℕ → List ℕ
next_pending s i pending = (if rsp_recv s i then drop 1 pending else pending) ++ accepted s i

-- Where the next instruction starts after a cycle: at the target of a jump, or after what the decoder
-- took.
abbrev pub next_pc : Fetch → Inputs → ℕ → List ℕ → ℕ
next_pc s i pc q = if cf_change s i then i.cf_target / 2 else pc + eaten q (buf_ready s i)

-- What the buffer holds after a cycle: a jump empties it.
abbrev pub next_queue : Fetch → Inputs → List ℕ → List ℕ
next_queue s i q =
    if cf_change s i then [] else drop (eaten q (buf_ready s i)) q ++ pushed (buffer_inputs s i)

module _ (imem : ℕ → ℕ) where
  -- The halfword with the given number in a memory of words.
  abbrev pub half : ℕ → ℕ
  half n = let word = imem (4 * (n / 2) % 2 ^ 32) in if odd n then word / 2 ^ 16 else word % 2 ^ 16

  abbrev pub halves : ℕ → ℕ → List ℕ
  halves n zero = []
  halves n (suc k) = half n ∷ halves (suc n) k

  -- The stage in the middle of its work. `pending` are the addresses that the memory has accepted and
  -- not answered, the oldest first; `pc` is the number of the halfword where the next instruction
  -- starts; `q` is what the buffer holds.
  pub record Fetches (s : Fetch) (pending : List ℕ) (pc : ℕ) (q : List ℕ) : Type 0 where
    pub held : Holds s.i_core_fetch_buffer q
    pub stream : q ≡ halves pc (length q)
    pub counted : s.reqs_outstanding ≡ length pending
    pub few : length pending ≤ 7
    pub ignored : s.ignore_rsps ≤ length pending
    pub live :
        drop s.ignore_rsps pending ≡ words ((pc + length q) / 2) (length pending - s.ignore_rsps)
    pub address :
        s.imem_addr ≡ 4 * ((pc + length q) / 2 + (length pending - s.ignore_rsps)) % 2 ^ 32
    pub aligned : s.fetch_misaligned ≡ odd (pc + length q)

  -- What the stage's surroundings do in a cycle: no reset; the flush of the pipeline is the change of
  -- control flow; a jump goes to an address of 32 bits; the memory answers its requests in order, from
  -- its words, and accepts no request while seven wait.
  pub record IsServed (s : Fetch) (i : Inputs) (pending : List ℕ) : Type 0 where
    pub runs : i.g_resetn ≡ true
    pub flushed : i.s0_flush ≡ cf_change s i
    pub target : i.cf_target < 2 ^ 32
    pub asked : i.imem_recv ≡ true → 0 < length pending
    pub answer : i.imem_recv ≡ true → i.imem_rdata ≡ imem (get_or pending 0 0)
    pub word : i.imem_rdata < 2 ^ 32
    pub patient : i.imem_gnt ≡ true → length pending ≤ 6
