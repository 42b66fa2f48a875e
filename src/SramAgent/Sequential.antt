-- ===== src/SramAgent/Sequential.antt =====
-- The agent answers as a memory that serves one request after another.
use scarv_cpu.Base.{
  ℕ, ◌≡◌, refl, ◌∙◌, ap, Bool, true, false, not, ◌&&◌, List, [], ◌∷◌, ◌++◌, Option, none, some, map,
  Bool-cases, Option-cases, inl, inr, if◌then◌else◌,
}
use scarv_cpu.CRandom.{CRandom}
use scarv_cpu.Txn.{Txn, new_rsp, set_error, data_word}
use scarv_cpu.Device
use scarv_cpu.Device.{Device, range}
use scarv_cpu.Device.Range.{in_range_span}
use scarv_cpu.Bus.{Bus, get_device_from, get_device_at, serve, request}
use scarv_cpu.SramAgent.{SramAgent, CoreOutputs, core_drives, drive_signals}
use scarv_cpu.SramAgent.Cycle.{World, cycle, run}
use scarv_cpu.SramAgent.Queue.{
  Drives, idles, answers, posedge_clk_holds, posedge_clk-Drives, take_request-accepted, front,
  answered_in, all_answered,
}

-- What the core sees of a response: the error, and the word of a read.
pub record Reply : Type 0 where
  pub error : Bool
  pub word : Option ℕ

unfoldable pub word_of : Bool → ℕ → Option ℕ
word_of true word = none
word_of false word = some word

word_of_agrees :
    (write : Bool) (a b : ℕ) → (write ≡ false → a ≡ b) → word_of write a ≡ word_of write b
unfolding word_of
word_of_agrees true a b e = refl
word_of_agrees false a b e = ap some (e refl)

abbrev pub reply : Txn → Bool → ℕ → Reply
reply t error word = record { error = error; word = word_of t.write word }

-- The specification: the devices alone are the state, and a request is served at once.
abbrev pub memory : List Device → Bus
memory ds = record { devices = ds; next_id = 0 }

abbrev pub serve_one : List Device → Txn → Reply × List Device
serve_one ds t =
    let (rsp, bus) = request (memory ds) t in (reply t rsp.error (data_word rsp.txn), bus.devices)

unfoldable pub serve_all : List Device → List Txn → List Reply × List Device
serve_all ds [] = ([], ds)
serve_all ds (t ∷ ts) =
    let (r, ds') = serve_one ds t in let (rs, ds'') = serve_all ds' ts in (r ∷ rs, ds'')

serve_all-append :
    (ds : List Device) (ts us : List Txn)
    → serve_all ds (ts ++ us)
      ≡ (let (rs, ds') = serve_all ds ts in let (rs', ds'') = serve_all ds' us in (rs ++ rs', ds''))
unfolding serve_all
serve_all-append ds [] us = refl
serve_all-append ds (t ∷ ts) us = rw (serve_all-append (serve_one ds t).1 ts us)

-- The counter that numbers transactions plays no part in what the core sees.
data_word_id : (t : Txn) (n : ℕ) → data_word (record t { id = n }) ≡ data_word t
unfolding data_word
data_word_id t n = refl

serve_numbered :
    (bus : Bus) (t : Txn) (i : ℕ) (d : Device)
    → let (rsp, after) = serve bus t i d in
      let (rsp', after') = serve (memory bus.devices) t i d in
      (rsp.error ≡ rsp'.error)
      × (rsp.txn ≡ record rsp'.txn { id = bus.next_id })
      × (after.devices ≡ after'.devices)
unfolding serve new_rsp set_error
serve_numbered bus t i d = elim (Bool-cases t.write) [
  | inl w ↦ elim (Bool-cases (Device.write_range d t.addr t.size t.bytes t.strb).0) [
    | inl good ↦ rw w (rw good (refl, refl, refl))
    | inr bad ↦ rw w (rw bad (refl, refl, refl))
  ]
  | inr r ↦ elim (Bool-cases (Device.read_range d t.addr t.size (new_rsp 0 t false).txn.bytes).0) [
    | inl good ↦ rw r (rw good (refl, refl, refl))
    | inr bad ↦ rw r (rw bad (refl, refl, refl))
  ]
]

request_numbered :
    (bus : Bus) (t : Txn)
    → let (rsp, after) = request bus t in
      let (rsp', after') = request (memory bus.devices) t in
      (rsp.error ≡ rsp'.error)
      × (rsp.txn ≡ record rsp'.txn { id = bus.next_id })
      × (after.devices ≡ after'.devices)
unfolding request new_rsp get_device_at
request_numbered bus t = elim (Option-cases (get_device_from bus.devices 0 t.addr)) [
  | inl none_there ↦ rw (none_there, request) (refl, refl, refl)
  | inr ((i, d), there) ↦ elim (Bool-cases (in_range_span (range d) t.addr t.size)) [
    | inl inside ↦ rw (there, request) (rw inside (serve_numbered bus t i d))
    | inr outside ↦ rw (there, request) (rw outside (refl, refl, refl))
  ]
]

-- What the agent shows for a request, against what the specification replies.
reply_agrees :
    (bus : Bus) (t : Txn) (error : Bool) (word : ℕ)
    → error ≡ (request bus t).0.error
    → (t.write ≡ false → word ≡ data_word (request bus t).0.txn)
    → serve_one bus.devices t ≡ (reply t error word, (request bus t).1.devices)
reply_agrees bus t error word e d =
    let (same_error, same_txn, same_devices) = request_numbered bus t in
    let rsp' = (request (memory bus.devices) t).0 in
    let same_word : data_word (request bus t).0.txn ≡ data_word rsp'.txn =
      ap data_word same_txn ∙ data_word_id rsp'.txn bus.next_id in
    let same : word_of t.write word ≡ word_of t.write (data_word rsp'.txn) =
      word_of_agrees t.write word (data_word rsp'.txn) (λ r. d r ∙ same_word) in
    rw (e, same_error, same_devices, same) refl

abbrev shown : SramAgent → Txn → Reply
shown a t = reply t a.n_mem_error a.n_mem_rdata

serve_all-Drives :
    {q : List Txn} {bus bus' : Bus} {a' : SramAgent} {ds : List Device}
    → Drives q bus a' bus'
    → bus.devices ≡ ds
    → let served = if a'.n_mem_recv then front q else [] in
      serve_all ds served ≡ (map (shown a') served, bus'.devices)
unfolding serve_all
serve_all-Drives (idles e b r x d) same = rw (r, b, same) refl
serve_all-Drives {q} {bus} {bus'} {a'} (answers t e b r x d) same =
    rw (r, e, b, ← same)
      (ap (λ s. (s.0 ∷ [], s.1)) (reply_agrees bus t a'.n_mem_error a'.n_mem_rdata x d))

module _ (lib : CRandom) where
  -- What the core sees in a cycle in which a request is answered.
  abbrev pub replies_in : World lib → CoreOutputs → List Reply
  replies_in w c =
      let p = (cycle lib w c).pins in
      map (λ t. reply t p.mem_error p.mem_rdata) (answered_in lib w c)

  unfoldable pub all_replies : World lib → List CoreOutputs → List Reply
  all_replies w [] = []
  all_replies w (c ∷ cs) = replies_in w c ++ all_replies (cycle lib w c) cs

  cycle_serves :
      (w : World lib) (c : CoreOutputs)
      → serve_all w.bus.devices (answered_in lib w c)
        ≡ (replies_in w c, (cycle lib w c).bus.devices)
  unfolding cycle drive_signals
  cycle_serves w c =
      let p = core_drives w.pins c in
      elim (Bool-cases (p.mem_recv && not p.mem_ack)) [
        | inl wait ↦
            rw wait (
              rw (posedge_clk_holds lib w.agent w.bus p w.random wait).1 (unfold serve_all in refl))
        | inr free ↦ rw free (
            serve_all-Drives (posedge_clk-Drives lib w.agent w.bus p w.random free)
              (take_request-accepted w.agent w.bus p).1)
      ]

  -- The agent refines a memory that serves one request after another: over any run of cycles,
  -- whatever the core drives and whatever random numbers are drawn, what the core sees of the
  -- responses, and the devices after the run, are those of serving the answered requests at once and
  -- in their order.
  pub run-serve_all :
      (w : World lib) (cs : List CoreOutputs)
      → serve_all w.bus.devices (all_answered lib w cs)
        ≡ (all_replies w cs, (run lib w cs).bus.devices)
  unfolding run all_answered all_replies serve_all
  run-serve_all w [] = refl
  run-serve_all w (c ∷ cs) =
      let w' = cycle lib w c in
      rw
        (
          serve_all-append w.bus.devices (answered_in lib w c) (all_answered lib w' cs),
          cycle_serves w c,
          run-serve_all w' cs,
        )
        refl
