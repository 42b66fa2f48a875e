-- ===== src/Bus/Request.antt =====
-- What `request` answers, and what it does to the memory.
pub mod Memory
use scarv_cpu.Base.{
  ℕ, zero, suc, ◌+◌, ◌-◌, ◌^◌, ◌≤◌, ◌<◌, ◌≡◌, ◌↔◌, ◌⊎◌, refl, ◌∙◌, ap, Bool, true, false, not, ◌&&◌,
  List, [], ◌∷◌, Option, none, some, arith, set, get_or, length, length-replicate, get_or-replicate,
  leb, ltb, ◌==◌, Bool-cases, Option-cases, if◌then◌else◌, inl, inr, map, u64,
}
use scarv_cpu.Txn.{Txn, Rsp, new_txn, new_rsp, set_error}
use scarv_cpu.Device.Range.{Range, in_range, in_range_span}
use scarv_cpu.Device
use scarv_cpu.Device.Ram.{Ram, peek}
use scarv_cpu.Device.{Device, ram, range, read_range, write_range}
use scarv_cpu.Device.Access.{read_from_whole, write_from_whole, read_from_ram, write_from_ram}
use scarv_cpu.Bus.Map.{ranges-store, get_device_at-store}
use scarv_cpu.Bus.{Bus, get_device_from, get_device_at, store, serve, failed, request}

-- A request that a device on the bus serves: its first address reaches the device, and the span of
-- its addresses is in the device's range.
abbrev Served : Bus → Txn → Type 0
Served bus req =
    (i : ℕ) × (d : Device) × (get_device_at bus req.addr ≡ some (i, d))
    × (in_range_span (range d) req.addr req.size ≡ true)

pub serve_write :
    (bus : Bus) (req : Txn) (i : ℕ) (d : Device)
    → req.addr + req.size < 2 ^ 64
    → in_range_span (range d) req.addr req.size ≡ true
    → req.write ≡ true
    → serve bus req i d ≡ (
      new_rsp bus.next_id req false,
      store
          (record bus { next_id = suc bus.next_id })
          i
          (write_range d req.addr req.size req.bytes req.strb).1,
    )
unfolding serve write_range
serve_write bus req i d small h w =
    let whole =
      write_from_whole req.addr req.size small d req.size 0 req.bytes req.strb h (omega arith) in
    rw (w, whole.0)

serve_read :
    (bus : Bus) (req : Txn) (i : ℕ) (d : Device)
    → req.addr + req.size < 2 ^ 64
    → in_range_span (range d) req.addr req.size ≡ true
    → req.write ≡ false
    → serve bus req i d ≡ (
      (let rsp = new_rsp bus.next_id req false in
          record rsp {
            txn = record rsp.txn { bytes = (read_range d req.addr req.size rsp.txn.bytes).1 };
          }),
      store
          (record bus { next_id = suc bus.next_id })
          i
          (read_range d req.addr req.size (new_rsp bus.next_id req false).txn.bytes).2,
    )
unfolding serve read_range new_rsp
serve_read bus req i d small h w =
    let clear = (new_rsp bus.next_id req false).txn.bytes in
    let whole = read_from_whole req.addr req.size small d req.size 0 clear h (omega arith) in
    simp (w, whole.0)

-- A request that is served draws one identifier and changes the device that serves it, not its
-- range, and no other.
serve_lem :
    (bus : Bus) (req : Txn) (i : ℕ) (d : Device)
    → req.addr + req.size < 2 ^ 64
    → in_range_span (range d) req.addr req.size ≡ true
    → (d' : Device) × (range d' ≡ range d)
      × ((serve bus req i d).0.error ≡ false)
      × ((serve bus req i d).0.req ≡ req)
      × ((serve bus req i d).1
          ≡ record bus { devices = set bus.devices i d'; next_id = suc bus.next_id })
unfolding new_rsp read_range write_range
serve_lem bus req i d small h = elim (Bool-cases req.write) [
  | inl w ↦
      let whole =
        write_from_whole req.addr req.size small d req.size 0 req.bytes req.strb h (omega arith) in
      rw (serve_write bus req i d small h w)
        ((write_range d req.addr req.size req.bytes req.strb).1, whole.1, refl, refl, refl)
  | inr r ↦
      let clear = (new_rsp bus.next_id req false).txn.bytes in
      let whole = read_from_whole req.addr req.size small d req.size 0 clear h (omega arith) in
      rw (serve_read bus req i d small h r)
        ((read_range d req.addr req.size clear).2, whole.1, refl, refl, refl)
]

-- What `request` does with any request.
pub record Outcome (bus : Bus) (req : Txn) : Type 0 where
  pub answered : (request bus req).0.req ≡ req
  pub result :
      (((request bus req).0.error ≡ false) × Served bus req)
      ⊎ (((request bus req).0.error ≡ true)
          × (¬ Served bus req)
          × ((request bus req).1.devices ≡ bus.devices))
  pub ranges_kept : map range (request bus req).1.devices ≡ map range bus.devices
  pub numbered : (request bus req).1.next_id ≡ suc bus.next_id

refused-Outcome :
    (bus : Bus) (req : Txn)
    → request bus req ≡ (new_rsp bus.next_id req true, record bus { next_id = suc bus.next_id })
    → (Served bus req → ⊥)
    → Outcome bus req
unfolding new_rsp
refused-Outcome bus req e unserved = record {
  answered = rw e;
  result = inr (rw e, unserved, rw e);
  ranges_kept = rw e;
  numbered = rw e;
}

request_missing :
    (bus : Bus) (req : Txn)
    → get_device_at bus req.addr ≡ none
    → request bus req ≡ (new_rsp bus.next_id req true, record bus { next_id = suc bus.next_id })
unfolding request
request_missing bus req e = rw (e, request)

request_outside :
    (bus : Bus) (req : Txn) (i : ℕ) (d : Device)
    → get_device_at bus req.addr ≡ some (i, d)
    → in_range_span (range d) req.addr req.size ≡ false
    → request bus req ≡ (new_rsp bus.next_id req true, record bus { next_id = suc bus.next_id })
unfolding request
request_outside bus req i d e h = rw (e, request) (rw h)

pub request-serve :
    (bus : Bus) (req : Txn) (i : ℕ) (d : Device)
    → get_device_at bus req.addr ≡ some (i, d)
    → in_range_span (range d) req.addr req.size ≡ true
    → request bus req ≡ serve bus req i d
unfolding request
request-serve bus req i d e h = rw (e, request) (rw h)

served-Outcome :
    (bus : Bus) (req : Txn) (i : ℕ) (d : Device)
    → req.addr + req.size < 2 ^ 64
    → get_device_at bus req.addr ≡ some (i, d)
    → in_range_span (range d) req.addr req.size ≡ true
    → Outcome bus req
served-Outcome bus req i d small e h =
    let whole = request-serve bus req i d e h in
    let (d', kept, fine, same, after) = serve_lem bus req i d small h in
    record {
      answered = rw whole same;
      result = inl (rw whole fine, (i, d, e, h));
      ranges_kept = rw (whole, after) (ranges-store bus i req.addr d d' e kept);
      numbered = rw (whole, after);
    }

-- Where the last address does not wrap, `request` answers every request with a response to it: the
-- response has no error exactly when a device is mapped at the first address and its range holds the
-- whole span. A request that fails leaves every device as it was. No request changes the ranges of
-- the bus, and each draws one identifier.
pub request-Outcome : (bus : Bus) (req : Txn) → req.addr + req.size < 2 ^ 64 → Outcome bus req
request-Outcome bus req small = elim (Option-cases (get_device_at bus req.addr)) [
  | inl e ↦ refused-Outcome bus req (request_missing bus req e) (λ s. absurd (cc (e, s.2)))
  | inr ((i, d), e) ↦ elim (Bool-cases (in_range_span (range d) req.addr req.size)) [
    | inl h ↦ served-Outcome bus req i d small e h
    | inr h ↦
        refused-Outcome bus req (request_outside bus req i d e h)
          (λ s. absurd (ground (arith, e, s.2, s.3, h)))
  ]
]

serve-size :
    (bus : Bus) (req : Txn) (i : ℕ) (d : Device) → (serve bus req i d).0.txn.size ≡ req.size
unfolding serve failed new_rsp set_error new_txn
serve-size bus req i d = ground arith

-- The transaction of the response has the size of the request.
pub request-size : (bus : Bus) (req : Txn) → (request bus req).0.txn.size ≡ req.size
unfolding new_rsp new_txn
request-size bus req = elim (Option-cases (get_device_at bus req.addr)) [
  | inl e ↦ rw (request_missing bus req e)
  | inr ((i, d), e) ↦ elim (Bool-cases (in_range_span (range d) req.addr req.size)) [
    | inl h ↦ rw (request-serve bus req i d e h) (serve-size bus req i d)
    | inr h ↦ rw (request_outside bus req i d e h)
  ]
]
