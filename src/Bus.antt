-- ===== src/Bus.antt =====
-- flow/verilator/memory_bus.hpp and memory_bus.cpp: the interconnect of the memory devices.
-- A `memory_device *` of the vector `devices` is the index of the device in the list. The counter
-- that numbers transactions, a global of memory_txns.hpp, is kept with the bus.
pub mod Map
pub mod Request
pub mod Bytes
use scarv_cpu.Base.{
  ℕ, suc, ◌+◌, Bool, true, false, not, ◌&&◌, ◌||◌, List, [], ◌∷◌, ◌++◌, Option, none, some, leb,
  set, if◌then◌else◌,
}
use scarv_cpu.Txn.{Txn, Rsp, new_rsp, set_error, is_write}
use scarv_cpu.Device.Range.{Range, in_range, in_range_span}
use scarv_cpu.Device
use scarv_cpu.Device.{Device, range}

pub record Bus : Type 0 where
  pub devices : List Device
  pub next_id : ℕ

unfoldable pub new_bus : ℕ → Bus
new_bus next_id = record { devices = []; next_id = next_id }

-- The condition of `add_device` on a device `it` of the bus: either end of the new range lies
-- inside the old one.
unfoldable pub clashes : Range → Range → Bool
clashes r it = leb it.base r.base && leb r.base it.top || leb it.base r.top && leb r.top it.top

unfoldable pub any_clash : Range → List Device → Bool
any_clash r [] = false
any_clash r (it ∷ ds) = clashes r (range it) || any_clash r ds

unfoldable pub add_device : Bus → Device → Bool × Bus
unfolding any_clash
add_device bus d =
    if any_clash (range d) bus.devices
    then (false, bus)
    else (true, record bus { devices = bus.devices ++ d ∷ [] })

-- The loop of `get_device_at`, at index `i`: a device is given with its index.
unfoldable pub get_device_from : List Device → ℕ → ℕ → Option (ℕ × Device)
get_device_from [] i addr = none
get_device_from (it ∷ ds) i addr =
    if in_range (range it) addr then some (i, it) else get_device_from ds (suc i) addr

unfoldable pub get_device_at : Bus → ℕ → Option (ℕ × Device)
get_device_at bus addr = get_device_from bus.devices 0 addr

-- What the pointer of index `i` points to is changed.
abbrev pub store : Bus → ℕ → Device → Bus
store bus i d = record bus { devices = set bus.devices i d }

failed : Rsp → Bool → Rsp
failed rsp result = if result then rsp else set_error rsp

-- `request` for a device found at index `i`.
unfoldable pub serve : Bus → Txn → ℕ → Device → Rsp × Bus
unfolding failed
serve bus req i d =
    let rsp = new_rsp bus.next_id req false in
    let next = record bus { next_id = suc bus.next_id } in
    if is_write req
    then (let (result, d') = Device.write_range d req.addr req.size req.bytes req.strb in
        (failed rsp result, store next i d'))
    else (let (result, rdata, d') = Device.read_range d req.addr req.size rsp.txn.bytes in
        (failed (record rsp { txn = record rsp.txn { bytes = rdata } }) result, store next i d'))

unfoldable pub request : Bus → Txn → Rsp × Bus
unfolding serve
request bus req = elim (get_device_at bus req.addr) [
  | none ↦ (new_rsp bus.next_id req true, record bus { next_id = suc bus.next_id })
  | some (i, d) ↦
      if not (in_range_span (range d) req.addr req.size)
      then (new_rsp bus.next_id req true, record bus { next_id = suc bus.next_id })
      else serve bus req i d
]

-- `return -1` in a function of type `uint8_t`.
unfoldable pub read_byte : Bus → ℕ → ℕ × Bus
read_byte bus addr = elim (get_device_at bus addr) [
  | none ↦ (255, bus)
  | some (i, d) ↦ let (b, d') = Device.read_byte d addr in (b, store bus i d')
]

-- `return -1` in a function of type `bool` is true.
unfoldable pub write_byte : Bus → ℕ → ℕ → Bool × Bus
write_byte bus addr byte = elim (get_device_at bus addr) [
  | none ↦ (true, bus)
  | some (i, d) ↦ let (result, d') = Device.write_byte d addr byte in (result, store bus i d')
]
