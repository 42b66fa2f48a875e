-- ===== src/Bus/Request/Memory.antt =====
-- Requests to a RAM: what is written is what is read.
use scarv_cpu.Base.{
  ℕ, suc, ◌+◌, ◌-◌, ◌^◌, ◌<◌, ◌≡◌, refl, ◌∙◌, ap, true, false, ◌&&◌, some, arith, get_or,
  length-replicate, leb, ltb, if◌then◌else◌,
}
use scarv_cpu.Txn.{Txn, new_rsp}
use scarv_cpu.Device.Range.{in_range_span}
use scarv_cpu.Device.Ram.{Ram, peek}
use scarv_cpu.Device.{ram, range, read_range, write_range}
use scarv_cpu.Device.Access.{read_from_ram, write_from_ram}
use scarv_cpu.Bus.{Bus, get_device_at, store, request}
use scarv_cpu.Bus.Map.{get_device_at-store, get_device_at-numbered}
use scarv_cpu.Bus.Request.{serve_read, serve_write, request-serve}

-- A request whose addresses all belong to the RAM of index `i`.
pub record ToRam (bus : Bus) (req : Txn) (i : ℕ) (r : Ram) : Type 0 where
  pub small : req.addr + req.size < 2 ^ 64
  pub at : get_device_at bus req.addr ≡ some (i, ram r)
  pub inside : in_range_span r.range req.addr req.size ≡ true

-- A read gives the bytes that the RAM holds, and the RAM holds the same bytes after it.
request_read :
    (bus : Bus) (req : Txn) (i : ℕ) (r : Ram)
    → ToRam bus req i r
    → req.write ≡ false
    → (r' : Ram) × ((request bus req).0.error ≡ false)
      × ((k : ℕ) → k < req.size → get_or (request bus req).0.txn.bytes k 0 ≡ peek r (req.addr + k))
      × ((request bus req).1 ≡ store (record bus { next_id = suc bus.next_id }) i (ram r'))
      × (r'.range ≡ r.range)
      × ((j : ℕ) → peek r' j ≡ peek r j)
unfolding new_rsp read_range range
request_read bus req i r v w =
    let clear = (new_rsp bus.next_id req false).txn.bytes in
    let (r', same, ranges, held, got) =
      read_from_ram req.addr req.size v.small r req.size 0 clear v.inside (omega arith)
        (length-replicate req.size 0) in
    rw
      (
        request-serve bus req i (ram r) v.at v.inside,
        serve_read bus req i (ram r) v.small v.inside w,
      )
      (r', refl, (λ k h. got k ∙ ground arith), ap (store _ i) same, ranges, held)

-- A write stores the strobed bytes and changes no other byte.
request_write :
    (bus : Bus) (req : Txn) (i : ℕ) (r : Ram)
    → ToRam bus req i r
    → req.write ≡ true
    → (r' : Ram) × ((request bus req).0.error ≡ false)
      × ((request bus req).1 ≡ store (record bus { next_id = suc bus.next_id }) i (ram r'))
      × (r'.range ≡ r.range)
      × ((j : ℕ)
          → peek r' j ≡ (
              if leb req.addr j
                && ltb j (req.addr + req.size)
                && get_or req.strb (j - req.addr) false
              then get_or req.bytes (j - req.addr) 0
              else peek r j))
unfolding new_rsp write_range range
request_write bus req i r v w =
    let (r', same, ranges, stored) =
      write_from_ram req.addr req.size v.small r req.size 0 req.bytes req.strb v.inside
        (omega arith) in
    rw
      (
        request-serve bus req i (ram r) v.at v.inside,
        serve_write bus req i (ram r) v.small v.inside w,
      )
      (r', refl, ap (store _ i) same, ranges, (λ j. stored j ∙ ground arith))

-- After a write to a RAM, a read whose addresses all belong to the same RAM succeeds, and gives at
-- each of its addresses the byte that was written there, if the write covers the address and its
-- strobe is set, and else the byte that the RAM held before the write.
pub request_write-request_read :
    (bus : Bus) (w rd : Txn) (i : ℕ) (r : Ram) (k : ℕ)
    → ToRam bus w i r
    → ToRam bus rd i r
    → w.write ≡ true
    → rd.write ≡ false
    → k < rd.size
    → let rsp = (request (request bus w).1 rd).0 in
      let j = rd.addr + k in
      (rsp.error ≡ false)
      × (get_or rsp.txn.bytes k 0 ≡ (
          if leb w.addr j && ltb j (w.addr + w.size) && get_or w.strb (j - w.addr) false
          then get_or w.bytes (j - w.addr) 0
          else peek r j))
unfolding range
request_write-request_read bus w rd i r k vw vr hw hr h =
    let (r1, fine, after, ranges, stored) = request_write bus w i r vw hw in
    let bus1 = record bus { next_id = suc bus.next_id } in
    let v1 : ToRam (store bus1 i (ram r1)) rd i r1 = record {
      small = vr.small;
      at =
          get_device_at-store bus1 i rd.addr (ram r) (ram r1)
            (get_device_at-numbered bus (suc bus.next_id) rd.addr ∙ vr.at) ranges;
      inside = rw ranges vr.inside;
    } in
    let (r2, good, got, rest, same, held) = request_read (store bus1 i (ram r1)) rd i r1 v1 hr in
    rw after (good, got k h ∙ stored (rd.addr + k))
