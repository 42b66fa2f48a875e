-- ===== src/Rtl/Lsu/Memory.antt =====
-- A store and a load of the core through the memory bus.
use scarv_cpu.Base.{
  ℕ, ◌+◌, ◌-◌, ◌*◌, ◌/◌, ◌%◌, ◌^◌, ◌<◌, ◌≡◌, sym, ap, ap₂, ◌∙◌, Bool, true, false, ◌&&◌, List, [],
  ◌∷◌, leb, ltb, ◌==◌, get_or, if◌then◌else◌, arith,
}
use scarv_cpu.Txn.{data_word}
use scarv_cpu.Txn.Word.{data_word-get_or, data_word_fits}
use scarv_cpu.OrdMap
use scarv_cpu.OrdMap.{OrdMap, MapBytes}
use scarv_cpu.Device.Ram.{Ram, peek}
use scarv_cpu.Bus.{Bus, request}
use scarv_cpu.Bus.Request.{request-size}
use scarv_cpu.Bus.Request.Memory.{ToRam, request_write-request_read}
use scarv_cpu.SramAgent.{Pins, new_request}
use scarv_cpu.Rtl.Lsu.{Inputs, dmem_addr, dmem_wdata, dmem_strb}
use scarv_cpu.Rtl.Lsu.Store.{
  Width, byte, half, word, bytes, HasWidth, dmem_wdata-shifted, dmem_strb_at-lanes, low_aligned,
}
use scarv_cpu.Rtl.Lsu.Lanes.{
  new_request-write, new_request-shape, lines-dmem_strb, data_bytes-get_or, read_back,
}
use scarv_cpu.Rtl.Writeback.{Load, lsu_rdata}
use scarv_cpu.Rtl.Writeback.Loads.{extend, lsu_rdata-extend}
use scarv_cpu.Rtl.Writeback.Loads

-- The unit's wires to the memory, on the pins that the memory agent reads.
abbrev pub pins : Inputs → Pins
pins i = record {
  mem_req = true;
  mem_gnt = true;
  mem_wen = i.lsu_store;
  mem_strb = dmem_strb i;
  mem_wdata = dmem_wdata i;
  mem_addr = dmem_addr i;
  mem_recv = false;
  mem_ack = true;
  mem_error = false;
  mem_rdata = 0;
}

-- The load instruction as the last stage sees it, with the answer of the memory.
abbrev pub load_of : Inputs → ℕ → Load
load_of i m = record {
  lsu_strb = dmem_strb i;
  lsu_byte = i.lsu_byte;
  lsu_half = i.lsu_half;
  lsu_word = i.lsu_word;
  lsu_signed = i.lsu_signed;
  lsu_addr = i.lsu_addr;
  mem_rdata = m;
}

-- The bytes of a RAM's map fit in eight bits.
value-fits : (m : OrdMap) (k : ℕ) → MapBytes m → OrdMap.value k m < 256
unfolding OrdMap.value OrdMap.find
value-fits [] k h = omega arith
value-fits ((j, v) ∷ m) k h = ground (arith, h.0, value-fits m k h.1)

-- A lane of a read at the address of a write of four bytes.
pick :
    (rd wr size k : ℕ) (strb : List Bool) (ds : List ℕ) (old : ℕ)
    → rd ≡ wr
    → size ≡ 4
    → k < 4
    → (if leb wr (rd + k) && ltb (rd + k) (wr + size) && get_or strb (rd + k - wr) false
        then get_or ds (rd + k - wr) 0
        else old)
      ≡ (if get_or strb k false then get_or ds k 0 else old)
pick rd wr size k strb ds old e f l =
    let place : rd + k - wr ≡ k = omega (arith, e) in
    ap
      (λ j.
        if leb wr (rd + k) && ltb (rd + k) (wr + size) && get_or strb j false
        then get_or ds j 0
        else old)
      place
    ∙ ground (arith, e, f, l)

bytes_positive : (w : Width) → 0 < bytes w
bytes_positive byte = omega arith
bytes_positive half = omega arith
bytes_positive word = omega arith

load_of-HasWidth :
    (l : Inputs) (w : Width) (d : ℕ) → HasWidth l w → d < 2 ^ 32 → Loads.HasWidth (load_of l d) w
load_of-HasWidth l w d h f = record {
  is_byte = h.is_byte;
  is_half = h.is_half;
  is_word = h.is_word;
  aligned = h.aligned;
  strobed =
      ap (λ (n : ℕ). n % 2 == 1) (omega arith)
      ∙ lines-dmem_strb l 0 (omega arith)
      ∙ dmem_strb_at-lanes l w 0 h (omega arith)
      ∙ lowest (l.lsu_addr % 4);
  fits = f;
}
  where
    lowest : (low : ℕ) → (leb low 0 && ltb 0 (low + bytes w)) ≡ (low == 0)
    lowest low = ground (arith, bytes_positive w)

module _ (bus : Bus) (at : ℕ) (r : Ram) (w : Width) (s l : Inputs) (n m : ℕ) (sw : HasWidth s w)
    (lw : HasWidth l w) (is_store : s.lsu_store ≡ true) (is_load : l.lsu_store ≡ false)
    (same : l.lsu_addr ≡ s.lsu_addr) (to_write : ToRam bus (new_request (pins s) n) at r)
    (to_read : ToRam bus (new_request (pins l) m) at r) (typed : MapBytes r.memory) where
  same_address : dmem_addr l ≡ dmem_addr s
  unfolding dmem_addr
  same_address = ap (λ (a : ℕ). a / 4 * 4) same

  read_after :
      (k : ℕ)
      → k < 4
      → get_or
          (request (request bus (new_request (pins s) n)).1 (new_request (pins l) m)).0.txn.bytes
          k
          0
        ≡ (if leb (s.lsu_addr % 4) k && ltb k (s.lsu_addr % 4 + bytes w)
            then s.lsu_wdata % 2 ^ (8 * bytes w) * 2 ^ (8 * (s.lsu_addr % 4)) / 2 ^ (8 * k) % 256
            else peek r (dmem_addr l + k))
  read_after k h =
      let wr = new_request (pins s) n in
      let rd = new_request (pins l) m in
      let (wr_addr, wr_size, wr_write) = new_request-shape (pins s) n in
      let (rd_addr, rd_size, rd_write) = new_request-shape (pins l) m in
      let (strbs, ds) = new_request-write (pins s) n is_store in
      let there : rd.addr ≡ wr.addr = rd_addr ∙ same_address ∙ sym wr_addr in
      let lane : get_or wr.strb k false
          ≡ leb (s.lsu_addr % 4) k && ltb k (s.lsu_addr % 4 + bytes w) =
        ap (λ b. get_or b k false) strbs ∙ lines-dmem_strb s k h ∙ dmem_strb_at-lanes s w k sw h in
      let written : get_or wr.bytes k 0
          ≡ s.lsu_wdata % 2 ^ (8 * bytes w) * 2 ^ (8 * (s.lsu_addr % 4)) / 2 ^ (8 * k) % 256 =
        ap (λ b. get_or b k 0) ds
        ∙ data_bytes-get_or (dmem_wdata s) k h
        ∙ ap (λ (d : ℕ). d / 2 ^ (8 * k) % 256) (dmem_wdata-shifted s w sw) in
      (request_write-request_read bus wr rd at r k to_write to_read (wr_write ∙ is_store)
        (rd_write ∙ is_load) (omega (arith, rd_size, h))).1
      ∙ pick rd.addr wr.addr wr.size k wr.strb wr.bytes (peek r (rd.addr + k)) there wr_size h
      ∙ ap₂ (λ c (b : ℕ). if c then b else peek r (rd.addr + k)) lane written
      ∙ ap
          (λ (a : ℕ).
            if leb (s.lsu_addr % 4) k && ltb k (s.lsu_addr % 4 + bytes w)
            then s.lsu_wdata % 2 ^ (8 * bytes w) * 2 ^ (8 * (s.lsu_addr % 4)) / 2 ^ (8 * k) % 256
            else peek r (a + k))
          rd_addr

  old_byte : (k : ℕ) → peek r (dmem_addr l + k) < 256
  unfolding peek
  old_byte k = value-fits r.memory (dmem_addr l + k) typed

  read_fits :
      (k : ℕ)
      → k < 4
      → get_or
          (request (request bus (new_request (pins s) n)).1 (new_request (pins l) m)).0.txn.bytes
          k
          0
        < 256
  read_fits k h = ground (arith, read_after k h, old_byte k)

  -- A load of what a store has just written through the bus, of the same width and at the same
  -- aligned address, succeeds and gives the written bytes, extended to 32 bits, where the word of
  -- the address lies in a RAM, which holds bytes.
  pub store-load :
      let rsp = (request (request bus (new_request (pins s) n)).1 (new_request (pins l) m)).0 in
      (rsp.error ≡ false)
      × (lsu_rdata (load_of l (data_word rsp.txn))
          ≡ extend l.lsu_signed w (s.lsu_wdata % 2 ^ (8 * bytes w)))
  store-load =
      let wr = new_request (pins s) n in
      let rd = new_request (pins l) m in
      let rsp = (request (request bus wr).1 rd).0 in
      let (wr_addr, wr_size, wr_write) = new_request-shape (pins s) n in
      let (rd_addr, rd_size, rd_write) = new_request-shape (pins l) m in
      let fine =
        (request_write-request_read bus wr rd at r 0 to_write to_read (wr_write ∙ is_store)
          (rd_write ∙ is_load) (omega (arith, rd_size))).0 in
      let word =
        data_word-get_or rsp.txn (request-size (request bus wr).1 rd ∙ rd_size) read_fits in
      (
        fine,
        lsu_rdata-extend (load_of l (data_word rsp.txn)) w
              (load_of-HasWidth l w (data_word rsp.txn) lw (data_word_fits rsp.txn))
            ∙ ap (λ (v : ℕ). extend l.lsu_signed w v)
                (ap₂ (λ (v a : ℕ). v / 2 ^ (8 * (a % 4)) % 2 ^ (8 * bytes w)) word same
                  ∙ read_back w (s.lsu_addr % 4) s.lsu_wdata _ _ _ _ (λ k. peek r (dmem_addr l + k))
                      (omega arith) (low_aligned w s.lsu_addr sw.aligned) old_byte
                      (read_after 0 (omega arith)) (read_after 1 (omega arith))
                      (read_after 2 (omega arith)) (read_after 3 (omega arith))),
      )
