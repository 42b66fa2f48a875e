-- ===== src/Tests/LoadStore.antt =====
-- Concrete loads and stores of the core.
use scarv_cpu.Base.{◌-◌, ◌^◌, ◌≡◌, refl, true, false, List, [], ◌∷◌, arith}
use scarv_cpu.Txn.{new_txn, data_word}
use scarv_cpu.Device.{range}
use scarv_cpu.Device.Range.{in_range, in_range_span}
use scarv_cpu.Bus.{get_device_at, get_device_from, request}
use scarv_cpu.Bus.Request.Memory.{ToRam}
use scarv_cpu.SramAgent.{new_request}
use scarv_cpu.Rtl.{bit}
use scarv_cpu.Rtl.Lsu
use scarv_cpu.Rtl.Lsu.{Lsu, Params, dmem_addr, lsu_mmio, lsu_a_error}
use scarv_cpu.Rtl.Lsu.Store.{byte}
use scarv_cpu.Rtl.Lsu.Memory.{pins, load_of, store-load}
use scarv_cpu.Rtl.Lsu.Once
use scarv_cpu.Rtl.Lsu.Once.{requests, Waits, requests-lsu_finished}
use scarv_cpu.Rtl.Writeback.{lsu_rdata}
use scarv_cpu.Tests.{small_ram, small_bus}

-- A store of a byte into the RAM, and a load of it that extends its sign.
abbrev byte_store : Lsu.Inputs
byte_store = record {
  g_resetn = true;
  lsu_valid = true;
  pipe_prog = false;
  lsu_addr = 4098;
  lsu_wdata = 496;
  lsu_load = false;
  lsu_store = true;
  lsu_byte = true;
  lsu_half = false;
  lsu_word = false;
  lsu_signed = false;
  hold_lsu_req = false;
  dmem_gnt = false;
}

abbrev byte_load : Lsu.Inputs
byte_load = record byte_store { lsu_load = true; lsu_store = false; lsu_signed = true }

byte_store-ToRam : ToRam small_bus (new_request (pins byte_store) 5) 0 small_ram
unfolding new_request dmem_addr get_device_at get_device_from in_range in_range_span range new_txn
byte_store-ToRam = record { small = omega arith; at = refl; inside = refl }

byte_load-ToRam : ToRam small_bus (new_request (pins byte_load) 6) 0 small_ram
unfolding new_request dmem_addr get_device_at get_device_from in_range in_range_span range new_txn
byte_load-ToRam = record { small = omega arith; at = refl; inside = refl }

store-load_example :
    let rsp =
      (request
        (request small_bus (new_request (pins byte_store) 5)).1
        (new_request (pins byte_load) 6)).0 in
    (rsp.error ≡ false) × (lsu_rdata (load_of byte_load (data_word rsp.txn)) ≡ 2 ^ 32 - 16)
store-load_example =
    store-load small_bus 0 small_ram byte byte_store byte_load 5 6
      (record {
        is_byte = refl;
        is_half = refl;
        is_word = refl;
        aligned = refl;
        fits = omega arith;
      })
      (record {
        is_byte = refl;
        is_half = refl;
        is_word = refl;
        aligned = refl;
        fits = omega arith;
      })
      refl refl refl byte_store-ToRam byte_load-ToRam tt

-- The store waits for its grant, gets it, and waits for the pipeline.
abbrev no_mmio : Params
no_mmio = record { mmio_base_addr = 2 ^ 12; mmio_base_mask = 0 }

abbrev idle_lsu : Lsu
idle_lsu = record { mmio_done = false; lsu_finished = false }

abbrev lsu_cycles : List Lsu.Inputs
lsu_cycles =
    byte_store ∷ record byte_store { dmem_gnt = true } ∷ record byte_store { dmem_gnt = true } ∷ []

lsu_cycles-Waits : Waits no_mmio lsu_cycles
unfolding lsu_mmio lsu_a_error
lsu_cycles-Waits = (
  (refl, refl, refl, refl, refl),
  ((refl, refl, refl, refl, refl), ((refl, refl, refl, refl, refl), tt)),
)

requests-lsu_finished_example :
    bit (Once.run no_mmio idle_lsu lsu_cycles).lsu_finished ≡ requests no_mmio idle_lsu lsu_cycles
requests-lsu_finished_example =
    requests-lsu_finished no_mmio idle_lsu lsu_cycles lsu_cycles-Waits refl
