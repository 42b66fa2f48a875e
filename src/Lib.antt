-- ===== src/Lib.antt =====
-- A model of the simulator of the core: the C++ program of flow/verilator, which runs the RTL of the
-- core against a memory, a UART and a source of random numbers. With it, two C programs that run on
-- the core, the boot loader and the frame of the benchmarks, and modules of the core itself: the
-- fetch stage, the loads and stores, the timer and the register file.
--
-- The program. `main` (flow/verilator/main.cpp) builds a `testbench`, loads an S-record file over its
-- `memory_bus`, runs the simulation, and dumps or checks the signature in memory. The testbench
-- steps a `dut_wrapper`, which toggles the clock of the core and drives three agents: two
-- `sram_agent`s, for instructions and data, which turn the core's requests into bus requests, and
-- one `rng_agent`. The bus finds the device of an address and passes the bytes on.
--
-- The files.
--   Txn         flow/verilator/memory_txns.hpp: `memory_txn`, `memory_req_txn`, `memory_rsp_txn`
--   Device      flow/verilator/memory_device.hpp, memory_device.cpp: the loops over a range
--     Range       the constructor and the two `in_range`
--     Ram         flow/verilator/memory_device_ram.hpp, memory_device_ram.cpp
--     Uart        flow/verilator/memory_device_uart.hpp, memory_device_uart.cpp
--     Access      what the loops do to a device; Uart/Lines: what the UART prints
--   Bus         flow/verilator/memory_bus.hpp, memory_bus.cpp
--     Map         the address map; Request: what `request` answers; Request/Memory: reads after
--                 writes; Bytes: accesses of a byte
--   SramAgent   flow/verilator/sram_agent.hpp, sram_agent.cpp
--     Cycle       a clock cycle and runs of cycles; Queue, Counters, Stall, Reset: their
--                 properties
--     Sequential  the memory that serves one request after another, and the agent against it
--   RngAgent    flow/verilator/rng_agent.hpp, rng_agent.cpp
--     Cycle       a clock cycle and runs of cycles; Invariant, Responses, Stall: their
--                 properties; Reset: the stalls in a reset
--   Srec        flow/verilator/srec.hpp, srec.cpp; Parse: the records;
--     Files       whole files; Readmemh: the dump
--   Loader      `load_srec_file` of flow/verilator/main.cpp; Loaded: its effect on the bus;
--     Program     whole files loaded
--   Signature   `dump_signature_file`, `a2h`, `verif_signature_file` of flow/verilator/main.cpp
--     Dump        the text of the dump; RoundTrip: the dump and the check together; Ends: the two
--                 loops end
--   DutWrapper  flow/verilator/dut_wrapper.hpp, dut_wrapper.cpp; Step: a step of the clock;
--     Bounds, Reset   the invariants of the agents over the steps and the reset
--   Testbench   flow/verilator/testbench.hpp, testbench.cpp; Build: the address map; Run: the loop;
--     Verdict     what the trace decides; Sound: the invariants from before the reset on
--   Arguments   the settings and `process_arguments` of flow/verilator/main.cpp
--     Number      `std::stoul`; Written: numbers as they are written; Meaning: what well-formed
--                 arguments ask for
--   Main        `main` of flow/verilator/main.cpp; Exits: its way to an exit status;
--     Sound       the invariants of the agents at the end of its run
--   Fsbl        src/fsbl/fsbl.c, the boot loader that runs on the core; Loads: what it loads
--   Embench     flow/embench/embench.c, the console of the benchmarks that run on the core
--     Hex         the digits of numbers; Console: text through the memory bus to the UART;
--     Benchmark   `main` of flow/embench/main.c
--   Rtl         modules of the core, rtl/core
--     FetchBuffer   rtl/core/frv_core_fetch_buffer.v; Halfwords, Queue, Stream: the queue that it is;
--                   Errors: its error bits
--     Fetch         rtl/core/frv_pipeline_fetch.v; Spec: the stream that it promises; Requests,
--                   Responses, Registers, Step: a cycle keeps it; Stream: runs of cycles; Progress:
--                   its requests on the bus
--     Lsu           rtl/core/frv_lsu.v; Store: the data and strobes of a store; Once: its requests;
--                   Lanes, Memory: through the pins of the memory agent and the bus
--     Writeback     the value of a load in rtl/core/frv_pipeline_writeback.v; Loads: what it is
--     Counters      rtl/core/frv_counters.v; Timer: the time, its compare register and the interrupt
--     Gprs          rtl/core/frv_gprs.v; Writes: what a write leaves in the registers
--   OrdMap      `std::map` as a sorted list; CRandom: `rand` and `srand`; Base: shared helpers
--   Tests       concrete values and the theorems at them
--
-- State. An object is a record, and a method a function from the record to its result and the new
-- record. A pointer to a device is its index in the bus. The pins of the core are a record, in which
-- a one-bit signal is a Boolean. Numbers are natural numbers, with the wrap-around of 8, 32 and 64
-- bits written out where the code computes in such a type. `memory_bus::request` and the agents that
-- share the bus and the random numbers hand both on explicitly, in the order of the calls.
--
-- In Rtl, the registers of a module are a record, its inputs at a rising edge of the clock another, a
-- wire a function of both, and the edge a function from both to the registers. The memory in front of
-- the fetch stage is a list of the addresses that it has accepted and not answered, which it answers
-- in order.
--
-- Parameters. The core is the class that Verilator generates: a state and a function `eval` of the
-- input pins. `rand` and `srand` belong to the C library: a state, a draw and a seed. Members that
-- the code leaves uninitialised are arguments of the constructors. The files are a function from paths
-- to bytes, which a dump changes. The registers that the boot loader reads and writes are a parameter,
-- `Hardware`; what it relies on of the UART is the record `UartLite`. What a
-- benchmark is linked with, and the text of `sprintf`, are the record `Board`. `std::stoul` belongs
-- to the C library: Arguments/Number follows its documentation.
--
-- Fuel and bounds. The loops of `run`, `dump_signature_file` and `verif_signature_file` and the waits
-- of the boot loader take fuel, and end without a result only where it runs out; the theorems on them
-- prove that the fuel that the loop's bounds ask for is enough. All other loops recurse on a count or
-- a list. The theorems on bus requests ask that the last address does not pass 2 ^ 64. The theorems on
-- the fetch stage ask that at most seven of its requests wait, which its counter of three bits counts.
--
-- Not modelled: the help text, messages and waveforms, which are output only; the freeing of memory,
-- other than the order of deletions in `set_reset`; a file that cannot be written; the counter of
-- transactions per source file, since nothing reads the numbers; the other modules of the RTL,
-- some of which rest on a submodule that is not in the repository, so that the core that the simulator
-- runs is a parameter; and the assembly, the tests and the scripts.
pub mod Base
pub mod OrdMap
pub mod Txn
pub mod Device
pub mod Bus
pub mod CRandom
pub mod SramAgent
pub mod RngAgent
pub mod Srec
pub mod Loader
pub mod Signature
pub mod DutWrapper
pub mod Testbench
pub mod Arguments
pub mod Main
pub mod Fsbl
pub mod Embench
pub mod Rtl
pub mod Tests
