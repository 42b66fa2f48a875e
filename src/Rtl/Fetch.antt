-- ===== src/Rtl/Fetch.antt =====
-- rtl/core/frv_pipeline_fetch.v: the stage that asks the memory for words, drops the answers to
-- requests from before a jump, and puts the others into the fetch buffer.
pub mod Spec
pub mod Requests
pub mod Responses
pub mod Registers
pub mod Step
pub mod Stream
pub mod Progress
use scarv_cpu.Base.{
  ℕ, ◌+◌, ◌-◌, ◌*◌, ◌/◌, ◌%◌, ◌^◌, Bool, true, false, not, ◌&&◌, ◌||◌, ltb, ◌==◌, if◌then◌else◌,
}
use scarv_cpu.Rtl.{bit}
use scarv_cpu.Rtl.FetchBuffer.{Buffer, buf_32, buf_valid}
use scarv_cpu.Rtl.FetchBuffer

pub record Fetch : Type 0 where
  pub imem_req : Bool
  pub imem_addr : ℕ
  pub reqs_outstanding : ℕ
  pub ignore_rsps : ℕ
  pub fetch_misaligned : Bool
  pub i_core_fetch_buffer : Buffer

pub record Inputs : Type 0 where
  pub g_resetn : Bool
  pub cf_req : Bool
  pub cf_target : ℕ
  pub imem_gnt : Bool
  pub imem_recv : Bool
  pub imem_error : Bool
  pub imem_rdata : ℕ
  pub s0_flush : Bool
  pub s1_busy : Bool

abbrev frv_pc_reset_value : ℕ
frv_pc_reset_value = 2 ^ 31

abbrev frv_max_reqs_outstanding : ℕ
frv_max_reqs_outstanding = 1

unfoldable pub s1_valid : Fetch → Bool
s1_valid s = buf_valid s.i_core_fetch_buffer

unfoldable pub buf_ready : Fetch → Inputs → Bool
unfolding s1_valid
buf_ready s i = s1_valid s && not i.s1_busy

unfoldable pub cf_ack : Fetch → Inputs → Bool
cf_ack s i = not s.imem_req || s.imem_req && i.imem_gnt

unfoldable pub cf_change : Fetch → Inputs → Bool
unfolding cf_ack
cf_change s i = i.cf_req && cf_ack s i

unfoldable pub f_ready : Fetch → Inputs → Bool
unfolding buf_ready
f_ready s i = FetchBuffer.f_ready s.i_core_fetch_buffer (buf_ready s i)

-- `imem_ack` is `f_ready`.
unfoldable pub rsp_recv : Fetch → Inputs → Bool
unfolding f_ready
rsp_recv s i = i.imem_recv && f_ready s i

unfoldable pub drop_response : Fetch → Bool
drop_response s = ltb 0 s.ignore_rsps

unfoldable pub f_4byte : Fetch → Inputs → Bool
unfolding rsp_recv drop_response
f_4byte s i = rsp_recv s i && not s.fetch_misaligned && not (drop_response s)

unfoldable pub f_2byte : Fetch → Inputs → Bool
unfolding rsp_recv drop_response
f_2byte s i = rsp_recv s i && s.fetch_misaligned && not (drop_response s)

unfoldable pub progress_imem_addr : Fetch → Inputs → Bool
progress_imem_addr s i = s.imem_req && i.imem_gnt

unfoldable pub n_ignore_rsps : Fetch → Inputs → ℕ
unfolding rsp_recv
n_ignore_rsps s i = (s.ignore_rsps + 8 - bit (rsp_recv s i)) % 8

unfoldable pub n_reqs_outstanding : Fetch → Inputs → ℕ
unfolding rsp_recv
n_reqs_outstanding s i =
    (s.reqs_outstanding + bit (s.imem_req && i.imem_gnt) + 8 - bit (rsp_recv s i)) % 8

unfoldable pub n_imem_addr : Fetch → ℕ
n_imem_addr s = (s.imem_addr + 4) % 2 ^ 32

unfoldable pub incomplete_instr : Fetch → Bool
incomplete_instr s = buf_32 s.i_core_fetch_buffer && s.i_core_fetch_buffer.bdepth == 1

unfoldable pub allow_new_mem_req : Fetch → Inputs → Bool
unfolding n_reqs_outstanding
allow_new_mem_req s i =
    ltb s.reqs_outstanding frv_max_reqs_outstanding
    || n_reqs_outstanding s i == 0
    || s.reqs_outstanding == frv_max_reqs_outstanding
      && n_reqs_outstanding s i == frv_max_reqs_outstanding

unfoldable pub n_imem_req : Fetch → Inputs → Bool
unfolding f_ready cf_change allow_new_mem_req incomplete_instr
n_imem_req s i =
    let new_mem_req = f_ready s i || cf_change s i in
    (new_mem_req && allow_new_mem_req s i || incomplete_instr s) || s.imem_req && not i.imem_gnt

unfoldable pub n_fetch_misaligned : Fetch → Inputs → Bool
unfolding cf_change f_2byte
n_fetch_misaligned s i =
    if cf_change s i then i.cf_target / 2 % 2 == 1 else s.fetch_misaligned && not (f_2byte s i)

-- What the stage hands to its buffer.
unfoldable pub buffer_inputs : Fetch → Inputs → FetchBuffer.Inputs
unfolding f_4byte f_2byte buf_ready
buffer_inputs s i = record {
  g_resetn = i.g_resetn;
  flush = i.s0_flush;
  f_4byte = f_4byte s i;
  f_2byte = f_2byte s i;
  f_err = i.imem_error;
  f_in = i.imem_rdata;
  buf_ready = buf_ready s i;
}

-- Each `always` block gives its register after the edge.
unfoldable pub next_imem_addr : Fetch → Inputs → ℕ
unfolding cf_change progress_imem_addr n_imem_addr
next_imem_addr s i =
    if not i.g_resetn
    then frv_pc_reset_value
    else if cf_change s i
    then i.cf_target / 4 * 4
    else if progress_imem_addr s i
    then n_imem_addr s
    else s.imem_addr

unfoldable pub next_ignore_rsps : Fetch → Inputs → ℕ
unfolding cf_change n_reqs_outstanding n_ignore_rsps
next_ignore_rsps s i =
    if not i.g_resetn
    then 0
    else if cf_change s i
    then n_reqs_outstanding s i
    else if ltb 0 s.ignore_rsps
    then n_ignore_rsps s i
    else s.ignore_rsps

unfoldable pub posedge_clk : Fetch → Inputs → Fetch
unfolding n_imem_req next_imem_addr n_reqs_outstanding next_ignore_rsps n_fetch_misaligned
    buffer_inputs
posedge_clk s i = record {
  imem_req = i.g_resetn && n_imem_req s i;
  imem_addr = next_imem_addr s i;
  reqs_outstanding = if not i.g_resetn then 0 else n_reqs_outstanding s i;
  ignore_rsps = next_ignore_rsps s i;
  fetch_misaligned = i.g_resetn && n_fetch_misaligned s i;
  i_core_fetch_buffer = FetchBuffer.posedge_clk s.i_core_fetch_buffer (buffer_inputs s i);
}
